-- ===== src/Results/Tests.antt =====
-- Runs of agent-runtime/src/shared_memory.cpp at concrete inputs.
use agent_nucleus.Prelude.{◌≡◌, refl, true, false, some, [], arith}
use agent_nucleus.Table.{lookup, erase}
use agent_nucleus.Results.Region.{
  SharedMemoryRegion, ResizeCalls, SealCalls, resize, seal_read_only,
}
use agent_nucleus.Results.Store.{ResultStore, retain, publish, acquire_result}
use agent_nucleus.Results.Publish.{IsPublished, publish-IsPublished}

unfoldable result_code : Unit {0}
unfolding lookup erase resize seal_read_only retain publish acquire_result
result_code = tt

abbrev resizes : ResizeCalls
resizes = record { unmap = true; truncate = true; map = true; restore = true }

abbrev seals : SealCalls
seals = record { unmap = true; seal = true; map = true }

abbrev region : SharedMemoryRegion
region = record { mapped = true; size = 64; region_id = 9; read_only = false }

abbrev published : ResultStore
published = (publish resizes seals 3 region 5 1 1 []).1

acquires :
    acquire_result true 3 published
    ≡ some (record {
      region_id = 9;
      region_size = 5;
      offset = 0;
      len = 5;
      data_type = 1;
      flags = 3;
      version = 1;
    })
unfolding result_code
acquires = refl

publish-IsPublished_example : IsPublished 3 5 [] (publish resizes seals 3 region 5 1 1 [])
publish-IsPublished_example = publish-IsPublished resizes seals 3 region 5 1 1 [] (λ e. omega arith)
