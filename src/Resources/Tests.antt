-- ===== src/Resources/Tests.antt =====
-- Runs of agent_runtime_top/src/resource.c at concrete inputs.
use mathlib.Core.Bool.{false≢true}
use agent_nucleus.Resources.Accounts.{IsPaired}
use agent_nucleus.Prelude.{
  ◌≡◌, refl, ap, map, ℕ, ◌+◌, ◌-◌, ◌%◌, u64_mod, true, false, none, some, [], ◌∷◌, codes, inl, inr,
  arith,
}
use agent_nucleus.Arrays.{success}
use agent_nucleus.Slots.{find_slot}
use agent_nucleus.Resources.State.{
  ResourceDesc, ResourceOps, ResourceTable, ResourceRequest, gpu, idle, busy, no_handle,
  no_resource, no_resources, resource_init, resource_register, resource_unregister,
  resource_allocate, allocate_from, resource_release, resource_get_info, resource_discover,
  count_matches, copy_matches,
}
use agent_nucleus.Resources.Release.{Undoes, resource_allocate-release}
use agent_nucleus.Resources.Discover.{IsTally, resource_discover-IsTally}

unfoldable resource_code : Unit {0}
unfolding find_slot no_resources resource_init resource_register resource_unregister allocate_from
    resource_allocate resource_release resource_get_info resource_discover count_matches
    copy_matches
resource_code = tt

abbrev no_ops : ResourceOps
no_ops = record { init = none; destroy = none; allocate = none; release = none }

abbrev a_gpu : ResourceDesc
a_gpu = record {
  id = 4;
  name = codes "GPU_0";
  type = gpu;
  state = idle;
  capacity = 100;
  used = 0;
  private_data = 0;
}

abbrev initial : ResourceTable
initial = (resource_init no_resources).1

-- The id 0 names a free slot: it is found, and the count wraps.
unregisters_none : (resource_unregister 0 initial).1.1.count ≡ 4294967295
unfolding resource_code
unregisters_none = refl

-- So does a handle that has been released: to release it again succeeds.
releases_twice : (resource_release no_handle initial).0 ≡ success
unfolding resource_code
releases_twice = refl

-- A small table, with one resource and a free slot.
abbrev one_gpu : ResourceTable
one_gpu = record {
  resources = record { desc = a_gpu; ops = some no_ops } ∷ no_resource ∷ [];
  count = 1;
  initialized = true;
}

abbrev a_request : ResourceRequest
a_request = record { type = gpu; size = 30 }

gives :
    (resource_allocate a_request one_gpu).0
    ≡ some (record { id = 4; slot = 0; allocated_size = 30 })
unfolding resource_code
gives = refl

-- Callbacks that take the size from the resource and give it back.
abbrev counting : ResourceOps
counting = record no_ops {
  allocate = some (λ d size. (true, record d { used = (d.used + size) % u64_mod }));
  release = some (λ d size. record d { used = (d.used + u64_mod - size % u64_mod) % u64_mod });
}

-- Callbacks of a device that counts in its private data how often it has refused.
abbrev refusing : ResourceOps
refusing = record no_ops {
  allocate = some (λ d size. (false, record d { private_data = d.private_data + 1 }));
}

counting-IsPaired : IsPaired (some counting)
counting-IsPaired = record {
  same_id = λ d size. refl;
  undone = λ d size small accepts.
      ap (λ u. record d { used = u; state = busy }) (taken_and_given d.used size);
}
  where
    taken_and_given :
        (used size : ℕ)
        → (((used + size) % u64_mod + size) % u64_mod + u64_mod - size % u64_mod) % u64_mod
          ≡ (used + size) % u64_mod
    taken_and_given used size = omega arith

refusing-IsPaired : IsPaired (some refusing)
refusing-IsPaired = record {
  same_id = λ d size. refl;
  undone = λ d size small accepts. absurd (false≢true accepts);
}

no_ops-IsPaired : IsPaired none
no_ops-IsPaired = record { same_id = λ d size. refl; undone = λ d size small accepts. refl }

-- The first GPU refuses, the second one serves the request.
abbrev two_gpus : ResourceTable
two_gpus = record {
  resources =
      record { desc = record a_gpu { id = 7 }; ops = some refusing }
      ∷ record { desc = a_gpu; ops = some counting }
      ∷ no_resource
      ∷ [];
  count = 2;
  initialized = true;
}

second-serves :
    (resource_allocate a_request two_gpus).0
    ≡ some (record { id = 4; slot = 1; allocated_size = 30 })
unfolding resource_code
second-serves = refl

-- While the request is served its size is counted twice: by the callback and by resource_allocate.
second-counts_twice :
    map (λ r. r.desc.used) (resource_allocate a_request two_gpus).1.resources ≡ 0 ∷ 60 ∷ 0 ∷ []
unfolding resource_code
second-counts_twice = refl

resource_allocate-release_example : Undoes a_request two_gpus (resource_allocate a_request two_gpus)
resource_allocate-release_example =
    resource_allocate-release a_request two_gpus refl
      (
        record {
          within = omega arith;
          fits = omega arith;
          rested = λ e. refl;
          paired = refusing-IsPaired;
        },
        (
          record {
            within = omega arith;
            fits = omega arith;
            rested = λ e. refl;
            paired = counting-IsPaired;
          },
          (
            record {
              within = omega arith;
              fits = omega arith;
              rested = λ e. refl;
              paired = no_ops-IsPaired;
            },
            tt,
          ),
        ),
      )
      (inr refl, (inr refl, (inl refl, tt)))

resource_discover-IsTally_example : IsTally true gpu (resource_discover true gpu one_gpu)
resource_discover-IsTally_example = resource_discover-IsTally true gpu one_gpu (omega arith)
