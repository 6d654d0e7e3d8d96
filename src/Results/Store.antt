-- ===== src/Results/Store.antt =====
-- agent-runtime/src/shared_memory.cpp: AgentResultStore, and the tests of SharedMemoryChannel.
use agent_nucleus.Prelude.{
  ℕ, ◌-◌, Bool, true, false, not, ◌||◌, Option, none, some, [], ◌∷◌, length, ltb, ◌==◌,
  if◌then◌else◌,
}
use Prim.Native.Nat.{bit_or}
use agent_nucleus.Table.{Table, lookup, erase, contains}
use agent_nucleus.Control.Agent.{SharedBufferRef}
use agent_nucleus.Results.Region.{
  SharedMemoryRegion, ResizeCalls, SealCalls, is_valid, resize, seal_read_only,
}

pub record StoredResult : Type 0 where
  pub region : SharedMemoryRegion
  pub reference : SharedBufferRef

abbrev pub ResultStore : Type 0
ResultStore = Table StoredResult

abbrev pub shared_buffer_immutable : ℕ
shared_buffer_immutable = 2

-- What publish refers to.
abbrev pub reference_to : SharedMemoryRegion → ℕ → ℕ → ℕ → SharedBufferRef
reference_to region len data_type flags = record {
  region_id = region.region_id;
  region_size = region.size;
  offset = 0;
  len = len;
  data_type = data_type;
  flags = bit_or flags shared_buffer_immutable;
  version = 1;
}

abbrev pub retained_size : ℕ → ℕ
retained_size len = if len == 0 then 1 else len

-- The region as publish keeps it, where the system calls allow.
unfoldable pub retain : ResizeCalls → SealCalls → ℕ → SharedMemoryRegion → Bool × SharedMemoryRegion
retain resizing sealing len region =
    let shrunk =
      if retained_size len == region.size
      then (true, region)
      else resize resizing (retained_size len) region in
    if not shrunk.0 then (false, shrunk.1) else seal_read_only sealing shrunk.1

-- insert_or_assign
abbrev pub assign : ℕ → StoredResult → ResultStore → ResultStore
assign id result results = (id, result) ∷ erase id results

unfoldable pub publish :
    ResizeCalls → SealCalls → ℕ → SharedMemoryRegion → ℕ → ℕ → ℕ → ResultStore → Bool × ResultStore
publish resizing sealing id region len data_type flags results =
    let kept = retain resizing sealing len region in
    if id == 0 || not (is_valid region) || ltb region.size len
    then (false, results)
    else if not kept.0
    then (false, results)
    else (
      true,
      assign id (record { region = kept.1; reference = reference_to kept.1 len data_type flags })
          results,
    )

-- `duplicated` is whether fcntl gives a descriptor.
unfoldable pub acquire_result : Bool → ℕ → ResultStore → Option SharedBufferRef
acquire_result duplicated id results = elim (lookup id results) [
  | none ↦ none
  | some result ↦ if duplicated then some result.reference else none
]

abbrev pub erase_result : ℕ → ResultStore → Bool × ResultStore
erase_result id results = (contains id results, erase id results)

abbrev pub clear_results : ResultStore → ResultStore
clear_results results = []

abbrev pub size_of_results : ResultStore → ℕ
size_of_results results = length results

-- The tests of send on a reference, with a descriptor that is not negative.
abbrev pub may_send : SharedBufferRef → Bool
may_send r = not (
    r.region_id == 0
    || r.region_size == 0
    || (ltb r.region_size r.offset || ltb (r.region_size - r.offset) r.len))

-- The tests of receive.
abbrev pub may_receive : SharedBufferRef → Bool
may_receive r = not (
    not (r.version == 1)
    || r.region_size == 0
    || (ltb r.region_size r.offset || ltb (r.region_size - r.offset) r.len))
