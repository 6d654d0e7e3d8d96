-- ===== src/Resources/State.antt =====
-- agent_runtime_top/src/resource.c: the state g_resource_table and the functions on it.
use agent_nucleus.Prelude.{
  ℕ, ◌+◌, ◌-◌, ◌%◌, Bool, true, false, not, ◌&&◌, Option, none, some, List, [], ◌∷◌, ◌++◌, leb,
  ◌==◌, if◌then◌else◌, Bytes, u32_mod, u64_mod,
}
use agent_nucleus.Arrays.{Status, success, failure, set, replicate}
use agent_nucleus.Slots.{bit, find_slot}

pub data ResourceType : Type 0 where
  model tool cpu gpu memory network : ResourceType

pub data ResourceState : Type 0 where
  idle busy error offline : ResourceState

-- `private_data` is an address, 0 for NULL.
pub record ResourceDesc : Type 0 where
  pub id : ℕ
  pub name : Bytes
  pub type : ResourceType
  pub state : ResourceState
  pub capacity : ℕ
  pub used : ℕ
  pub private_data : ℕ

-- The callbacks that resource.c calls. Each takes the descriptor and leaves it as it answers; that of
-- allocate also answers whether it succeeded.
pub record ResourceOps : Type 0 where
  pub init : Option (ResourceDesc → ResourceDesc)
  pub destroy : Option (ResourceDesc → ResourceDesc)
  pub allocate : Option (ResourceDesc → ℕ → Bool × ResourceDesc)
  pub release : Option (ResourceDesc → ℕ → ResourceDesc)

-- A slot of the two arrays.
pub record Resource : Type 0 where
  pub desc : ResourceDesc
  pub ops : Option ResourceOps

pub record ResourceTable : Type 0 where
  pub resources : List Resource
  pub count : ℕ
  pub initialized : Bool

pub record ResourceRequest : Type 0 where
  pub type : ResourceType
  pub size : ℕ

-- `slot` is the index of the descriptor that the handle points to.
pub record ResourceHandle : Type 0 where
  pub id : ℕ
  pub slot : ℕ
  pub allocated_size : ℕ

abbrev pub no_desc : ResourceDesc
no_desc = record {
  id = 0;
  name = [];
  type = model;
  state = idle;
  capacity = 0;
  used = 0;
  private_data = 0;
}

abbrev pub no_resource : Resource
no_resource = record { desc = no_desc; ops = none }

abbrev pub no_handle : ResourceHandle
no_handle = record { id = 0; slot = 0; allocated_size = 0 }

abbrev pub max_resources : ℕ
max_resources = 256

unfoldable pub no_resources : ResourceTable
no_resources = record {
  resources = replicate max_resources no_resource;
  count = 0;
  initialized = false;
}

unfoldable pub resource_init : ResourceTable → Status × ResourceTable
resource_init t =
    if t.initialized then (failure, t) else (success, record no_resources { initialized = true })

abbrev pub names : ℕ → Resource → Bool
names id r = r.desc.id == id

-- The descriptor after the destroy callback, where there is one.
abbrev pub run_destroy : Resource → ResourceDesc
run_destroy r = elim r.ops [
  | none ↦ r.desc
  | some ops ↦ elim ops.destroy [ none ↦ r.desc | some f ↦ f r.desc ]
]

-- The address that is freed, where it is not NULL.
abbrev pub freed_data : ResourceDesc → List ℕ
freed_data d = if d.private_data == 0 then [] else d.private_data ∷ []

abbrev pub destroy_all : List Resource → List ℕ
destroy_all [] = []
destroy_all (r ∷ resources) =
    let rest = destroy_all resources in
    if r.desc.id == 0 then rest else freed_data (run_destroy r) ++ rest

-- The addresses that are freed, and the state.
unfoldable pub resource_destroy : ResourceTable → List ℕ × ResourceTable
resource_destroy t = if not t.initialized then ([], t) else (destroy_all t.resources, no_resources)

abbrev pub run_init : ResourceOps → ResourceDesc → ResourceDesc
run_init ops d = elim ops.init [ none ↦ d | some f ↦ f d ]

unfoldable pub resource_register :
    ResourceDesc → ResourceOps → ResourceTable → Status × ResourceTable
resource_register d ops t =
    if not t.initialized then (failure, t) else elim (find_slot (names 0) t.resources) [
      | none ↦ (failure, t)
      | some (i, r) ↦ (
        success,
        record t {
          resources = set t.resources i (record { desc = run_init ops d; ops = some ops });
          count = (t.count + 1) % u32_mod;
        },
      )
    ]

unfoldable pub resource_unregister : ℕ → ResourceTable → Status × (List ℕ × ResourceTable)
resource_unregister id t =
    if not t.initialized then (failure, ([], t)) else elim (find_slot (names id) t.resources) [
      | none ↦ (failure, ([], t))
      | some (i, r) ↦ (
        success,
        (
          freed_data (run_destroy r),
          record t {
            resources = set t.resources i no_resource;
            count = (t.count + u32_mod - 1) % u32_mod;
          },
        ),
      )
    ]

abbrev pub same_type : ResourceType → ResourceType → Bool
same_type model model = true
same_type tool tool = true
same_type cpu cpu = true
same_type gpu gpu = true
same_type memory memory = true
same_type network network = true
same_type a b = false

abbrev pub is_match : ResourceType → Resource → Bool
is_match type r = not (r.desc.id == 0) && same_type r.desc.type type

-- The first pass of resource_discover, after `found` matches.
unfoldable pub count_matches : ResourceType → ℕ → List Resource → ℕ
count_matches type found [] = found
count_matches type found (r ∷ resources) =
    count_matches type ((found + bit (is_match type r)) % u32_mod) resources

-- The second pass.
unfoldable pub copy_matches : ResourceType → List Resource → List ResourceDesc
copy_matches type [] = []
copy_matches type (r ∷ resources) =
    let rest = copy_matches type resources in if is_match type r then r.desc ∷ rest else rest

-- The number of matches and their descriptors, which are not given where calloc fails.
unfoldable pub resource_discover :
    Bool → ResourceType → ResourceTable → Option (ℕ × List ResourceDesc)
resource_discover calloc type t =
    if not t.initialized
    then none
    else some
        (count_matches type 0 t.resources, if calloc then copy_matches type t.resources else [])

abbrev pub is_idle : ResourceState → Bool
is_idle idle = true
is_idle s = false

-- The conditions on a resource that may serve a request.
abbrev pub may_serve : ResourceRequest → Resource → Bool
may_serve q r =
    is_match q.type r
    && is_idle r.desc.state
    && leb q.size ((r.desc.capacity + u64_mod - r.desc.used) % u64_mod)

-- Whether the allocate callback succeeds, and the descriptor after it.
abbrev pub run_allocate : Resource → ℕ → Bool × ResourceDesc
run_allocate r size = elim r.ops [
  | none ↦ (true, r.desc)
  | some ops ↦ elim ops.allocate [ none ↦ (true, r.desc) | some f ↦ f r.desc size ]
]

abbrev pub later :
    Resource → Option ResourceHandle × List Resource → Option ResourceHandle × List Resource
later r (h, resources) = (h, r ∷ resources)

-- The loop of resource_allocate from the index `i` on.
unfoldable pub allocate_from :
    ResourceRequest → ℕ → List Resource → Option ResourceHandle × List Resource
allocate_from q i [] = (none, [])
allocate_from q i (r ∷ resources) =
    let rest = allocate_from q (i + 1) resources in
    let d = (run_allocate r q.size).1 in
    if not (may_serve q r)
    then later r rest
    else if not (run_allocate r q.size).0
    then later (record r { desc = d }) rest
    else (
      some (record { id = d.id; slot = i; allocated_size = q.size }),
      record r { desc = record d { used = (d.used + q.size) % u64_mod; state = busy } } ∷ resources,
    )

abbrev with_resources :
    ResourceTable → Option ResourceHandle × List Resource → Option ResourceHandle × ResourceTable
with_resources t (h, resources) = (h, record t { resources = resources })

unfoldable pub resource_allocate :
    ResourceRequest → ResourceTable → Option ResourceHandle × ResourceTable
resource_allocate q t =
    if not t.initialized then (none, t) else with_resources t (allocate_from q 0 t.resources)

-- The descriptor after the release callback, where there is one.
abbrev pub run_release : Resource → ℕ → ResourceDesc
run_release r size = elim r.ops [
  | none ↦ r.desc
  | some ops ↦ elim ops.release [ none ↦ r.desc | some f ↦ f r.desc size ]
]

abbrev pub give_back : ResourceDesc → ℕ → ResourceDesc
give_back d size =
    let used = (d.used + u64_mod - size) % u64_mod in
    if used == 0 then record d { used = used; state = idle } else record d { used = used }

-- The handle and the state after it.
unfoldable pub resource_release :
    ResourceHandle → ResourceTable → Status × (ResourceHandle × ResourceTable)
resource_release h t =
    if not t.initialized then (failure, (h, t)) else elim (find_slot (names h.id) t.resources) [
      | none ↦ (failure, (h, t))
      | some (i, r) ↦ (
        success,
        (
          no_handle,
          record t {
            resources =
                set t.resources i
                  (record r { desc = give_back (run_release r h.allocated_size) h.allocated_size });
          },
        ),
      )
    ]

unfoldable pub resource_get_info : ℕ → ResourceTable → Option ResourceDesc
resource_get_info id t =
    if not t.initialized
    then none
    else elim (find_slot (names id) t.resources) [ none ↦ none | some (i, r) ↦ some r.desc ]
