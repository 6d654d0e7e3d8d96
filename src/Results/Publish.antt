-- ===== src/Results/Publish.antt =====
-- What AgentResultStore of agent-runtime/src/shared_memory.cpp publishes can be sent and received.
use agent_nucleus.Prelude.{
  ℕ, ◌≤◌, ◌<◌, ◌≡◌, ◌≢◌, refl, ◌∙◌, Bool, true, false, not, ◌||◌, some, ltb, ◌==◌, ==_refl,
  if◌then◌else◌, arith,
}
use agent_nucleus.Table.{lookup}
use agent_nucleus.Results.Region.{
  SharedMemoryRegion, max_offset, ResizeCalls, SealCalls, is_valid, resize, seal_read_only,
}
use agent_nucleus.Results.Store.{
  StoredResult, ResultStore, reference_to, retained_size, retain, assign, publish, may_send,
  may_receive,
}

-- A property of both branches.
branch :
    {A : Type 0} (P : A → Type 0) (b : Bool) (x y : A)
    → (b ≡ true → P x)
    → (b ≡ false → P y)
    → P (if b then x else y)
branch P true x y f g = f refl
branch P false x y f g = g refl

-- A region after a resize that succeeds.
abbrev IsResized : SharedMemoryRegion → ℕ → Bool × SharedMemoryRegion → Type 0
IsResized region size (false, r) = Unit {0}
IsResized region size (true, r) = (r.size ≡ size) × (r.region_id ≡ region.region_id)

resized :
    (b : Bool) (region r : SharedMemoryRegion) (size : ℕ)
    → r.size ≡ size
    → r.region_id ≡ region.region_id
    → IsResized region size (b, r)
resized true region r size e f = (e, f)
resized false region r size e f = tt

resize-IsResized :
    (calls : ResizeCalls) (size : ℕ) (region : SharedMemoryRegion)
    → IsResized region size (resize calls size region)
unfolding resize
resize-IsResized calls size region =
    let P = IsResized region size in
    let unmapped = record region { mapped = calls.restore } in
    let done = record region { size = size; mapped = calls.map } in
    let truncating : Bool × SharedMemoryRegion =
      if not calls.truncate then (false, unmapped) else (calls.map, done) in
    let unmapping : Bool × SharedMemoryRegion =
      if not calls.unmap then (false, region) else truncating in
    branch P (not (is_valid region) || region.read_only || (size == 0 || ltb max_offset size))
      (false, region) (if size == region.size then (true, region) else unmapping) (λ e. tt)
      (λ e.
        branch P (size == region.size) (true, region) unmapping (λ same. (ground arith, refl))
          (λ d.
            branch P (not calls.unmap) (false, region) truncating (λ u. tt)
              (λ u.
                branch P (not calls.truncate) (false, unmapped) (calls.map, done) (λ t. tt)
                  (λ t. resized calls.map region done size refl refl))))

-- A region as publish keeps it: mapped for reading only, with its id and its size.
abbrev pub IsKept : SharedMemoryRegion → ℕ → Bool × SharedMemoryRegion → Type 0
IsKept region size (false, kept) = Unit {0}
IsKept region size (true, kept) =
    ((kept.mapped ≡ true) × (kept.read_only ≡ true))
    × ((kept.size ≡ size) × (kept.region_id ≡ region.region_id))

seal_read_only-IsKept :
    (calls : SealCalls) (region : SharedMemoryRegion)
    → IsKept region region.size (seal_read_only calls region)
unfolding seal_read_only
seal_read_only-IsKept calls region =
    let P = IsKept region region.size in
    let unmapped = record region { mapped = false } in
    let done = record region { mapped = true; read_only = true } in
    let mapping : Bool × SharedMemoryRegion =
      if not calls.map then (false, unmapped) else (true, done) in
    let sealing : Bool × SharedMemoryRegion =
      if not calls.seal then (false, unmapped) else mapping in
    branch P (not (is_valid region) || region.read_only) (false, region)
      (if not calls.unmap then (false, region) else sealing) (λ e. tt)
      (λ e.
        branch P (not calls.unmap) (false, region) sealing (λ u. tt)
          (λ u.
            branch P (not calls.seal) (false, unmapped) mapping (λ s. tt)
              (λ s.
                branch P (not calls.map) (false, unmapped) (true, done) (λ m. tt)
                  (λ m. ((refl, refl), (refl, refl))))))

IsKept-after :
    (region r : SharedMemoryRegion) (size : ℕ) (x : Bool × SharedMemoryRegion)
    → r.size ≡ size
    → r.region_id ≡ region.region_id
    → IsKept r r.size x
    → IsKept region size x
IsKept-after region r size (false, kept) e f k = tt
IsKept-after region r size (true, kept) e f (modes, (s, i)) = (modes, (s ∙ e, i ∙ f))

sealed :
    (sealing : SealCalls) (region : SharedMemoryRegion) (size : ℕ) (x : Bool × SharedMemoryRegion)
    → IsResized region size x
    → IsKept region size (if not x.0 then (false, x.1) else seal_read_only sealing x.1)
sealed sealing region size (false, r) h = tt
sealed sealing region size (true, r) (e, f) =
    IsKept-after region r size (seal_read_only sealing r) e f (seal_read_only-IsKept sealing r)

IsKept-retain :
    (resizing : ResizeCalls) (sealing : SealCalls) (len : ℕ) (region : SharedMemoryRegion)
    → IsKept region (retained_size len) (retain resizing sealing len region)
unfolding retain
IsKept-retain resizing sealing len region =
    sealed sealing region (retained_size len)
      (if retained_size len == region.size
        then (true, region)
        else resize resizing (retained_size len) region)
      (branch (IsResized region (retained_size len)) (retained_size len == region.size)
        (true, region) (resize resizing (retained_size len) region) (λ same. (ground arith, refl))
        (λ other. resize-IsResized resizing (retained_size len) region))

-- What publish leaves: the other results are as they were where it fails; where it succeeds, the
-- result is there, in a region that is mapped for reading only, and its reference passes the tests
-- of send and of receive.
abbrev pub IsPublished : ℕ → ℕ → ResultStore → Bool × ResultStore → Type 0
IsPublished id len before (false, after) = after ≡ before
IsPublished id len before (true, after) =
    (result : StoredResult) × ((lookup id after ≡ some result)
      × (((result.region.read_only ≡ true) × (result.reference.len ≡ len))
          × ((may_send result.reference ≡ true) × (may_receive result.reference ≡ true))))

-- A published result can be sent and received: publish of a region with an id puts a reference in the
-- store that lies in the region, and a publish that fails changes nothing.
pub publish-IsPublished :
    (resizing : ResizeCalls) (sealing : SealCalls) (id : ℕ) (region : SharedMemoryRegion)
    (len data_type flags : ℕ) (results : ResultStore)
    → region.region_id ≢ 0
    → IsPublished id len results (publish resizing sealing id region len data_type flags results)
unfolding publish lookup
publish-IsPublished resizing sealing id region len data_type flags results some_id =
    let P = IsPublished id len results in
    let kept = retain resizing sealing len region in
    let answer : Bool × ResultStore = (
      true,
      assign id (record { region = kept.1; reference = reference_to kept.1 len data_type flags })
          results,
    ) in
    branch P (id == 0 || not (is_valid region) || ltb region.size len) (false, results)
      (if not kept.0 then (false, results) else answer) (λ e. refl)
      (λ e. stored kept (IsKept-retain resizing sealing len region))
  where
    stored :
        (kept : Bool × SharedMemoryRegion)
        → IsKept region (retained_size len) kept
        → IsPublished id len results (
            if not kept.0 then (false, results) else (
              true,
              assign id
                  (record { region = kept.1; reference = reference_to kept.1 len data_type flags })
                  results,
            ))
    stored (false, r) k = refl
    stored (true, r) (modes, (size, same_id)) =
        let known : r.region_id ≢ 0 = ground arith in
        let some_size : 0 < r.size = ground arith in
        let room : len ≤ r.size = ground arith in
        let result : StoredResult = record {
          region = r;
          reference = reference_to r len data_type flags;
        } in
        let sends : may_send (reference_to r len data_type flags) ≡ true = ground arith in
        let receives : may_receive (reference_to r len data_type flags) ≡ true = ground arith in
        (result, (rw (==_refl id) refl, ((modes.1, refl), (sends, receives))))
