-- ===== src/Runtime/Outputs.antt =====
-- What execute of agent-runtime/src/runtime.cpp does to the stored results.
use agent_nucleus.Prelude.{
  ℕ, ◌≤◌, ◌≡◌, refl, sym, subst, ◌∙◌, false, not, ◌||◌, Option, none, some, [], ◌∷◌, ◌==◌, ==_refl,
  ltb, ◌⊎◌, some-inj, none≢some, inl, inr, Bool-cases, Bytes, arith,
}
use agent_nucleus.Table.{lookup, erase, erase-missing}
use agent_nucleus.Types.{AgentSnapshot}
use agent_nucleus.Results.Region.{SharedMemoryRegion, is_valid}
use agent_nucleus.Results.Store.{StoredResult, ResultStore, publish, retain, reference_to}
use agent_nucleus.Runtime.State.{RuntimeConfig, AgentRuntime, World}
use agent_nucleus.Runtime.Command.{cut_length}
use agent_nucleus.Runtime.Execute.{execute}
use agent_nucleus.Runtime.Kept.{KeptBy, execute-kept}

-- Every agent has at most one result.
abbrev pub IsDistinct : ResultStore → Type 0
IsDistinct [] = Unit {0}
IsDistinct ((k, r) ∷ t) = (lookup k t ≡ none) × IsDistinct t

erase-IsDistinct : (k : ℕ) (t : ResultStore) → IsDistinct t → IsDistinct (erase k t)
unfolding erase
erase-IsDistinct k [] h = tt
erase-IsDistinct k ((j, r) ∷ t) (fresh, h) = elim (Bool-cases (j == k)) [
  | inl hit ↦ rw hit h
  | inr miss ↦ rw miss (erase-missing j k t fresh, erase-IsDistinct k t h)
]

lookup-erase_self : (k : ℕ) (t : ResultStore) → IsDistinct t → lookup k (erase k t) ≡ none
unfolding lookup erase
lookup-erase_self k [] h = refl
lookup-erase_self k ((j, r) ∷ t) (fresh, h) = elim (Bool-cases (j == k)) [
  | inl hit ↦ let same : j ≡ k = ground arith in rw hit (subst (λ i. lookup i t ≡ none) same fresh)
  | inr miss ↦ rw miss (rw miss (lookup-erase_self k t h))
]

lookup-erase : (j k : ℕ) (t : ResultStore) → (k == j) ≡ false → lookup j (erase k t) ≡ lookup j t
unfolding lookup erase
lookup-erase j k [] other = refl
lookup-erase j k ((i, r) ∷ t) other = ground (arith, lookup-erase j k t other)

-- No more than the configured limit, where there is one.
abbrev pub IsWithin : RuntimeConfig → ℕ → Type 0
IsWithin config len =
    (ltb 0 config.max_agent_output_bytes ≡ false) ⊎ (len ≤ config.max_agent_output_bytes)

-- The results after an execution of the agent `id`, against those before.
pub record IsStored (config : RuntimeConfig) (id : ℕ) (before after : ResultStore) : Type 0 where
  pub distinct : IsDistinct after
  pub others_same : (j : ℕ) → (id == j) ≡ false → lookup j after ≡ lookup j before
  pub own : (r : StoredResult) → lookup id after ≡ some r → IsWithin config r.reference.len

IsStored-published :
    (config : RuntimeConfig) (w : World) (id : ℕ) (before : ResultStore)
    (region : SharedMemoryRegion) (len data_type flags : ℕ) (results : ResultStore)
    → IsWithin config len
    → IsStored config id before results
    → IsStored config id before
        (publish w.resizing w.sealing id region len data_type flags results).1
unfolding publish lookup
IsStored-published config w id before region len data_type flags results small h =
    let kept = retain w.resizing w.sealing len region in
    let r : StoredResult = record {
      region = kept.1;
      reference = reference_to kept.1 len data_type flags;
    } in
    let stored : IsStored config id before ((id, r) ∷ erase id results) = record {
      distinct = (lookup-erase_self id results h.distinct, erase-IsDistinct id results h.distinct);
      others_same = λ j other. rw other (lookup-erase j id results other ∙ h.others_same j other);
      own = λ x found.
          let same : r ≡ x = some-inj (rw (==_refl id) at found) in
          subst (λ y. IsWithin config y.reference.len) same small;
    } in
    elim (Bool-cases (id == 0 || not (is_valid region) || ltb region.size len)) [
      | inl refused ↦ rw refused h
      | inr fine ↦ elim (Bool-cases kept.0) [
        | inl done ↦ rw (fine, done) stored
        | inr failed ↦ rw (fine, failed) h
      ]
    ]

IsWithin-cut : (config : RuntimeConfig) (len : ℕ) → IsWithin config (cut_length config len)
IsWithin-cut config len = elim (Bool-cases (ltb 0 config.max_agent_output_bytes)) [
  | inl limited ↦ inr (ground arith)
  | inr free ↦ inl free
]

-- Where no agent has two results, an execution leaves it so, and the results of other agents as they
-- were; and what is stored for the agent afterwards, if anything is, has at most
-- `max_agent_output_bytes` bytes where that is not 0, given that a process reports no more than that
-- as its output, which is the size of the buffer that it gets.
pub execute-IsStored :
    (config : RuntimeConfig) (w : World) (snapshot : AgentSnapshot) (rt : AgentRuntime)
    → ((answer : Option Bytes) → (w.run answer).output_bytes ≤ config.max_agent_output_bytes)
    → IsDistinct rt.result_store
    → IsStored config snapshot.spec.id rt.result_store (execute config w snapshot rt).0.result_store
execute-IsStored config w snapshot rt buffer h =
    let id = snapshot.spec.id in
    let Q : AgentRuntime → Type 0 = λ u. IsStored config id rt.result_store u.result_store in
    let kept : KeptBy config w id (IsWithin config) Q = record {
      running = λ p u q. q;
      metrics = λ x u q. q;
      process = λ p u q. q;
      context = λ c u q. q;
      others = λ u q. q;
      published = λ region len data_type flags u small q.
          IsStored-published config w id rt.result_store region len data_type flags u.result_store
            small q;
      cut = IsWithin-cut config;
      ran = λ answer. inr (buffer answer);
    } in
    execute-kept config w snapshot (IsWithin config) Q kept rt (record {
      distinct = erase-IsDistinct id rt.result_store h;
      others_same = λ j other. lookup-erase j id rt.result_store other;
      own = λ r found. absurd (none≢some (sym (lookup-erase_self id rt.result_store h) ∙ found));
    })
