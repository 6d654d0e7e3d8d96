-- ===== src/Resources/Discover.antt =====
-- resource_discover of agent_runtime_top/src/resource.c copies as many descriptors as it counts.
use agent_nucleus.Prelude.{
  ℕ, ◌+◌, ◌%◌, ◌<◌, ◌≡◌, ◌≢◌, refl, ◌∙◌, ap, Bool, true, false, not, Option, none, some, List, [],
  ◌∷◌, length, if◌then◌else◌, inl, inr, Bool-cases, All, arith, u32_mod,
}
use agent_nucleus.Resources.State.{
  Resource, ResourceDesc, ResourceTable, ResourceType, is_match, count_matches, copy_matches,
  resource_discover, same_type,
}

count_matches-copy :
    (type : ResourceType) (found : ℕ) (resources : List Resource)
    → found + length resources < u32_mod
    → count_matches type found resources ≡ found + length (copy_matches type resources)
unfolding count_matches copy_matches
count_matches-copy type found [] fits = omega arith
count_matches-copy type found (r ∷ resources) fits = elim (Bool-cases (is_match type r)) [
  | inl matches ↦
      let next : (found + 1) % u32_mod ≡ found + 1 = omega arith in
      rw matches (
        ap (λ n. count_matches type n resources) next
        ∙ count_matches-copy type (found + 1) resources (omega arith)
        ∙ omega arith)
  | inr other ↦
      let same : (found + 0) % u32_mod ≡ found = omega arith in
      rw other (
        ap (λ n. count_matches type n resources) same
        ∙ count_matches-copy type found resources (omega arith))
]

-- The count is the number of descriptors, which all have an id and the type; or there are none,
-- since calloc failed.
abbrev pub IsTally : Bool → ResourceType → Option (ℕ × List ResourceDesc) → Type 0
IsTally calloc type none = Unit {0}
IsTally true type (some (n, descs)) =
    (n ≡ length descs) × All (λ d. (d.id ≢ 0) × (same_type d.type type ≡ true)) descs
IsTally false type (some (n, descs)) = descs ≡ []

copy_matches-All :
    (type : ResourceType) (resources : List Resource)
    → All (λ d. (d.id ≢ 0) × (same_type d.type type ≡ true)) (copy_matches type resources)
unfolding copy_matches
copy_matches-All type [] = tt
copy_matches-All type (r ∷ resources) = elim (Bool-cases (is_match type r)) [
  | inl matches ↦ rw matches ((ground arith, ground arith), copy_matches-All type resources)
  | inr other ↦ rw other (copy_matches-All type resources)
]

answer-IsTally :
    (on calloc : Bool) (type : ResourceType) (resources : List Resource)
    → length resources < u32_mod
    → IsTally calloc type (
        if not on
        then none
        else some
            (count_matches type 0 resources, if calloc then copy_matches type resources else []))
answer-IsTally false calloc type resources fits = tt
answer-IsTally true true type resources fits = (
  count_matches-copy type 0 resources (omega arith) ∙ omega arith,
  copy_matches-All type resources,
)
answer-IsTally true false type resources fits = refl

-- resource_discover fills exactly the array that it allocates, with descriptors of the type.
pub resource_discover-IsTally :
    (calloc : Bool) (type : ResourceType) (t : ResourceTable)
    → length t.resources < u32_mod
    → IsTally calloc type (resource_discover calloc type t)
unfolding resource_discover
resource_discover-IsTally calloc type t fits =
    answer-IsTally t.initialized calloc type t.resources fits
