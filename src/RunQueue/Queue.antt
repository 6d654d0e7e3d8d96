-- ===== src/RunQueue/Queue.antt =====
-- What the ready queue promises: a bounded queue of agent ids, the next one first.
use agent_nucleus.Prelude.{ℕ, ◌||◌, List, [], ◌∷◌, ◌++◌, length, leb, member, ◌==◌, if◌then◌else◌}
use agent_nucleus.Arrays.{Status, success, failure}

abbrev pub remove_first : ℕ → List ℕ → List ℕ
remove_first id [] = []
remove_first id (x ∷ xs) = let rest = remove_first id xs in if x == id then xs else x ∷ rest

-- Join at the back, where there is room.
unfoldable pub join : ℕ → ℕ → List ℕ → Status × List ℕ
join capacity id q =
    if id == 0 || leb capacity (length q) then (failure, q) else (success, q ++ (id ∷ []))

-- Leave, from the first place.
unfoldable pub depart : ℕ → List ℕ → Status × List ℕ
depart id q =
    if id == 0
    then (failure, q)
    else if member id q
    then (success, remove_first id q)
    else (failure, q)

-- Go from the first place to the front.
unfoldable pub promote : ℕ → List ℕ → Status × List ℕ
promote id q =
    if id == 0
    then (failure, q)
    else if member id q
    then (success, id ∷ remove_first id q)
    else (failure, q)

-- The next agent, 0 for none, and the others.
unfoldable pub next : List ℕ → ℕ × List ℕ
next [] = (0, [])
next (x ∷ q) = (x, q)
