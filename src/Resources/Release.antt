-- ===== src/Resources/Release.antt =====
-- resource_release of agent_runtime_top/src/resource.c undoes resource_allocate.
use agent_nucleus.Prelude.{
  ◌≡◌, ◌≢◌, sym, ◌∙◌, ap, subst, true, not, Option, none, some, List, All, if◌then◌else◌, inl, inr,
  Option-cases,
}
use agent_nucleus.Arrays.{success}
use agent_nucleus.Resources.State.{
  Resource, ResourceTable, ResourceRequest, ResourceHandle, no_handle, allocate_from,
  resource_allocate, resource_release,
}
use agent_nucleus.Resources.Accounts.{
  IsOrderly, IsApart, tried, put_back, found, Returned, allocate_from-Returned,
}

-- The table with its resources as the request leaves them.
abbrev pub asked : ResourceRequest → ResourceTable → ResourceTable
asked q t = record t { resources = tried q t.resources }

-- A refusal leaves no more than the refusing callbacks did, and a handle can be released: that gives
-- the same and clears the handle.
abbrev pub Undoes : ResourceRequest → ResourceTable → Option ResourceHandle × ResourceTable → Type 0
Undoes q t (none, u) = u ≡ asked q t
Undoes q t (some h, u) = resource_release h u ≡ (success, (no_handle, asked q t))

release-back :
    (t : ResourceTable) (h : ResourceHandle) (after before : List Resource)
    → t.initialized ≡ true
    → found h after ≢ none
    → put_back h after (found h after) ≡ before
    → resource_release h (record t { resources = after })
      ≡ (success, (no_handle, record t { resources = before }))
unfolding resource_release
release-back t h after before on there back = elim (Option-cases (found h after)) [
  | inl nowhere ↦ absurd (there nowhere)
  | inr ((i, r), e) ↦
      let released : resource_release h (record t { resources = after })
          ≡ (success, (no_handle, record t { resources = put_back h after (some (i, r)) })) =
        simp (on, e) in
      released
      ∙ ap (λ resources. (success, (no_handle, record t { resources = resources })))
          (ap (put_back h after) (sym e) ∙ back)
]

Returned-Undoes :
    (q : ResourceRequest) (t : ResourceTable) (x : Option ResourceHandle × List Resource)
    → t.initialized ≡ true
    → Returned q t.resources x
    → Undoes q t (x.0, record t { resources = x.1 })
Returned-Undoes q t (none, after) on same =
    ap (λ resources. record t { resources = resources }) same
Returned-Undoes q t (some h, after) on (known, (there, back)) =
    release-back t h after (tried q t.resources) on there back

-- Where the table is initialised, no two resources have the same id, each uses at most its capacity
-- and none while it is idle, no allocate callback changes an id, and each release callback gives back
-- what an allocate callback that succeeded has taken: a request that is refused leaves the table as
-- it was but for what the callbacks that were asked, and refused, have written to their descriptors;
-- and one that gives a handle is undone by resource_release of that handle, which leaves the table as
-- it was but for the same.
pub resource_allocate-release :
    (q : ResourceRequest) (t : ResourceTable)
    → t.initialized ≡ true
    → All IsOrderly t.resources
    → IsApart t.resources
    → Undoes q t (resource_allocate q t)
unfolding resource_allocate
resource_allocate-release q t on orderly apart =
    let x = allocate_from q 0 t.resources in
    let e : resource_allocate q t ≡ (x.0, record t { resources = x.1 }) =
      ap (λ b. if not b then (none, t) else (x.0, record t { resources = x.1 })) on in
    subst (Undoes q t) (sym e)
      (Returned-Undoes q t x on (allocate_from-Returned q 0 t.resources orderly apart))
