-- ===== src/Wire/Ensures.antt =====
-- What holds of every value that a reader accepts, whatever bytes it is given.
use agent_nucleus.Prelude.{
  ℕ, zero, suc, ◌≡◌, refl, sym, ◌∙◌, ap, subst, some-inj, none≢some, Bool, true, some, length, All,
  inl, inr, Bool-cases, >>=-eq-some, Bytes,
}
use agent_nucleus.Wire.Reader.{Reader, ◌>>-◌, give, expect, repeat}

pub record Ensures {ℓ κ} {A : Type ℓ} (r : Reader A) (P : A → Type κ) : Type (ℓ ⊔ κ) where
  pub holds : (bs rest : Bytes) (v : A) → r bs ≡ some (v, rest) → P v

module _ {ℓ κ} {A : Type ℓ} (P : A → Type κ) where
  pub Ensures-give : {v : A} → P v → Ensures (give v) P
  unfolding give
  Ensures-give {v} h = record { holds = λ bs rest u e. subst P (ap (λ p. p.0) (some-inj e)) h }

  pub Ensures-expect : {b : Bool} {r : Reader A} → (b ≡ true → Ensures r P) → Ensures (expect b r) P
  unfolding expect
  Ensures-expect {b} {r} h = record {
    holds = λ bs rest v e. elim (Bool-cases b) [
      | inl passed ↦ (h passed).holds bs rest v (rw passed at e)
      | inr failed ↦ absurd (none≢some (rw failed at e))
    ];
  }

  -- What is known of the first value may be used for the second.
  pub Ensures-seq {ℓ₂ κ₂} :
      {B : Type ℓ₂} {r : Reader B} {k : B → Reader A} (Q : B → Type κ₂)
      → Ensures r Q
      → ((b : B) → Q b → Ensures (k b) P)
      → Ensures (r >>- k) P
  unfolding ◌>>-◌
  Ensures-seq {r} {k} Q first second = record {
    holds = λ bs rest v e.
        let (p, e1, e2) = >>=-eq-some (r bs) (λ q. k q.0 q.1) e in
        (second p.0 (first.holds bs p.1 p.0 e1)).holds p.1 rest v e2;
  }

  pub Ensures-then {ℓ₂} :
      {B : Type ℓ₂} (r : Reader B) {k : B → Reader A}
      → ((b : B) → Ensures (k b) P)
      → Ensures (r >>- k) P
  unfolding ◌>>-◌
  Ensures-then r {k} second = record {
    holds = λ bs rest v e.
        let (p, e1, e2) = >>=-eq-some (r bs) (λ q. k q.0 q.1) e in (second p.0).holds p.1 rest v e2;
  }

pub repeat-length {ℓ} :
    {A : Type ℓ} (n : ℕ) (r : Reader A) → Ensures (repeat n r) (λ xs. length xs ≡ n)
unfolding repeat
repeat-length zero r = record { holds = λ bs rest v e. ap (λ p. length p.0) (sym (some-inj e)) }
repeat-length (suc n) r = record {
  holds = λ bs rest v e.
      let (p, e1, e2) = >>=-eq-some (r bs) _ e in
      let (q, e3, e4) = >>=-eq-some (repeat n r p.1) _ e2 in
      ap (λ x. length x.0) (sym (some-inj e4)) ∙ ap suc ((repeat-length n r).holds p.1 q.1 q.0 e3);
}

-- The values of a loop are as many as asked for, and each is as one read ensures.
pub repeat-All {ℓ κ} :
    {A : Type ℓ} (n : ℕ) (r : Reader A) (P : A → Type κ)
    → Ensures r P
    → Ensures (repeat n r) (λ xs. (length xs ≡ n) × All P xs)
unfolding repeat
repeat-All zero r P h = record {
  holds = λ bs rest v e.
      subst (λ xs. (length xs ≡ 0) × All P xs) (ap (λ p. p.0) (some-inj e)) (refl, tt);
}
repeat-All (suc n) r P h = record {
  holds = λ bs rest v e.
      let (p, e1, e2) = >>=-eq-some (r bs) _ e in
      let (q, e3, e4) = >>=-eq-some (repeat n r p.1) _ e2 in
      let (len, each) = (repeat-All n r P h).holds p.1 q.1 q.0 e3 in
      subst (λ xs. (length xs ≡ suc n) × All P xs) (ap (λ x. x.0) (some-inj e4))
        (ap suc len, (h.holds bs p.1 p.0 e1, each));
}
