-- ===== src/Wire/Inverse.antt =====
-- A reader undoes a writer: the laws from which the round trips of the messages are put together.
use agent_nucleus.Prelude.{
  ℕ, ◌-◌, ◌<◌, ◌^◌, ◌≡◌, refl, sym, ◌∙◌, ap, subst, some-inj, none≢some, Bool, true, false, ◌||◌,
  some, List, [], ◌∷◌, ◌++◌, length, length-append, All, ltb, inl, inr, Bool-cases, >>=-eq-some,
  Bytes, arith,
}
use agent_nucleus.Wire.Bytes.{
  le, take, drop, length-le, value-le, take-append, drop-append, append_assoc, append_nil,
}
use agent_nucleus.Wire.Writer
use agent_nucleus.Wire.Writer.{◌>=>◌, done, check, max_string_size, max_message_size}
use agent_nucleus.Wire.Reader
use agent_nucleus.Wire.Reader.{◌>>-◌, give, expect, chars, repeat}

-- Where `w` answers true it appended bytes from which `r` reads `v`, whatever follows them.
pub record Inverse {ℓ} {A : Type ℓ} (w : Writer.Writer) (r : Reader.Reader A) (v : A) : Type ℓ where
  pub undone :
      (out res rest : Bytes)
      → w out ≡ some res
      → (enc : Bytes) × (res ≡ out ++ enc) × (r (enc ++ rest) ≡ some (v, rest))

pub Inverse-give {ℓ} : {A : Type ℓ} (v : A) → Inverse done (give v) v
unfolding done give
Inverse-give v = record {
  undone = λ out res rest e. ([], sym (some-inj e) ∙ sym (append_nil out), refl);
}

pub Inverse-seq {ℓ κ} :
    {A : Type ℓ} {B : Type κ} {w1 w2 : Writer.Writer} {r : Reader.Reader A}
    (k : A → Reader.Reader B) (v : A) {u : B}
    → Inverse w1 r v
    → Inverse w2 (k v) u
    → Inverse (w1 >=> w2) (r >>- k) u
unfolding ◌>=>◌ ◌>>-◌
Inverse-seq {w1} {w2} {r} k v {u} first second = record {
  undone = λ out res rest e.
      let (mid, e1, e2) = >>=-eq-some (w1 out) w2 e in
      let (b, eb, rb) = second.undone mid res rest e2 in
      let (a, ea, ra) = first.undone out mid (b ++ rest) e1 in
      (a ++ b, eb ∙ ap (λ x. x ++ b) ea ∙ append_assoc out a b, rw (append_assoc a b rest, ra) rb);
}

pub Inverse-check {ℓ} :
    {A : Type ℓ} {b : Bool} {w : Writer.Writer} {r : Reader.Reader A} {v : A}
    → (b ≡ true → Inverse w r v)
    → Inverse (check b w) r v
unfolding check
Inverse-check {b} {w} {r} {v} then_inverse = record {
  undone = λ out res rest e. elim (Bool-cases b) [
    | inl holds ↦ (then_inverse holds).undone out res rest (rw holds at e)
    | inr fails ↦ absurd (none≢some (rw fails at e))
  ];
}

pub Inverse-expect {ℓ} :
    {A : Type ℓ} {b : Bool} {w : Writer.Writer} {r : Reader.Reader A} {v : A}
    → b ≡ true
    → Inverse w r v
    → Inverse w (expect b r) v
unfolding expect
Inverse-expect holds h = record {
  undone = λ out res rest e. let (enc, e1, e2) = h.undone out res rest e in (enc, e1, rw holds e2);
}

integer-append :
    (n v : ℕ) (rest : Bytes) → v < 256 ^ n → Reader.integer n (le n v ++ rest) ≡ some (v, rest)
unfolding Reader.integer
integer-append n v rest h =
    let long : ltb (length (le n v ++ rest)) n ≡ false =
      ground (arith, length-append (le n v) rest, length-le n v) in
    let taken : take n (le n v ++ rest) ≡ le n v =
      subst (λ m. take m (le n v ++ rest) ≡ le n v) (length-le n v) (take-append (le n v) rest) in
    let dropped : drop n (le n v ++ rest) ≡ rest =
      subst (λ m. drop m (le n v ++ rest) ≡ rest) (length-le n v) (drop-append (le n v) rest) in
    rw (long, taken, dropped, value-le n v h) refl

pub Inverse-integer : (n v : ℕ) → v < 256 ^ n → Inverse (Writer.integer n v) (Reader.integer n) v
unfolding Writer.integer
Inverse-integer n v h = record {
  undone = λ out res rest e. (le n v, sym (some-inj e), integer-append n v rest h);
}

chars-append :
    (v rest : Bytes)
    → ltb max_string_size (length v) ≡ false
    → chars (length v) (v ++ rest) ≡ some (v, rest)
unfolding chars
chars-append v rest short =
    let long : ltb (length (v ++ rest)) (length v) ≡ false = ground (arith, length-append v rest) in
    rw (short, long, take-append v rest, drop-append v rest) refl

-- What a string that was written obeyed.
string-some :
    (v out res : Bytes)
    → Writer.string v out ≡ some res
    → (ltb max_string_size (length v) ≡ false)
      × ((Writer.integer 4 (length v) >=> (λ o. some (o ++ v))) out ≡ some res)
unfolding Writer.string Writer.integer ◌>=>◌
string-some v out res e = elim (Bool-cases (ltb max_string_size (length v))) [
  | inl long ↦ absurd (none≢some (rw long at e))
  | inr short ↦
      elim (Bool-cases (
        ltb (max_message_size - 4) (length out)
        || ltb (max_message_size - 4 - length out) (length v))) [
          | inl full ↦ absurd (none≢some (rw (short, full) at e))
          | inr room ↦ (short, rw (short, room) at e)
        ]
]

Inverse-chars :
    (v : Bytes)
    → ltb max_string_size (length v) ≡ false
    → Inverse (λ o. some (o ++ v)) (chars (length v)) v
Inverse-chars v short = record {
  undone = λ out res rest e. (v, sym (some-inj e), chars-append v rest short);
}

pub Inverse-string : (v : Bytes) → Inverse (Writer.string v) Reader.string v
unfolding Reader.string
Inverse-string v = record {
  undone = λ out res rest e.
      let (short, e1) = string-some v out res e in
      let small : length v < 256 ^ 4 = ground arith in
      (Inverse-seq chars (length v) (Inverse-integer 4 (length v) small)
          (Inverse-chars v short)).undone
        out res rest e1;
}

pub Inverse-each {ℓ} :
    {A : Type ℓ} (w : A → Writer.Writer) (r : Reader.Reader A) (xs : List A)
    → All (λ x. Inverse (w x) r x) xs
    → Inverse (Writer.each w xs) (repeat (length xs) r) xs
unfolding Writer.each repeat
Inverse-each w r [] h = record {
  undone = λ out res rest e. ([], sym (some-inj e) ∙ sym (append_nil out), refl);
}
Inverse-each w r (x ∷ xs) h = record {
  undone = λ out res rest e.
      let (mid, e1, e2) = >>=-eq-some (w x out) (Writer.each w xs) e in
      let (b, eb, rb) = (Inverse-each w r xs h.1).undone mid res rest e2 in
      let (a, ea, ra) = h.0.undone out mid (b ++ rest) e1 in
      (
        a ++ b,
        eb ∙ ap (λ t. t ++ b) ea ∙ append_assoc out a b,
        rw (append_assoc a b rest, ra, rb) refl,
      );
}
