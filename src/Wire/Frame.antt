-- ===== src/Wire/Frame.antt =====
-- The frame of a message: the header of 12 bytes that both protocols have, whose last four bytes
-- finish_message fills in (agent-runtime/src/control_protocol.cpp and invocation_protocol.cpp).
use agent_nucleus.Prelude.{
  ℕ, ◌-◌, ◌≤◌, ◌<◌, ◌^◌, ◌≡◌, refl, sym, ◌∙◌, ap, subst, some-inj, none≢some, false, ◌||◌, Option,
  none, some, [], ◌++◌, length, length-append, ltb, ◌==◌, ==_refl, if◌then◌else◌, ◌>>=◌,
  >>=-eq-some, Bytes, arith, inl, inr, Bool-cases,
}
use agent_nucleus.Wire.Bytes.{le, take, drop, append_nil}
use agent_nucleus.Wire.Writer
use agent_nucleus.Wire.Writer.{Writer, ◌>=>◌, done, max_message_size}
use agent_nucleus.Wire.Reader.{Reader, ◌>>-◌, give}
use agent_nucleus.Wire.Inverse.{Inverse}
use agent_nucleus.Wire.Ensures.{Ensures, Ensures-give, Ensures-seq, Ensures-then}

abbrev pub header_size : ℕ
header_size = 12

-- The calls of encode_header; the last argument is 0 there.
unfoldable pub write_header : ℕ → ℕ → ℕ → ℕ → Writer
write_header magic version code payload_size =
    Writer.u32 magic >=> Writer.u16 version >=> Writer.u16 code >=> Writer.u32 payload_size >=> done

-- The loop writes the payload size over the bytes 8 to 11.
unfoldable pub finish_message : Bytes → Option Bytes
finish_message out =
    if ltb max_message_size (length out) || ltb (length out) header_size
    then none
    else some (take 8 out ++ (le 4 (length out - header_size) ++ drop 12 out))

-- `remaining() == n`
unfoldable pub expect_remaining {ℓ} : {A : Type ℓ} → ℕ → Reader A → Reader A
expect_remaining n r bs = if n == length bs then r bs else none

-- A decoder on a whole buffer: the header, which gives the payload size, and the body. The body
-- takes what the header tells it, and leaves nothing over.
unfoldable pub decode_message {ℓ κ} :
    {H : Type κ} {A : Type ℓ} → Reader (H × ℕ) → (H → Reader A) → Bytes → Option A
decode_message header body data_bytes =
    if ltb max_message_size (length data_bytes)
    then none
    else (header >>- λ h. expect_remaining h.1 (body h.0 >>- λ v. expect_remaining 0 (give v)))
        data_bytes
      >>= λ p. some p.0

-- The header with its payload size.
abbrev header : ℕ → ℕ → ℕ → ℕ → Bytes
header magic version code n = le 4 magic ++ (le 2 version ++ (le 2 code ++ le 4 n))

module _ (magic version code : ℕ) where
  write_header-eq :
      (n : ℕ) → write_header magic version code n [] ≡ some (header magic version code n)
  unfolding ◌>=>◌ done Writer.integer write_header
  write_header-eq n = refl

  -- What finish_message leaves of a message: the header has the size of the rest.
  finish_message-eq :
      (enc bytes : Bytes)
      → finish_message (header magic version code 0 ++ enc) ≡ some bytes
      → (bytes ≡ header magic version code (length enc) ++ enc) × (length bytes ≤ max_message_size)
  unfolding finish_message
  finish_message-eq enc bytes e =
      elim (Bool-cases (
        ltb max_message_size (length (header magic version code 0 ++ enc))
        || ltb (length (header magic version code 0 ++ enc)) header_size)) [
          | inl bad ↦ absurd (none≢some (rw bad at e))
          | inr good ↦
              let size : length (header magic version code 0 ++ enc) - header_size ≡ length enc =
                omega arith in
              let same : bytes ≡ header magic version code (length enc) ++ enc =
                sym (some-inj (rw good at e)) ∙ ap (λ n. header magic version code n ++ enc) size in
              (same, rw same (ground arith))
        ]

  -- A message whose header and body are undone by readers is undone by decode_message.
  pub decode_message-encoded {ℓ κ} :
      {H : Type κ} {A : Type ℓ} (read : Reader (H × ℕ)) (h : H)
      → ((n : ℕ)
          → n < 256 ^ 4
          → Inverse {A = H × ℕ} (write_header magic version code n) read (h, n))
      → (w : Writer) (body : H → Reader A) (v : A) (bytes : Bytes) → Inverse w (body h) v
      → ((write_header magic version code 0 >=> w) [] >>= finish_message) ≡ some bytes
      → decode_message read body bytes ≡ some v
  unfolding ◌>=>◌ decode_message ◌>>-◌ expect_remaining give
  decode_message-encoded read h undo w body v bytes inverse e =
      let (out, e1, e2) =
        >>=-eq-some (write_header magic version code 0 [] >>= w) finish_message e in
      let e3 : w (header magic version code 0) ≡ some out = rw (write_header-eq 0) at e1 in
      let (enc, grown, back) = inverse.undone (header magic version code 0) out [] e3 in
      let (same, small) = finish_message-eq enc bytes (rw grown at e2) in
      let fits : length enc < 256 ^ 4 =
        ground (arith, length-append (header magic version code (length enc)) enc, same) in
      let (enc_header, whole, known) =
        (undo (length enc) fits).undone [] (header magic version code (length enc)) enc
          (write_header-eq (length enc)) in
      let known_header : read (header magic version code (length enc) ++ enc)
          ≡ some ((h, length enc), enc) =
        subst (λ b. read (b ++ enc) ≡ some ((h, length enc), enc)) (sym whole) known in
      let short : ltb max_message_size (length bytes) ≡ false = ground arith in
      let answer : body h enc ≡ some (v, []) = rw (append_nil enc) at back in
      rw (short, same, known_header, ==_refl, answer) refl

remaining-Ensures {ℓ κ} :
    {A : Type ℓ} (P : A → Type κ) (n : ℕ) (r : Reader A)
    → Ensures r P
    → Ensures (expect_remaining n r) P
unfolding expect_remaining
remaining-Ensures P n r h = record {
  holds = λ bs rest v e. elim (Bool-cases (n == length bs)) [
    | inl passed ↦ h.holds bs rest v (rw passed at e)
    | inr failed ↦ absurd (none≢some (rw failed at e))
  ];
}

-- What the body of an accepted message ensures.
pub decode_message-Ensures {ℓ κ μ} :
    {H : Type μ} {A : Type ℓ} (P : A → Type κ) (read : Reader (H × ℕ)) (body : H → Reader A)
    (bytes : Bytes) (v : A)
    → ((o : H) → Ensures (body o) P)
    → decode_message read body bytes ≡ some v
    → P v
unfolding decode_message
decode_message-Ensures P read body bytes v h e =
    elim (Bool-cases (ltb max_message_size (length bytes))) [
      | inl long ↦ absurd (none≢some (rw long at e))
      | inr short ↦
          let (p, e1, e2) = >>=-eq-some _ (λ q. some q.0) (rw short at e) in
          subst P (some-inj e2) (
            (Ensures-then P read (λ header. remaining-Ensures P header.1 _ (
                Ensures-seq P P (h header.0)
                  (λ u good. remaining-Ensures P 0 (give u) (Ensures-give P good))))).holds
              bytes p.1 p.0 e1)
    ]
