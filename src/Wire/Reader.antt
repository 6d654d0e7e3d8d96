-- ===== src/Wire/Reader.antt =====
-- The class Reader of agent-runtime/src/control_protocol.cpp.
use agent_nucleus.Prelude.{
  ℕ, zero, suc, Bool, ◌||◌, Option, none, some, List, [], ◌∷◌, length, ltb, if◌then◌else◌, ◌>>=◌,
  Bytes,
}
use agent_nucleus.Wire.Bytes.{value, take, drop}
use agent_nucleus.Wire.Writer.{max_string_size}

-- What reads a value: from the bytes that remain, the value and the bytes that remain after it.
abbrev pub Reader {ℓ} : Type ℓ → Type ℓ
Reader A = Bytes → Option (A × Bytes)

infixr 30 ◌>>-◌
unfoldable pub ◌>>-◌ {ℓ κ} : {A : Type ℓ} {B : Type κ} → Reader A → (A → Reader B) → Reader B
(r >>- k) bs = r bs >>= λ p. k p.0 p.1

-- `return true`, with the value that was put together.
unfoldable pub give {ℓ} : {A : Type ℓ} → A → Reader A
give v bs = some (v, bs)

-- `if (!b) return false`
unfoldable pub expect {ℓ} : {A : Type ℓ} → Bool → Reader A → Reader A
expect b r bs = if b then r bs else none

unfoldable pub integer : ℕ → Reader ℕ
integer n bs = if ltb (length bs) n then none else some (value (take n bs), drop n bs)

abbrev pub u8 : Reader ℕ
u8 = integer 1

abbrev pub u16 : Reader ℕ
u16 = integer 2

abbrev pub u32 : Reader ℕ
u32 = integer 4

abbrev pub u64 : Reader ℕ
u64 = integer 8

-- `length` bytes, where the length read is allowed and there.
unfoldable pub chars : ℕ → Reader Bytes
chars n bs =
    if ltb max_string_size n || ltb (length bs) n then none else some (take n bs, drop n bs)

unfoldable pub string : Reader Bytes
string = u32 >>- chars

-- `resize(count)` and a loop of reads.
unfoldable pub repeat {ℓ} : {A : Type ℓ} → ℕ → Reader A → Reader (List A)
repeat zero r bs = some ([], bs)
repeat (suc n) r bs = r bs >>= λ p. repeat n r p.1 >>= λ q. some (p.0 ∷ q.0, q.1)
