-- ===== src/Wire/Writer.antt =====
-- The class Writer of agent-runtime/src/control_protocol.cpp.
use agent_nucleus.Prelude.{
  ℕ, ◌-◌, ◌*◌, Bool, ◌||◌, Option, none, some, List, [], ◌∷◌, ◌++◌, length, ltb, if◌then◌else◌,
  ◌>>=◌, Bytes,
}
use agent_nucleus.Wire.Bytes.{le}

abbrev pub max_string_size : ℕ
max_string_size = 256 * 1024

-- kMaxControlMessageSize, and kMaxInvocationMessageSize.
abbrev pub max_message_size : ℕ
max_message_size = 1024 * 1024

-- What writes to the message: `none` is the answer false.
abbrev pub Writer : Type 0
Writer = Bytes → Option Bytes

infixr 30 ◌>=>◌
-- One call after the other, the second only where the first answers true.
unfoldable pub ◌>=>◌ : Writer → Writer → Writer
(v >=> w) out = v out >>= w

-- `return true`
unfoldable pub done : Writer
done out = some out

-- `if (!b) return false`
unfoldable pub check : Bool → Writer → Writer
check b w out = if b then w out else none

unfoldable pub integer : ℕ → ℕ → Writer
integer n v out = some (out ++ le n v)

abbrev pub u8 : ℕ → Writer
u8 = integer 1

abbrev pub u16 : ℕ → Writer
u16 = integer 2

abbrev pub u32 : ℕ → Writer
u32 = integer 4

abbrev pub u64 : ℕ → Writer
u64 = integer 8

unfoldable pub string : Bytes → Writer
string v out =
    if ltb max_string_size (length v)
    then none
    else if ltb (max_message_size - 4) (length out)
        || ltb (max_message_size - 4 - length out) (length v)
    then none
    else some ((out ++ le 4 (length v)) ++ v)

-- A loop of writes.
unfoldable pub each {ℓ} : {A : Type ℓ} → (A → Writer) → List A → Writer
each w [] out = some out
each w (x ∷ xs) out = w x out >>= each w xs
