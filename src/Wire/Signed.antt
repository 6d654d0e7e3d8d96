-- ===== src/Wire/Signed.antt =====
-- std::bit_cast between a signed integer and the unsigned one of the same width, with `m` = 2^w.
use agent_nucleus.Prelude.{
  ℕ, ◌-◌, ◌/◌, ◌%◌, ◌<◌, ◌^◌, ◌≡◌, arith, ltb, if◌then◌else◌, u32_mod, u64_mod,
}
use agent_nucleus.Prelude.Int.{ℤ, pos, negsuc}

abbrev pub to_bits : ℕ → ℤ → ℕ
to_bits m (pos n) = n % m
to_bits m (negsuc n) = m - 1 - n % m

abbrev pub of_bits : ℕ → ℕ → ℤ
of_bits m u = if ltb u (m / 2) then pos u else negsuc (m - 1 - u)

-- The values of the signed type.
abbrev pub IsSigned : ℕ → ℤ → Type 0
IsSigned m (pos n) = n < m / 2
IsSigned m (negsuc n) = n < m / 2

pub of_bits-to_bits_32 : (z : ℤ) → IsSigned u32_mod z → of_bits u32_mod (to_bits u32_mod z) ≡ z
of_bits-to_bits_32 (pos n) h = ground arith
of_bits-to_bits_32 (negsuc n) h = ground arith

pub of_bits-to_bits_64 : (z : ℤ) → IsSigned u64_mod z → of_bits u64_mod (to_bits u64_mod z) ≡ z
of_bits-to_bits_64 (pos n) h = ground arith
of_bits-to_bits_64 (negsuc n) h = ground arith

pub to_bits-lt_32 : (z : ℤ) → to_bits u32_mod z < 256 ^ 4
to_bits-lt_32 (pos n) = omega arith
to_bits-lt_32 (negsuc n) = omega arith

pub to_bits-lt_64 : (z : ℤ) → to_bits u64_mod z < 256 ^ 8
to_bits-lt_64 (pos n) = omega arith
to_bits-lt_64 (negsuc n) = omega arith
