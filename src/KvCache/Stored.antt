-- ===== src/KvCache/Stored.antt =====
-- What the blocks of a range hold, one after the other, for kv_read and kv_write of
-- agent_runtime_top/src/kv_cache.c.
use agent_nucleus.Prelude.{
  ℕ, zero, suc, ◌+◌, ◌-◌, ◌≤◌, ◌<◌, ◌≡◌, refl, sym, ◌∙◌, ap, List, [], ◌∷◌, ◌++◌, length, inl, inr,
  ◌⊎◌, arith, Bytes,
}
use mathlib.Core.Path.{ap₂}
use agent_nucleus.Arrays.{set, get_or-set_ne}
use agent_nucleus.KvCache.State.{Block, no_block, block_at}
use agent_nucleus.KvCache.Access.{first_bytes, bytes_after}
use agent_nucleus.KvCache.Copy.{length-first_bytes}

abbrev pub stored : ℕ → ℕ → List Block → Bytes
stored k zero blocks = []
stored k (suc n) blocks = (block_at blocks k).content ++ stored (k + 1) n blocks

pub stored-set :
    (k j n : ℕ) (b : Block) (blocks : List Block)
    → k < j
    → stored j n (set blocks k b) ≡ stored j n blocks
stored-set k j zero b blocks h = refl
stored-set k j (suc n) b blocks h =
    ap₂ ◌++◌ (ap (λ x. x.content) (get_or-set_ne blocks k j b no_block (λ e. omega arith)))
      (stored-set k (j + 1) n b blocks (omega arith))

-- All of a short string.
pub first_bytes-all : (n : ℕ) (s : Bytes) → length s ≤ n → first_bytes n s ≡ s
first_bytes-all zero [] h = refl
first_bytes-all zero (x ∷ s) h = absurd (omega arith)
first_bytes-all (suc n) [] h = refl
first_bytes-all (suc n) (x ∷ s) h = ap (λ t. x ∷ t) (first_bytes-all n s (omega arith))

pub bytes_after-all : (n : ℕ) (s : Bytes) → length s ≤ n → bytes_after n s ≡ []
bytes_after-all zero [] h = refl
bytes_after-all zero (x ∷ s) h = absurd (omega arith)
bytes_after-all (suc n) [] h = refl
bytes_after-all (suc n) (x ∷ s) h = bytes_after-all n s (omega arith)

pub first_bytes-append :
    (n : ℕ) (s t : Bytes) → first_bytes n (s ++ t) ≡ first_bytes n s ++ first_bytes (n - length s) t
first_bytes-append zero [] t = refl
first_bytes-append zero (x ∷ s) t =
    let none : 0 - suc (length s) ≡ 0 = omega arith in ap (λ m. first_bytes m t) (sym none)
first_bytes-append (suc n) [] t =
    let all : suc n ≡ suc n - 0 = omega arith in ap (λ m. first_bytes m t) all
first_bytes-append (suc n) (x ∷ s) t =
    let less : n - length s ≡ suc n - suc (length s) = omega arith in
    ap (λ u. x ∷ u) (first_bytes-append n s t ∙ ap (λ m. first_bytes n s ++ first_bytes m t) less)

pub append-nil : (s : Bytes) → s ++ [] ≡ s
append-nil [] = refl
append-nil (x ∷ s) = ap (λ t. x ∷ t) (append-nil s)

-- A block of `size` bytes that takes the first `n` of them, all of `src` or as many as fit.
pub first_bytes-over :
    (n size : ℕ) (src old : Bytes)
    → length old ≡ size
    → ((n ≡ size) × (size ≤ length src)) ⊎ ((n ≡ length src) × (length src ≤ size))
    → first_bytes (length src) (first_bytes n src ++ bytes_after n old) ≡ first_bytes n src
first_bytes-over n size src old full (inl (all, fits)) =
    let first = length-first_bytes n src (omega arith) in
    let tail = bytes_after-all n old (omega arith) in
    ap (λ t. first_bytes (length src) (first_bytes n src ++ t)) tail
    ∙ ap (first_bytes (length src)) (append-nil (first_bytes n src))
    ∙ first_bytes-all (length src) (first_bytes n src) (omega arith)
first_bytes-over n size src old full (inr (all, fits)) =
    let whole : first_bytes n src ≡ src = first_bytes-all n src (omega arith) in
    let nothing : length src - length src ≡ 0 = omega arith in
    ap (λ s. first_bytes (length src) (s ++ bytes_after n old)) whole
    ∙ first_bytes-append (length src) src (bytes_after n old)
    ∙ ap₂ ◌++◌ (first_bytes-all (length src) src (omega arith))
        (ap (λ m. first_bytes m (bytes_after n old)) nothing)
    ∙ append-nil src
    ∙ sym whole

-- As many bytes as fit, or as there are.
pub first_bytes-part :
    (n m : ℕ) (s : Bytes) → ((n ≡ length s) × (n ≤ m)) ⊎ (n ≡ m) → first_bytes n s ≡ first_bytes m s
first_bytes-part n m s (inl (all, fits)) =
    first_bytes-all n s (omega arith) ∙ sym (first_bytes-all m s (omega arith))
first_bytes-part n m s (inr same) = ap (λ k. first_bytes k s) same
