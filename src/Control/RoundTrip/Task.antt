-- ===== src/Control/RoundTrip/Task.antt =====
-- decode_task of agent-runtime/src/control_protocol.cpp undoes encode_task.
use agent_nucleus.Prelude.{
  ℕ, ◌-◌, ◌<◌, ◌^◌, ◌≡◌, refl, sym, ◌∙◌, ap, subst, true, false, not, ◌||◌, Option, none, some,
  List, [], ◌∷◌, All, length, is_empty, ltb, arith, u32_mod, u64_mod, Bytes,
}
use agent_nucleus.Prelude.Int.{ℤ, pos, negsuc, ltb_ℤ}
use agent_nucleus.Types.{
  AgentTaskSpec, InvocationSpec, InvocationKind, model, tool, unnamed, kind_is_named,
}
use agent_nucleus.Wire.Writer
use agent_nucleus.Wire.Writer.{◌>=>◌, done, check}
use agent_nucleus.Wire.Reader
use agent_nucleus.Wire.Reader.{◌>>-◌, give, expect, repeat}
use agent_nucleus.Wire.Signed.{
  to_bits, of_bits, IsSigned, of_bits-to_bits_32, to_bits-lt_32, to_bits-lt_64,
}
use agent_nucleus.Wire.Inverse.{
  Inverse, Inverse-give, Inverse-seq, Inverse-check, Inverse-expect, Inverse-integer,
  Inverse-string, Inverse-each,
}
use agent_nucleus.Control.Task.{
  kind_code, kind_of_code, invocation_is_bad, encode_invocation, decode_present, decode_invocation,
  encode_collections, encode_task, decode_task,
}

abbrev pub ContextInRange : Option InvocationSpec → Type 0
ContextInRange none = Unit {0}
ContextInRange (some v) = v.context_id < u64_mod

-- The members are values of their C++ types.
pub record IsTyped (t : AgentTaskSpec) : Type 0 where
  pub id : t.id < u64_mod
  pub parent_id : t.parent_id < u64_mod
  pub cpu_threads : t.resources.cpu_threads < u32_mod
  pub memory_bytes : t.resources.memory_bytes < u64_mod
  pub timeout : IsSigned u64_mod t.resources.timeout
  pub priority : IsSigned u32_mod t.priority
  pub retry_limit : t.retry_limit < u32_mod
  pub dependencies : All (λ d. d < u64_mod) t.dependencies
  pub context_id : ContextInRange t.invocation

pub kind_back : (k : InvocationKind) → kind_is_named k ≡ true → kind_of_code (kind_code k) ≡ k
kind_back model h = refl
kind_back tool h = refl
kind_back (unnamed v) h = cc

pub kind_small : (k : InvocationKind) → kind_is_named k ≡ true → kind_code k < 256 ^ 1
kind_small model h = omega arith
kind_small tool h = omega arith
kind_small (unnamed v) h = cc

pub kind_listed :
    (k : InvocationKind)
    → kind_is_named k ≡ true
    → not (ltb (kind_code k) 1 || ltb 2 (kind_code k)) ≡ true
kind_listed model h = refl
kind_listed tool h = refl
kind_listed (unnamed v) h = cc

Inverse-present :
    (v : InvocationSpec)
    → v.context_id < u64_mod
    → kind_is_named v.kind ≡ true
    → not (is_empty v.target || is_empty v.operation) ≡ true
    → Inverse
        (Writer.u8 (kind_code v.kind)
          >=> Writer.u64 v.context_id
          >=> Writer.string v.target
          >=> Writer.string v.operation
          >=> Writer.string v.payload
          >=> done)
        decode_present
        (some v)
unfolding decode_present
Inverse-present v range named full =
    Inverse-seq _ _ (Inverse-integer 1 (kind_code v.kind) (kind_small v.kind named)) (
      Inverse-expect (kind_listed v.kind named) (
        Inverse-seq _ _ (Inverse-integer 8 v.context_id range) (
          Inverse-seq _ _ (Inverse-string v.target) (
            Inverse-seq _ _ (Inverse-string v.operation) (
              Inverse-seq _ _ (Inverse-string v.payload) (
                Inverse-expect full (
                  subst (λ k. Inverse done (give (some (record v { kind = k }))) (some v))
                    (sym (kind_back v.kind named)) (Inverse-give (some v)))))))))

Inverse-invocation :
    (i : Option InvocationSpec)
    → ContextInRange i
    → invocation_is_bad i ≡ false
    → Inverse (encode_invocation i) decode_invocation i
unfolding encode_invocation decode_invocation
Inverse-invocation none range fine =
    Inverse-seq _ 0 (Inverse-integer 1 0 (omega arith)) (Inverse-expect refl (Inverse-give none))
Inverse-invocation (some v) range fine =
    Inverse-seq _ 1 (Inverse-integer 1 1 (omega arith))
      (Inverse-expect refl (Inverse-present v range (ground arith) (ground arith)))

-- A task as it is read back: the two signed numbers have gone through their bits.
abbrev through_bits : AgentTaskSpec → AgentTaskSpec
through_bits t = record t {
  priority = of_bits u32_mod (to_bits u32_mod t.priority);
  resources = record t.resources { timeout = pos (to_bits u64_mod t.resources.timeout) };
}

pub timeout_back :
    (z : ℤ) → IsSigned u64_mod z → ltb_ℤ z (pos 0) ≡ false → pos (to_bits u64_mod z) ≡ z
timeout_back (pos n) h valid = ap pos (omega arith)
timeout_back (negsuc n) h valid = absurd (ground arith)

pub timeout_small :
    (z : ℤ)
    → IsSigned u64_mod z
    → ltb_ℤ z (pos 0) ≡ false
    → not (ltb (2 ^ 63 - 1) (to_bits u64_mod z)) ≡ true
timeout_small (pos n) h valid = ground arith
timeout_small (negsuc n) h valid = absurd (ground arith)

through_bits_lem :
    (t : AgentTaskSpec) → IsTyped t → ltb_ℤ t.resources.timeout (pos 0) ≡ false → through_bits t ≡ t
through_bits_lem t typed valid =
    ap
      (λ (p : ℤ). record t {
        priority = p;
        resources = record t.resources { timeout = pos (to_bits u64_mod t.resources.timeout) };
      })
      (of_bits-to_bits_32 t.priority typed.priority)
    ∙ ap (λ (z : ℤ). record t { resources = record t.resources { timeout = z } })
        (timeout_back t.resources.timeout typed.timeout valid)

numbers-Inverse :
    (xs : List ℕ) → All (λ d. d < u64_mod) xs → All (λ d. Inverse (Writer.u64 d) Reader.u64 d) xs
numbers-Inverse [] h = tt
numbers-Inverse (x ∷ xs) h = (Inverse-integer 8 x h.0, numbers-Inverse xs h.1)

strings-Inverse : (xs : List Bytes) → All (λ v. Inverse (Writer.string v) Reader.string v) xs
strings-Inverse [] = tt
strings-Inverse (x ∷ xs) = (Inverse-string x, strings-Inverse xs)

-- decode_task undoes encode_task, for a task whose members are in the range of their types.
pub Inverse-task : (t : AgentTaskSpec) → IsTyped t → Inverse (encode_task t) decode_task t
unfolding encode_task encode_collections decode_task
Inverse-task t h = Inverse-check (λ valid.
    let future : ltb_ℤ t.resources.timeout (pos 0) ≡ false = ground arith in
    let fine : invocation_is_bad t.invocation ≡ false = ground arith in
    Inverse-seq _ t.id (Inverse-integer 8 t.id h.id) (
      Inverse-seq _ _ (Inverse-integer 8 t.parent_id h.parent_id) (
        Inverse-seq _ _ (Inverse-integer 4 (to_bits u32_mod t.priority) (to_bits-lt_32 t.priority))
          (Inverse-seq _ _ (Inverse-integer 4 t.resources.cpu_threads h.cpu_threads) (
            Inverse-seq _ _ (Inverse-integer 8 t.resources.memory_bytes h.memory_bytes) (
              Inverse-seq _ _
                (Inverse-integer 8 (to_bits u64_mod t.resources.timeout)
                  (to_bits-lt_64 t.resources.timeout))
                (Inverse-seq _ _ (Inverse-integer 4 t.retry_limit h.retry_limit) (
                  Inverse-seq _ _ (Inverse-string t.name) (
                    Inverse-seq _ _ (Inverse-string t.kind) (
                      Inverse-check (λ few.
                        Inverse-expect (timeout_small t.resources.timeout h.timeout future) (
                          Inverse-seq _ _ (Inverse-integer 4 (length t.dependencies) (ground arith))
                            (Inverse-expect (ground arith) (
                              Inverse-seq _ _
                                (Inverse-each Writer.u64 Reader.u64 t.dependencies
                                  (numbers-Inverse t.dependencies h.dependencies))
                                (Inverse-seq _ _
                                  (Inverse-integer 4 (length t.command) (ground arith))
                                  (Inverse-expect (ground arith) (
                                    Inverse-seq _ _
                                      (Inverse-each Writer.string Reader.string t.command
                                        (strings-Inverse t.command))
                                      (Inverse-seq _ _
                                        (Inverse-invocation t.invocation h.context_id fine)
                                        (subst (λ u. Inverse done (give (through_bits t)) u)
                                          (through_bits_lem t h future)
                                          (Inverse-give (through_bits t)))))))))))))))))))))
