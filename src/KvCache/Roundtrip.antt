-- ===== src/KvCache/Roundtrip.antt =====
-- kv_read of agent_runtime_top/src/kv_cache.c answers what kv_write wrote.
use agent_nucleus.Prelude.{
  ℕ, zero, suc, ◌+◌, ◌-◌, ◌*◌, ◌≤◌, ◌≡◌, ◌∙◌, ap, subst, true, not, some, none, List, [], length,
  length-append, arith, Bytes, u32_mod, if◌then◌else◌,
}
use agent_nucleus.KvCache.State.{Block, BlockRange, KvCache, block_at}
use agent_nucleus.KvCache.Valid.{IsStore, IsValid}
use agent_nucleus.KvCache.Range.{IsIn}
use agent_nucleus.KvCache.Access.{
  Read, Written, first_bytes, read_blocks, kv_read, write_blocks, kv_write,
}
use agent_nucleus.KvCache.Stored.{stored}
use agent_nucleus.KvCache.Reading.{IsUsed, read_blocks-stored}
use agent_nucleus.KvCache.Writing.{write_blocks-IsFilled}
use agent_nucleus.KvCache.Order.{write_blocks-InOrder}

length-stored :
    (count size k n : ℕ) (blocks : List Block)
    → IsStore count size blocks
    → k + n ≤ count
    → length (stored k n blocks) ≡ n * size
length-stored count size k zero blocks s h = omega arith
length-stored count size k (suc n) blocks s h =
    let first = s.contents k (omega arith) in
    let rest = length-stored count size (k + 1) n blocks s (omega arith) in
    let sum = length-append (block_at blocks k).content (stored (k + 1) n blocks) in grind arith

-- The states and answers of the calls on a pool that is in use.
abbrev to_write : Bytes → KvCache → Written
to_write bytes c = record { written = 0; src = bytes; blocks = c.blocks }

abbrev to_read : KvCache → Read
to_read c = record { bytes = []; blocks = c.blocks; hits = c.stats.hit_count }

abbrev written : ℕ → BlockRange → Bytes → KvCache → Written
written now range bytes c = write_blocks c now (length bytes) range 0 range.count (to_write bytes c)

kv_write-on :
    (now : ℕ) (range : BlockRange) (bytes : Bytes) (c : KvCache)
    → c.initialized ≡ true
    → kv_write now range bytes c ≡ (
      some (written now range bytes c).written,
      record c { blocks = (written now range bytes c).blocks },
    )
unfolding kv_write
kv_write-on now range bytes c on =
    ap
      (λ b. if not b then (none, c) else (
        some (written now range bytes c).written,
        record c { blocks = (written now range bytes c).blocks },
      ))
      on

kv_read-on :
    (later size : ℕ) (range : BlockRange) (d : KvCache)
    → d.initialized ≡ true
    → (kv_read later range size d).0
      ≡ some (read_blocks d later size range 0 range.count (to_read d)).bytes
unfolding kv_read
kv_read-on later size range d on =
    let r = read_blocks d later size range 0 range.count (to_read d) in
    let e : kv_read later range size d ≡ (
      some r.bytes,
      record d { blocks = r.blocks; stats = record d.stats { hit_count = r.hits } },
    ) =
      ap
        (λ b. if not b then (none, d) else (
          some r.bytes,
          record d { blocks = r.blocks; stats = record d.stats { hit_count = r.hits } },
        ))
        on in
    ap (λ x. x.0) e

-- In a valid pool (initialised, of at most 2^31 blocks that have their ids in order and buffers of
-- the block size), kv_write of bytes that fit in a range of blocks in use writes them all, and
-- kv_read of as many bytes from the same range then answers them; the sizes are such that their sum
-- does not wrap.
pub kv_write-kv_read :
    (now later k : ℕ) (range : BlockRange) (bytes : Bytes) (c : KvCache)
    → IsValid c
    → IsIn range k range.count c.block_count
    → IsUsed k range.count c.blocks
    → length bytes ≤ range.count * c.block_size
    → length bytes + c.block_size ≤ u32_mod
    → ((kv_write now range bytes c).0 ≡ some (length bytes))
      × ((kv_read later range (length bytes) (kv_write now range bytes c).1).0 ≡ some bytes)
kv_write-kv_read now later k range bytes c v inside used room fits =
    let w = written now range bytes c in
    let d = record c { blocks = w.blocks } in
    let to = inside.to in
    let here : k ≡ k + 0 = omega arith in
    let none_before : range.count ≡ 0 + range.count = omega arith in
    let whole : length bytes - 0 ≡ length bytes = omega arith in
    let inside0 = subst (λ n. IsIn range k n c.block_count) none_before inside in
    let used0 = subst (λ j. IsUsed j range.count c.blocks) here used in
    let enough : length (stored (k + 0) range.count c.blocks) ≡ range.count * c.block_size =
      length-stored c.block_count c.block_size (k + 0) range.count c.blocks v.store (omega arith) in
    let filled =
      write_blocks-IsFilled c now (length bytes) fits range k 0 range.count (to_write bytes c)
        inside0 v.store used0 (omega arith) (omega arith) in
    let store =
      write_blocks-InOrder c now (length bytes) range 0 range.count (to_write bytes c) fits
        (omega arith) v.store in
    let on_write = kv_write-on now range bytes c v.initialized in
    (
      ap (λ r. r.0) on_write ∙ ap some filled.all,
      ap (λ r. (kv_read later range (length bytes) r.1).0) on_write
          ∙ kv_read-on later (length bytes) range d v.initialized
          ∙ ap some (
              read_blocks-stored d later (length bytes) fits range k 0 range.count (to_read d)
                inside0 store (λ j h. filled.in_use (k + 0 + j) ∙ used0 j h) (omega arith)
              ∙ ap (λ n. first_bytes n (stored (k + 0) range.count w.blocks)) whole
              ∙ filled.holds),
    )
