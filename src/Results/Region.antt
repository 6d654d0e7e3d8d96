-- ===== src/Results/Region.antt =====
-- agent-runtime/src/shared_memory.cpp: resize and seal_read_only of SharedMemoryRegion.
use agent_nucleus.Prelude.{
  ℕ, ◌-◌, ◌^◌, Bool, true, false, not, ◌&&◌, ◌||◌, ltb, ◌==◌, if◌then◌else◌,
}

-- `mapped` is whether address_ is not null.
pub record SharedMemoryRegion : Type 0 where
  pub mapped : Bool
  pub size : ℕ
  pub region_id : ℕ
  pub read_only : Bool

-- Whether the system calls of resize and of seal_read_only succeed: munmap, ftruncate, mmap, and the
-- mmap after a failed ftruncate; munmap, fcntl and mmap.
pub record ResizeCalls : Type 0 where
  pub unmap : Bool
  pub truncate : Bool
  pub map : Bool
  pub restore : Bool

pub record SealCalls : Type 0 where
  pub unmap : Bool
  pub seal : Bool
  pub map : Bool

abbrev pub is_valid : SharedMemoryRegion → Bool
is_valid r = r.mapped && ltb 0 r.size

-- The largest off_t.
abbrev pub max_offset : ℕ
max_offset = 2 ^ 63 - 1

unfoldable pub resize : ResizeCalls → ℕ → SharedMemoryRegion → Bool × SharedMemoryRegion
resize calls size r =
    if not (is_valid r) || r.read_only || (size == 0 || ltb max_offset size)
    then (false, r)
    else if size == r.size
    then (true, r)
    else if not calls.unmap
    then (false, r)
    else if not calls.truncate
    then (false, record r { mapped = calls.restore })
    else (calls.map, record r { size = size; mapped = calls.map })

unfoldable pub seal_read_only : SealCalls → SharedMemoryRegion → Bool × SharedMemoryRegion
seal_read_only calls r =
    if not (is_valid r) || r.read_only
    then (false, r)
    else if not calls.unmap
    then (false, r)
    else if not calls.seal
    then (false, record r { mapped = false })
    else if not calls.map
    then (false, record r { mapped = false })
    else (true, record r { mapped = true; read_only = true })
