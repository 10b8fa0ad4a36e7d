-- ===== src/Common/MemoryPool.antt =====
-- hft/common/memory_pool.hpp: a pool of bins with a stack of free nodes. Each call is one step here;
-- the loops around the compare-and-swap, which fails only under the interference of another thread,
-- run once. An element is the offset of its pointer from the store, in bytes; a null pointer is
-- `none`. Construction and destruction of the elements are the caller's.
pub mod Calls
pub mod Free
use hft.Prelude.{
  ℕ, zero, suc, ◌+◌, ◌-◌, ◌*◌, ◌/◌, ◌%◌, ◌^◌, Bool, true, false, not, ◌&&◌, Option, none, some, ltb,
  leb, ◌==◌, if◌then◌else◌, List, [], ◌∷◌,
}
use hft.Prelude.Bits.{write}
use hft.Prelude.Int.{ℤ, pos, negsuc}

-- `kInvalidIndex`
abbrev pub invalid_index : ℕ
invalid_index = 2 ^ 32 - 1

pub record StackHead : Type 0 where
  pub index : ℕ
  pub counter : ℕ

-- `pack`, of fields of 32 bits, and `unpack`
abbrev pub pack : StackHead → ℕ
pack head = head.counter * 2 ^ 32 + head.index

abbrev pub unpack : ℕ → StackHead
unpack val = record { index = val % 2 ^ 32; counter = val / 2 ^ 32 % 2 ^ 32 }

-- The flags of the bins, the nodes of the free list, and the packed head.
pub record MemoryPool : Type 0 where
  pub size : ℕ
  pub bin_size : ℕ
  pub alive : ℕ → Bool
  pub next : ℕ → ℕ
  pub free_head : ℕ

-- The constructor.
unfoldable pub new_pool : ℕ → ℕ → MemoryPool
new_pool bin_bytes num_elems = record {
  size = num_elems;
  bin_size = bin_bytes;
  alive = λ _. false;
  next = λ i. if suc i == num_elems then invalid_index else suc i;
  free_head = pack (record { index = 0; counter = 0 });
}

-- `allocate`: the element, if there is one, and the pool
unfoldable pub allocate : MemoryPool → Option ℕ × MemoryPool
allocate m =
    let old_head = unpack m.free_head in
    if old_head.index == invalid_index then (none, m) else (
      some (old_head.index * m.bin_size),
      record m {
        alive = write m.alive old_head.index true;
        free_head = pack (record {
          index = m.next old_head.index % 2 ^ 32;
          counter = suc old_head.counter % 2 ^ 32;
        });
      },
    )

-- `deallocate` of the bin `idx`, once it is known to be one of the store
unfoldable pub release : MemoryPool → ℕ → Bool × MemoryPool
release m idx =
    let old_head = unpack m.free_head in
    if m.alive idx
    then (
      true,
      record m {
        alive = write m.alive idx false;
        next = write m.next idx old_head.index;
        free_head = pack (record { index = idx % 2 ^ 32; counter = suc old_head.counter % 2 ^ 32 });
      },
    )
    else (false, m)

-- `deallocate`
unfoldable pub deallocate : MemoryPool → Option ℤ → Bool × MemoryPool
deallocate m none = (false, m)
deallocate m (some (negsuc n)) = (false, m)
deallocate m (some (pos off)) =
    if not (off % m.bin_size == 0)
    then (false, m)
    else if leb m.size (off / m.bin_size)
    then (false, m)
    else release m (off / m.bin_size)

-- The calls that a history of a pool is made of.
pub data Call : Type 0 where
  get : Call
  give_back : Option ℤ → Call

unfoldable pub call : MemoryPool → Call → MemoryPool
call m get = (allocate m).1
call m (give_back elem) = (deallocate m elem).1

unfoldable pub calls : MemoryPool → List Call → MemoryPool
calls m [] = m
calls m (c ∷ cs) = calls (call m c) cs
