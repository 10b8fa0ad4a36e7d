-- ===== src/Tests/Pools.antt =====
-- Calls of a memory pool on concrete inputs.
use hft.Prelude.{ℕ, ◌≡◌, refl, some, List, [], ◌∷◌, arith}
use hft.Prelude.Int.{pos}
use hft.Common.MemoryPool.{
  MemoryPool, new_pool, allocate, release, deallocate, Call, get, give_back, call, calls,
}
use hft.Common.MemoryPool.Free.{
  IsPool, Allocated, Deallocated, allocate-Allocated, deallocate-Deallocated,
}
use hft.Common.MemoryPool.Calls.{up_from, new_pool-IsPool, calls-IsPool}

-- A pool of three bins of 16 bytes.
abbrev three_bins : MemoryPool
three_bins = new_pool 16 3

abbrev three_free : IsPool three_bins (up_from 0 3)
three_free = new_pool-IsPool 16 2 (omega arith) (omega arith)

-- Two are taken, the second is given back, twice, and so is a pointer into the middle of a bin.
abbrev some_calls : List Call
some_calls =
    get
    ∷ get
    ∷ give_back (some (pos 16))
    ∷ give_back (some (pos 16))
    ∷ give_back (some (pos 20))
    ∷ []

next_element : (allocate (calls three_bins some_calls)).0 ≡ some 16
unfolding calls call allocate deallocate release new_pool
next_element = refl

calls-IsPool_example : (fs : List ℕ) × IsPool (calls three_bins some_calls) fs
calls-IsPool_example = calls-IsPool 16 2 some_calls (omega arith) (omega arith)

allocate-Allocated_example : Allocated three_bins (up_from 0 3) (allocate three_bins)
allocate-Allocated_example = allocate-Allocated three_bins (up_from 0 3) three_free

abbrev one_taken : MemoryPool
one_taken = calls three_bins (get ∷ [])

abbrev one_taken_free : (fs : List ℕ) × IsPool one_taken fs
one_taken_free = calls-IsPool 16 2 (get ∷ []) (omega arith) (omega arith)

deallocate-Deallocated_example :
    Deallocated one_taken one_taken_free.0 (some (pos 0)) (deallocate one_taken (some (pos 0)))
deallocate-Deallocated_example =
    deallocate-Deallocated one_taken one_taken_free.0 (some (pos 0)) one_taken_free.1
