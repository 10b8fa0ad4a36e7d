-- ===== src/Common/MemoryPool/Calls.antt =====
-- A new pool of hft/common/memory_pool.hpp, and any sequence of calls on it.
use hft.Prelude.{
  ℕ, zero, suc, ◌+◌, ◌<◌, ◌≤◌, ◌≡◌, refl, sym, subst, ap, ◌∙◌, true, false, ◌&&◌, Option, List, [],
  ◌∷◌, ltb, leb, ◌==◌, if◌then◌else◌, arith, All,
}
use hft.Prelude.Int.{ℤ}
use hft.Common.MemoryPool.{
  invalid_index, MemoryPool, new_pool, deallocate, Call, get, give_back, call, calls,
}
use hft.Common.MemoryPool.Free.{
  has, Chain, Distinct, IsPool, allocate-Allocated, Deallocated, freed, refused,
  deallocate-Deallocated,
}

-- A new pool has every bin free, in their order.
unfoldable pub up_from : ℕ → ℕ → List ℕ
up_from i zero = []
up_from i (suc n) = i ∷ up_from (suc i) n

up_from-has : (i n j : ℕ) → has j (up_from i n) ≡ (leb i j && ltb j (i + n))
unfolding has up_from
up_from-has i zero j = ground arith
up_from-has i (suc n) j = let ih = up_from-has (suc i) n j in ground (arith, ih)

abbrev first_next : ℕ → ℕ → ℕ
first_next size i = if suc i == size then invalid_index else suc i

up_from-Chain : (size i n : ℕ) → i + suc n ≡ size → Chain (first_next size) i (up_from i (suc n))
unfolding up_from
up_from-Chain size i zero e =
    (refl, (let last : (suc i == size) ≡ true = ground (arith, e) in rw last refl))
up_from-Chain size i (suc n) e = (
  refl,
  (let more : (suc i == size) ≡ false = ground (arith, e) in
      let next : first_next size i ≡ suc i = rw more refl in
      subst (λ t. Chain (first_next size) t (up_from (suc i) (suc n))) (sym next)
        (up_from-Chain size (suc i) n (omega arith))),
)

up_from-All : (size i n : ℕ) → i + n ≤ size → All (λ j. j < size) (up_from i n)
unfolding up_from
up_from-All size i zero h = record {}
up_from-All size i (suc n) h = (omega arith, up_from-All size (suc i) n (omega arith))

up_from-Distinct : (i n : ℕ) → Distinct (up_from i n)
unfolding up_from
up_from-Distinct i zero = record {}
up_from-Distinct i (suc n) = (up_from-has (suc i) n i ∙ ground arith, up_from-Distinct (suc i) n)

pub new_pool-IsPool :
    (bin_bytes n : ℕ)
    → 0 < bin_bytes
    → suc n ≤ invalid_index
    → IsPool (new_pool bin_bytes (suc n)) (up_from 0 (suc n))
unfolding new_pool
new_pool-IsPool bin_bytes n b h = record {
  indices = h;
  bytes = b;
  chain = up_from-Chain (suc n) 0 n (omega arith);
  below = up_from-All (suc n) 0 (suc n) (omega arith);
  distinct = up_from-Distinct 0 (suc n);
  flags = λ i lt. (let e = up_from-has 0 (suc n) i in ground (arith, e, lt));
}

call-IsPool :
    (m : MemoryPool) (fs : List ℕ) (c : Call) → IsPool m fs → (gs : List ℕ) × IsPool (call m c) gs
unfolding call
call-IsPool m [] get p =
    let e = allocate-Allocated m [] p in ([], subst (λ t. IsPool t []) (sym (ap (λ r. r.1) e)) p)
call-IsPool m (i ∷ fs) get p = (fs, (allocate-Allocated m (i ∷ fs) p).3)
call-IsPool m fs (give_back elem) p = given m fs elem p (deallocate-Deallocated m fs elem p)
  where
    given :
        (m : MemoryPool) (fs : List ℕ) (elem : Option ℤ)
        → IsPool m fs
        → Deallocated m fs elem (deallocate m elem)
        → (gs : List ℕ) × IsPool (deallocate m elem).1 gs
    given m fs elem p (freed i e b a r w q) = (i ∷ fs, q)
    given m fs elem p (refused n e) = (fs, subst (λ t. IsPool t fs) (sym (ap (λ r. r.1) e)) p)

all_calls :
    (m : MemoryPool) (fs : List ℕ) (cs : List Call)
    → IsPool m fs
    → (gs : List ℕ) × IsPool (calls m cs) gs
unfolding calls
all_calls m fs [] p = (fs, p)
all_calls m fs (c ∷ cs) p = let (gs, q) = call-IsPool m fs c p in all_calls (call m c) gs cs q

-- After any calls on a new pool that has at least one bin, fewer than the invalid index, and bins of
-- at least one byte, whatever pointers are given back, the free list holds, once each, exactly the
-- bins that are not alive.
pub calls-IsPool :
    (bin_bytes n : ℕ) (cs : List Call)
    → 0 < bin_bytes
    → suc n ≤ invalid_index
    → (fs : List ℕ) × IsPool (calls (new_pool bin_bytes (suc n)) cs) fs
calls-IsPool bin_bytes n cs b h =
    all_calls (new_pool bin_bytes (suc n)) (up_from 0 (suc n)) cs (new_pool-IsPool bin_bytes n b h)
