-- ===== src/Common/MemoryPool/Free.antt =====
-- The free list of hft/common/memory_pool.hpp: its nodes are exactly the bins that are not alive.
use hft.Prelude.{
  ℕ, suc, ◌+◌, ◌*◌, ◌/◌, ◌%◌, ◌^◌, ◌<◌, ◌≤◌, ◌≡◌, refl, sym, subst, ap, ◌∙◌, inl, inr, Bool, true,
  false, not, Option, none, some, List, [], ◌∷◌, leb, ◌==◌, ==_iff, ==_self, if◌then◌else◌, arith,
  Bool-cases, All,
}
use native.Mathlib.Nat.{mul-div_cancel}
use hft.Prelude.Bits.{write, write_self}
use hft.Prelude.Int.{ℤ, pos, negsuc}
use hft.Common.MemoryPool.{invalid_index, pack, unpack, MemoryPool, allocate, release, deallocate}

unfoldable pub has : ℕ → List ℕ → Bool
has j [] = false
has j (x ∷ xs) = let rest = has j xs in if x == j then true else rest

-- The list that the nodes make from an index on.
abbrev pub Chain : (ℕ → ℕ) → ℕ → List ℕ → Type 0
Chain f i [] = i ≡ invalid_index
Chain f i (x ∷ xs) = (i ≡ x) × Chain f (f x) xs

abbrev pub Distinct : List ℕ → Type 0
Distinct [] = Unit
Distinct (x ∷ xs) = (has x xs ≡ false) × Distinct xs

abbrev pub head_index : MemoryPool → ℕ
head_index m = (unpack m.free_head).index

-- The free list is `fs`, without repetition and within the store, and a bin is alive exactly if it is
-- not in it.
pub record IsPool (m : MemoryPool) (fs : List ℕ) : Type 0 where
  pub indices : m.size ≤ invalid_index
  pub bytes : 0 < m.bin_size
  pub chain : Chain m.next (head_index m) fs
  pub below : All (λ i. i < m.size) fs
  pub distinct : Distinct fs
  pub flags : (i : ℕ) → i < m.size → m.alive i ≡ not (has i fs)

pub unpack-pack :
    (index counter : ℕ)
    → index < 2 ^ 32
    → counter < 2 ^ 32
    → unpack (pack (record { index = index; counter = counter }))
      ≡ record { index = index; counter = counter }
unpack-pack index counter h k =
    let a : (counter * 2 ^ 32 + index) % 2 ^ 32 ≡ index = omega arith in
    let b : (counter * 2 ^ 32 + index) / 2 ^ 32 % 2 ^ 32 ≡ counter = omega arith in rw (a, b) refl

packed_index :
    (index counter : ℕ)
    → (unpack (pack (record { index = index % 2 ^ 32; counter = counter }))).index ≡ index % 2 ^ 32
packed_index index counter = omega arith

-- The start of a chain fits in 32 bits.
Chain-start :
    (f : ℕ → ℕ) (i n : ℕ) (fs : List ℕ)
    → n ≤ invalid_index
    → All (λ j. j < n) fs
    → Chain f i fs
    → i % 2 ^ 32 ≡ i
Chain-start f i n [] h a c = omega arith
Chain-start f i n (x ∷ xs) h (b, bs) (e, c) = omega arith

-- A node that is not on a chain may be written.
Chain-write :
    (f : ℕ → ℕ) (k v i : ℕ) (fs : List ℕ)
    → has k fs ≡ false
    → Chain f i fs
    → Chain (write f k v) i fs
unfolding has
Chain-write f k v i [] h c = c
Chain-write f k v i (x ∷ xs) h (e, c) =
    let apart : (x == k) ≡ false = ground (arith, h) in
    let rest : has k xs ≡ false = ground (arith, h) in
    let other : (k == x) ≡ false = ground (arith, apart) in
    let same : write f k v x ≡ f x = rw other refl in
    (e, rw same (Chain-write f k v (f x) xs rest c))

took :
    (i j : ℕ) (fs : List ℕ) (a : Bool)
    → has i fs ≡ false
    → a ≡ not (has j (i ∷ fs))
    → (if i == j then true else a) ≡ not (has j fs)
unfolding has
took i j fs a new f = elim (Bool-cases (i == j)) [
  | inl e ↦
      let same : i ≡ j = (==_iff i j).0 e in
      let gone : has j fs ≡ false = subst (λ k. has k fs ≡ false) same new in rw (e, gone) refl
  | inr e ↦ ground (arith, e, f)
]

-- What `allocate` promises: the first free bin, which was not alive and now is; or nothing, and the
-- pool as it was, if none is free.
abbrev pub Allocated : MemoryPool → List ℕ → Option ℕ × MemoryPool → Type 0
Allocated m [] r = r ≡ (none, m)
Allocated m (i ∷ fs) r =
    (r.0 ≡ some (i * m.bin_size))
    × (m.alive i ≡ false)
    × ((j : ℕ) → r.1.alive j ≡ write m.alive i true j)
    × IsPool r.1 fs

-- Where the free list holds, once each, the bins that are not alive, allocate gives the first of it,
-- which was not alive and now is, and takes it off the list; it gives nothing exactly if none is free.
pub allocate-Allocated : (m : MemoryPool) (fs : List ℕ) → IsPool m fs → Allocated m fs (allocate m)
unfolding allocate has
allocate-Allocated m [] p =
    let e : (head_index m == invalid_index) ≡ true = (let c = p.chain in ground (arith, c)) in
    rw e refl
allocate-Allocated m (i ∷ fs) p =
    let (e, c) = p.chain in
    let (b, bs) = p.below in
    let (new, ds) = p.distinct in
    let valid : (head_index m == invalid_index) ≡ false =
      (let n = p.indices in ground (arith, e, b, n)) in
    let fits = Chain-start m.next (m.next i) m.size fs p.indices bs c in
    let idle : m.alive i ≡ false = (let f = p.flags i b in f ∙ rw (==_self i) refl) in
    rw (valid, e)
      (
        refl,
        idle,
        λ j. refl,
        record {
          indices = p.indices;
          bytes = p.bytes;
          chain =
              subst (λ t. Chain m.next t fs)
                (sym (packed_index (m.next i) (suc (unpack m.free_head).counter % 2 ^ 32) ∙ fits))
                c;
          below = bs;
          distinct = ds;
          flags = λ j lt. took i j fs (m.alive j) new (p.flags j lt);
        },
      )

-- What `deallocate` promises: an element that is alive is freed and nothing else changes, and every
-- other pointer is refused, with the pool as it was.
pub data Deallocated (m : MemoryPool) (fs : List ℕ) (elem : Option ℤ) (r : Bool × MemoryPool)
    : Type 0 where
  freed :
      (i : ℕ)
      → elem ≡ some (pos (i * m.bin_size))
      → i < m.size
      → m.alive i ≡ true
      → r.0 ≡ true
      → ((j : ℕ) → r.1.alive j ≡ write m.alive i false j)
      → IsPool r.1 (i ∷ fs)
      → Deallocated m fs elem r
  refused :
      ((i : ℕ) → i < m.size → elem ≡ some (pos (i * m.bin_size)) → m.alive i ≡ false)
      → r ≡ (false, m)
      → Deallocated m fs elem r

gave :
    (i j : ℕ) (fs : List ℕ) (a : Bool)
    → a ≡ not (has j fs)
    → (if i == j then false else a) ≡ not (has j (i ∷ fs))
unfolding has
gave i j fs a f = ground (arith, f)

release-Deallocated :
    (m : MemoryPool) (fs : List ℕ) (i : ℕ)
    → IsPool m fs
    → i < m.size
    → Deallocated m fs (some (pos (i * m.bin_size))) (release m i)
unfolding release
release-Deallocated m fs i p lt = elim (Bool-cases (m.alive i)) [
  | inr dead ↦ rw dead (
      refused
        (λ j b e.
          (let n = p.bytes in
            let same : i * m.bin_size ≡ j * m.bin_size = ground (arith, e) in
            let eq : i ≡ j = grind arith in subst (λ k. m.alive k ≡ false) eq dead))
        refl)
  | inl live ↦
      let absent : has i fs ≡ false = (let f = p.flags i lt in ground (arith, f, live)) in
      let start = Chain-start m.next (head_index m) m.size fs p.indices p.below p.chain in
      let small : i % 2 ^ 32 ≡ i = (let n = p.indices in omega arith) in
      rw live (
        freed i refl lt live refl (λ j. refl)
          (record {
            indices = p.indices;
            bytes = p.bytes;
            chain = (
              packed_index i (suc (unpack m.free_head).counter % 2 ^ 32) ∙ small,
              subst (λ t. Chain (write m.next i (head_index m)) t fs)
                  (sym (write_self m.next i (head_index m)))
                  (Chain-write m.next i (head_index m) (head_index m) fs absent p.chain),
            );
            below = (lt, p.below);
            distinct = (absent, p.distinct);
            flags = λ j b. gave i j fs (m.alive j) (p.flags j b);
          }))
]

-- The offset of a bin.
offset_of : (off i b : ℕ) → 0 < b → off ≡ i * b → (off / b ≡ i) × (off % b ≡ 0)
offset_of off i b h e =
    let q : off / b ≡ i = ap (λ t. t / b) e ∙ mul-div_cancel i h in
    (q, (let whole : off / b * b + off % b ≡ off = grind arith in grind arith))

whole_offset : (off b : ℕ) → 0 < b → off % b ≡ 0 → off / b * b ≡ off
whole_offset off b h e = grind arith

offset_same : (off i b : ℕ) → some (pos off) ≡ some (pos (i * b)) → off ≡ i * b
offset_same off i b e = ground (arith, e)

-- Where the free list holds, once each, the bins that are not alive, deallocate frees an element that
-- is alive and puts its bin on the list; a null pointer, one that is not the start of a bin of the
-- store, and one whose bin is not alive, such as one that was freed before, it refuses, and leaves the
-- pool as it was.
pub deallocate-Deallocated :
    (m : MemoryPool) (fs : List ℕ) (elem : Option ℤ)
    → IsPool m fs
    → Deallocated m fs elem (deallocate m elem)
unfolding deallocate
deallocate-Deallocated m fs none p = refused (λ i b e. ground (arith, e)) refl
deallocate-Deallocated m fs (some (negsuc n)) p = refused (λ i b e. ground (arith, e)) refl
deallocate-Deallocated m fs (some (pos off)) p = elim (Bool-cases (off % m.bin_size == 0)) [
  | inr crooked ↦ rw crooked (
      refused
        (λ i b e.
          let (q, r) = offset_of off i m.bin_size p.bytes (offset_same off i m.bin_size e) in
          absurd (ground (arith, crooked, r)))
        refl)
  | inl aligned ↦ elim (Bool-cases (leb m.size (off / m.bin_size))) [
    | inl outside ↦
        rw (aligned, outside)
          (refused
            (λ i b e.
              let (q, r) = offset_of off i m.bin_size p.bytes (offset_same off i m.bin_size e) in
              absurd (ground (arith, outside, b, q)))
            refl)
    | inr inside ↦
        let whole : off / m.bin_size * m.bin_size ≡ off =
          whole_offset off m.bin_size p.bytes (ground (arith, aligned)) in
        rw (aligned, inside)
          (subst (λ t. Deallocated m fs (some (pos t)) (release m (off / m.bin_size))) whole
            (release-Deallocated m fs (off / m.bin_size) p (ground (arith, inside))))
  ]
]
