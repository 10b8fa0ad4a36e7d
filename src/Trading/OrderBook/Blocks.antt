-- ===== src/Trading/OrderBook/Blocks.antt =====
-- The searches of hft/src/order_book.hpp over blocks, words in a bucket and buckets in the book: a
-- search for the block and a search in it make one search.
use hft.Prelude.{
  ℕ, ◌+◌, ◌*◌, ◌/◌, ◌%◌, ◌<◌, ◌≡◌, ◌≢◌, sym, ◌∙◌, ap, ltb→lt, ◌⊎◌, inl, inr, Bool, true, false, ltb,
  ◌==◌, ==_iff, arith, Bool-cases,
}
use hft.Trading.OrderBook.{Search, highest, lowest}
use hft.Trading.OrderBook.Find.{NotWorse, Past, Best, Next}

-- The same index for tests that agree below `n`.
pub Best-ext :
    (d : Search) (p q : ℕ → Bool) (n k : ℕ)
    → ((j : ℕ) → j < n → p j ≡ q j)
    → Best d p n k
    → Best d q n k
Best-ext d p q n k e b = record {
  within = b.within;
  hit = sym (e k b.within) ∙ b.hit;
  best = λ j lt h. b.best j lt (e j lt ∙ h);
}

pub Next-ext :
    (d : Search) (p q : ℕ → Bool) (n s k : ℕ)
    → ((j : ℕ) → j < n → p j ≡ q j)
    → Next d p n s k
    → Next d q n s k
Next-ext d p q n s k e b = record {
  within = b.within;
  hit = sym (e k b.within) ∙ b.hit;
  past = b.past;
  best = λ j lt h. b.best j lt (e j lt ∙ h);
}

-- Indices in blocks of `m`.
pub block_lt : (m b c o q : ℕ) → b < c → o < m → b * m + o < c * m + q
block_lt m b c o q h k = grind arith

pub split_index :
    (m n j : ℕ) → 0 < m → j < n * m → (j / m < n) × (j % m < m) × (j / m * m + j % m ≡ j)
split_index m n j h b = grind arith

NotWorse-self : (d : Search) (b c : ℕ) → b ≡ c → NotWorse d b c
NotWorse-self highest b c e = omega arith
NotWorse-self lowest b c e = omega arith

NotWorse-block :
    (d : Search) (m b c o q : ℕ)
    → 0 < m
    → o < m
    → q < m
    → NotWorse d b c
    → (b ≡ c → NotWorse d o q)
    → NotWorse d (b * m + o) (c * m + q)
NotWorse-block highest m b c o q p ho hq h k = elim (Bool-cases (b == c)) [
  | inl e ↦ let same = (==_iff b c).0 e in let i = k same in rw same (omega arith)
  | inr e ↦ let lt : c < b = ground (arith, e, h) in let r = block_lt m c b q o lt hq in omega arith
]
NotWorse-block lowest m b c o q p ho hq h k = elim (Bool-cases (b == c)) [
  | inl e ↦ let same = (==_iff b c).0 e in let i = k same in rw same (omega arith)
  | inr e ↦ let lt : b < c = ground (arith, e, h) in let r = block_lt m b c o q lt ho in omega arith
]

Past-block :
    (d : Search) (m b c o q : ℕ) → o < m → q < m → Past d b c → Past d (b * m + o) (c * m + q)
Past-block highest m b c o q ho hq h = block_lt m c b q o h hq
Past-block lowest m b c o q ho hq h = block_lt m b c o q h ho

Past-NotWorse : (d : Search) (b c : ℕ) → Past d b c → NotWorse d b c
Past-NotWorse highest b c h = omega arith
Past-NotWorse lowest b c h = omega arith

Past-differs : (d : Search) (b c : ℕ) → Past d b c → b ≢ c
Past-differs highest b c h e = omega arith
Past-differs lowest b c h e = omega arith

-- What comes after an index is in a later block, or later in the same one.
Past-cases :
    (d : Search) (m b c o q : ℕ)
    → o < m
    → q < m
    → Past d (b * m + o) (c * m + q)
    → Past d b c ⊎ ((b ≡ c) × Past d o q)
Past-cases highest m b c o q ho hq h = elim (Bool-cases (ltb c b)) [
  | inl e ↦ inl (ltb→lt c b e)
  | inr e ↦ elim (Bool-cases (b == c)) [
    | inl f ↦
        let same = (==_iff b c).0 f in
        inr (same, (let k : b * m ≡ c * m = ap (λ t. t * m) same in omega arith))
    | inr f ↦
        let lt : b < c = ground (arith, e, f) in
        let r = block_lt m b c o q lt ho in absurd (omega arith)
  ]
]
Past-cases lowest m b c o q ho hq h = elim (Bool-cases (ltb b c)) [
  | inl e ↦ inl (ltb→lt b c e)
  | inr e ↦ elim (Bool-cases (b == c)) [
    | inl f ↦
        let same = (==_iff b c).0 f in
        inr (same, (let k : b * m ≡ c * m = ap (λ t. t * m) same in omega arith))
    | inr f ↦
        let lt : c < b = ground (arith, e, f) in
        let r = block_lt m c b q o lt hq in absurd (omega arith)
  ]
]

-- Two searches as one: `p` passes in block `b` only if `q b` does.
module _ (d : Search) (m n : ℕ) (pos_m : 0 < m) (p q : ℕ → Bool)
    (covers : (b o : ℕ) → b < n → o < m → p (b * m + o) ≡ true → q b ≡ true) where
  split_hit : (j : ℕ) → j < n * m → p j ≡ true → (q (j / m) ≡ true) × (p (j / m * m + j % m) ≡ true)
  split_hit j b h =
      let (lb, lo, e) = split_index m n j pos_m b in
      let h' : p (j / m * m + j % m) ≡ true = rw e h in (covers (j / m) (j % m) lb lo h', h')

  -- The best block, and the best index in it.
  pub Best-blocks :
      (b o : ℕ) → Best d q n b → Best d (λ i. p (b * m + i)) m o → Best d p (n * m) (b * m + o)
  Best-blocks b o outer inner = record {
    within = let x = outer.within in let y = inner.within in grind arith;
    hit = inner.hit;
    best = λ j c h.
        let (lb, lo, e) = split_index m n j pos_m c in
        let (qb, pb) = split_hit j c h in
        rw (← e) (
          NotWorse-block d m b (j / m) o (j % m) pos_m inner.within lo (outer.best (j / m) lb qb)
            (λ same. inner.best (j % m) lo (rw same pb)));
  }

  -- No block that passes, no index.
  pub blocks-none : ((b : ℕ) → b < n → q b ≡ false) → (j : ℕ) → j < n * m → p j ≡ false
  blocks-none none_left j c = elim (Bool-cases (p j)) [
    | inl h ↦
        let (lb, lo, e) = split_index m n j pos_m c in
        let (qb, pb) = split_hit j c h in ground (arith, none_left (j / m) lb, qb)
    | inr h ↦ h
  ]

  -- The next index in the same block.
  pub Next-same_block :
      (b s o : ℕ)
      → b < n
      → s < m
      → Next d (λ i. p (b * m + i)) m s o
      → Next d p (n * m) (b * m + s) (b * m + o)
  Next-same_block b s o lb ls inner = record {
    within = let y = inner.within in grind arith;
    hit = inner.hit;
    past = past_same d b s o inner.past;
    best = λ j c h x.
        let (lj, lo, e) = split_index m n j pos_m c in
        let (qb, pb) = split_hit j c h in
        rw (← e) (elim (Past-cases d m b (j / m) s (j % m) ls lo (rw e x)) [
          | inl later ↦
              NotWorse-block d m b (j / m) o (j % m) pos_m inner.within lo
                (Past-NotWorse d b (j / m) later)
                (λ same. absurd (Past-differs d b (j / m) later same))
          | inr (same, y) ↦
              NotWorse-block d m b (j / m) o (j % m) pos_m inner.within lo
                (NotWorse-self d b (j / m) same) (λ t. inner.best (j % m) lo (rw same pb) y)
        ]);
  }
    where
      past_same : (d : Search) (b s o : ℕ) → Past d s o → Past d (b * m + s) (b * m + o)
      past_same highest b s o h = omega arith
      past_same lowest b s o h = omega arith

  -- The next block that passes, and the best index in it, where the own block has no more.
  pub Next-later_block :
      (b s c o : ℕ)
      → b < n
      → s < m
      → ((i : ℕ) → i < m → Past d s i → p (b * m + i) ≡ false)
      → Next d q n b c
      → Best d (λ i. p (c * m + i)) m o
      → Next d p (n * m) (b * m + s) (c * m + o)
  Next-later_block b s c o lb ls no_more outer inner = record {
    within = let x = outer.within in let y = inner.within in grind arith;
    hit = inner.hit;
    past = Past-block d m b c s o ls inner.within outer.past;
    best = λ j cj h x.
        let (lj, lo, e) = split_index m n j pos_m cj in
        let (qb, pb) = split_hit j cj h in
        rw (← e) (elim (Past-cases d m b (j / m) s (j % m) ls lo (rw e x)) [
          | inl later ↦
              NotWorse-block d m c (j / m) o (j % m) pos_m inner.within lo
                (outer.best (j / m) lj qb later) (λ same. inner.best (j % m) lo (rw same pb))
          | inr (same, y) ↦
              let gone = no_more (j % m) lo y in
              let here : p (b * m + j % m) ≡ true = rw same pb in
              absurd (ground (arith, gone, here))
        ]);
  }

  pub Next-none :
      (b s : ℕ)
      → b < n
      → s < m
      → ((i : ℕ) → i < m → Past d s i → p (b * m + i) ≡ false)
      → ((c : ℕ) → c < n → Past d b c → q c ≡ false)
      → (j : ℕ) → j < n * m
      → Past d (b * m + s) j
      → p j ≡ false
  Next-none b s lb ls no_more none_left j cj x =
      let (lj, lo, e) = split_index m n j pos_m cj in
      elim (Bool-cases (p j)) [
        | inr h ↦ h
        | inl h ↦
            let (qb, pb) = split_hit j cj h in
            elim (Past-cases d m b (j / m) s (j % m) ls lo (rw e x)) [
              | inl later ↦ let gone = none_left (j / m) lj later in ground (arith, gone, qb)
              | inr (same, y) ↦
                  let gone = no_more (j % m) lo y in
                  let here : p (b * m + j % m) ≡ true = rw same pb in
                  absurd (ground (arith, gone, here))
            ]
      ]
