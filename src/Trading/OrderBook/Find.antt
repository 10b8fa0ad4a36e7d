-- ===== src/Trading/OrderBook/Find.antt =====
-- The searches of hft/src/order_book.hpp: what it means that an index is the best one, or the next
-- one after another.
use hft.Prelude.{
  ℕ, suc, ◌-◌, ◌<◌, ◌≤◌, ◌≡◌, refl, inl, inr, Bool, true, false, none, some, arith, Bool-cases,
  Option-cases, first_index, first_index-some, first_index-none, first_from-some, first_from-none,
  last_index-some, last_index-none,
}
use hft.Prelude.Bits.{Word, word_bits, and_word}
use hft.Trading.OrderBook.{
  Search, highest, lowest, find_best, find_bit, find_after, make_mask, is_nonzero,
}

-- `k` is as good as `j`, and `k` comes after `s`, from the best side on.
abbrev pub NotWorse : Search → ℕ → ℕ → Type 0
NotWorse highest k j = j ≤ k
NotWorse lowest k j = k ≤ j

abbrev pub Past : Search → ℕ → ℕ → Type 0
Past highest s k = k < s
Past lowest s k = s < k

-- The best index below `n` that passes.
pub record Best (d : Search) (p : ℕ → Bool) (n k : ℕ) : Type 0 where
  pub within : k < n
  pub hit : p k ≡ true
  pub best : (j : ℕ) → j < n → p j ≡ true → NotWorse d k j

-- The best index below `n` that passes, of those after `s`.
pub record Next (d : Search) (p : ℕ → Bool) (n s k : ℕ) : Type 0 where
  pub within : k < n
  pub hit : p k ≡ true
  pub past : Past d s k
  pub best : (j : ℕ) → j < n → p j ≡ true → Past d s j → NotWorse d k j

pub find_best-Best : (d : Search) (p : ℕ → Bool) (n k : ℕ) → find_best d p n ≡ some k → Best d p n k
find_best-Best highest p n k e =
    let (lt, hit, after) = last_index-some p n k e in
    record { within = lt; hit = hit; best = λ j b h. ground (arith, after j) }
find_best-Best lowest p n k e =
    let (lt, hit, before) = first_index-some p n k e in
    record { within = lt; hit = hit; best = λ j b h. ground (arith, before j) }

pub find_best-none :
    (d : Search) (p : ℕ → Bool) (n j : ℕ) → find_best d p n ≡ none → j < n → p j ≡ false
find_best-none highest p n j e b = last_index-none p n j e b
find_best-none lowest p n j e b = first_index-none p n j e b

pub find_after-Next :
    (d : Search) (p : ℕ → Bool) (s n k : ℕ) → s < n → find_after d p s n ≡ some k → Next d p n s k
find_after-Next highest p s n k b e =
    let (lt, hit, after) = last_index-some p s k e in
    record { within = omega arith; hit = hit; past = lt; best = λ j c h q. ground (arith, after j) }
find_after-Next lowest p s n k b e =
    let (lo, hi, hit, before) = first_from-some p (suc s) (n - suc s) k e in
    record {
      within = omega arith;
      hit = hit;
      past = omega arith;
      best = λ j c h q. ground (arith, before j);
    }

pub find_after-none :
    (d : Search) (p : ℕ → Bool) (s n j : ℕ)
    → s < n
    → find_after d p s n ≡ none
    → j < n
    → Past d s j
    → p j ≡ false
find_after-none highest p s n j b e c q = last_index-none p s j e q
find_after-none lowest p s n j b e c q =
    first_from-none p (suc s) (n - suc s) j e (omega arith) (omega arith)

mask-Past :
    (d : Search) (w : Word) (o k : ℕ)
    → and_word w (make_mask d o) k ≡ true
    → (w k ≡ true) × Past d o k
mask-Past highest w o k h = ground arith
mask-Past lowest w o k h = ground arith

Past-mask :
    (d : Search) (w : Word) (o k : ℕ)
    → w k ≡ true
    → Past d o k
    → and_word w (make_mask d o) k ≡ true
Past-mask highest w o k h q = ground arith
Past-mask lowest w o k h q = ground arith

-- A word that is masked leads on from the bit of the mask.
pub find_masked-Next :
    (d : Search) (w : Word) (o k : ℕ)
    → find_bit d (and_word w (make_mask d o)) ≡ some k
    → Next d w word_bits o k
find_masked-Next d w o k e =
    let b = find_best-Best d (and_word w (make_mask d o)) word_bits k e in
    let (hit, past) = mask-Past d w o k b.hit in
    record {
      within = b.within;
      hit = hit;
      past = past;
      best = λ j c h q. b.best j c (Past-mask d w o j h q);
    }

pub find_masked-none :
    (d : Search) (w : Word) (o j : ℕ)
    → find_bit d (and_word w (make_mask d o)) ≡ none
    → j < word_bits
    → Past d o j
    → w j ≡ false
find_masked-none d w o j e b q = elim (Bool-cases (w j)) [
  | inl hit ↦
      let gone = find_best-none d (and_word w (make_mask d o)) word_bits j e b in
      ground (arith, gone, Past-mask d w o j hit q)
  | inr miss ↦ miss
]

-- A word is not 0 exactly if it has a bit.
pub is_nonzero-hit : (w : Word) (o : ℕ) → o < word_bits → w o ≡ true → is_nonzero w ≡ true
is_nonzero-hit w o b h = elim (Option-cases (first_index w word_bits)) [
  | inl e ↦ let gone = first_index-none w word_bits o e b in ground (arith, gone, h)
  | inr (k, e) ↦ rw e refl
]
