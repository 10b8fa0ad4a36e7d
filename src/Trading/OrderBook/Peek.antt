-- ===== src/Trading/OrderBook/Peek.antt =====
-- `peek_levels` of hft/src/order_book.hpp: the best levels of a side in their order.
use hft.Prelude.{
  ℕ, zero, suc, ◌-◌, ◌<◌, ◌≡◌, true, false, Option, some, List, [], ◌∷◌, arith, Option-cases, inl,
  inr,
}
use hft.Trading.OrderBook.{Search, Half, is_valid, next_active}
use hft.Trading.OrderBook.Find.{Best, Next, Past}
use hft.Trading.OrderBook.Levels.{IsValidHalf}
use hft.Trading.OrderBook.Recompute.{reach, set_cached, any_cache, best_idx-BestLevel}
use hft.Trading.OrderBook.Walk.{next_active-Next, next_active-none}
use hft.Trading.OrderBook.Market.{levels_after, peek_levels}

-- The list of the levels after `s`, at most `m` of them: each is the next active one after the one
-- before it, and the list is shorter than `m` only where no level is left.
pub data IsRanked (d : Search) (h : Half) (n : ℕ) : ℕ → ℕ → List ℕ → Type 0 where
  full : (s : ℕ) → IsRanked d h n s 0 []
  no_more :
      (s m : ℕ)
      → ((j : ℕ) → j < reach n → Past d s j → is_valid h j ≡ false)
      → IsRanked d h n s m []
  followed :
      (s m k : ℕ) (ks : List ℕ)
      → Next d (is_valid h) (reach n) s k
      → IsRanked d h n k m ks
      → IsRanked d h n s (suc m) (k ∷ ks)

levels_after-IsRanked :
    (d : Search) (h : Half) (o : Option ℕ) (n m s : ℕ)
    → IsValidHalf h
    → s < reach n
    → IsRanked d h n s m (levels_after d (set_cached h o) n m s)
unfolding levels_after
levels_after-IsRanked d h o n zero s v lt = full s
levels_after-IsRanked d h o n (suc m) s v lt =
    let w = any_cache h o v in
    elim (Option-cases (next_active d (set_cached h o) s n)) [
      | inl e ↦
          rw (e, levels_after) (no_more s (suc m) (next_active-none d (set_cached h o) n s w lt e))
      | inr (k, e) ↦
          let next = next_active-Next d (set_cached h o) n s k w lt e in
          rw (e, levels_after)
            (followed s m k (levels_after d (set_cached h o) n m k) next
              (levels_after-IsRanked d h o n m k v next.within))
    ]

-- The best levels, at most `m`, or one where `m` is 0.
pub data IsTopLevels (d : Search) (h : Half) (n m : ℕ) : List ℕ → Type 0 where
  nothing : ((j : ℕ) → j < reach n → is_valid h j ≡ false) → IsTopLevels d h n m []
  from_best :
      (k : ℕ) (ks : List ℕ)
      → Best d (is_valid h) (reach n) k
      → IsRanked d h n k (m - 1) ks
      → IsTopLevels d h n m (k ∷ ks)

-- The levels that are peeked at are the best active one and the active ones after it in their order,
-- as many as were asked for, and at least one, unless the side has fewer; provided that the side is
-- valid, and that a cached level that is still active is the best one.
pub peek_levels-IsTopLevels :
    (d : Search) (h : Half) (n m : ℕ)
    → IsValidHalf h
    → ((k : ℕ) → h.cached_best ≡ some k → is_valid h k ≡ true → Best d (is_valid h) (reach n) k)
    → IsTopLevels d h n m (peek_levels d h n m).0
unfolding peek_levels
peek_levels-IsTopLevels d h n m v fits =
    let (o, e, b) = best_idx-BestLevel d n h v fits in
    elim (Option-cases o) [
      | inl f ↦
          let eq : (peek_levels d h n m).0 ≡ [] = ground (arith, e, f) in rw eq (nothing (b.gone f))
      | inr (k, f) ↦
          let at = b.found k f in
          let eq : (peek_levels d h n m).0
              ≡ k ∷ levels_after d (set_cached h (some k)) n (m - 1) k =
            ground (arith, e, f) in
          rw eq (
            from_best k (levels_after d (set_cached h (some k)) n (m - 1) k) at
              (levels_after-IsRanked d h (some k) n (m - 1) k v at.within))
    ]
