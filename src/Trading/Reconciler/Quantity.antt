-- ===== src/Trading/Reconciler/Quantity.antt =====
-- The quantities that hft/src/quote_reconciler.h sends to the venue.
use hft.Prelude.{
  ℕ, ◌+◌, ◌-◌, ◌*◌, ◌/◌, ◌≤◌, ◌<◌, min, ◌≡◌, ◌≢◌, ◌∙◌, ap, ltb, if◌then◌else◌, Bool-cases, inl, inr,
  arith,
}
use hft.Prelude.Int.{ℤ, pos, negsuc, ◌*ℤ◌, ◌/ℤ◌, ltb_ℤ, pos-+ℤ, pos--ℤ, pos-*ℤ, pos-/ℤ}
use hft.Trading.Reconciler.{VenuePolicy, round_qty, venue_qty}

-- Rounding over numbers, where `round_qty` has integers.
abbrev pub round_up : ℕ → ℕ → ℕ
round_up inc q = (q + inc - 1) / inc * inc

pub round_up_bounds : (inc q : ℕ) → 0 < inc → (q ≤ round_up inc q) × (round_up inc q < q + inc)
round_up_bounds inc q h = grind arith

-- A policy whose limits are not negative, with its numbers.
pub record Limits (v : VenuePolicy) : Type 0 where
  pub usdt : ℕ
  pub least : ℕ
  pub most : ℕ
  pub inc : ℕ
  pub scale : ℕ
  pub usdt_eq : v.minimum_usdt ≡ pos usdt
  pub least_eq : v.minimum_qty ≡ pos least
  pub most_eq : v.maximum_qty ≡ pos most
  pub inc_eq : v.qty_increment ≡ pos inc
  pub scale_eq : v.qty_scale ≡ pos scale
  pub inc_pos : 0 < inc
  pub scale_pos : 0 < scale
  pub ordered : least ≤ most

round_qty_pos :
    (v : VenuePolicy) (l : Limits v) (q : ℕ) → round_qty v (pos q) ≡ pos (round_up l.inc q)
unfolding round_qty
round_qty_pos v l q =
    let p = l.inc_pos in rw (l.inc_eq, pos-+ℤ, pos--ℤ (q + l.inc) 1 (omega arith), pos-/ℤ, pos-*ℤ)

abbrev raise : ℕ → ℤ → ℕ
raise m (pos n) = if ltb n m then m else n
raise m (negsuc n) = m

raise_eq : (m : ℕ) (q : ℤ) → (if ltb_ℤ q (pos m) then pos m else q) ≡ pos (raise m q)
raise_eq m (pos n) = ground arith
raise_eq m (negsuc n) = ground arith

raise_le : (m : ℕ) (q : ℤ) → m ≤ raise m q
raise_le m (pos n) = ground arith
raise_le m (negsuc n) = ground arith

-- The least quantity that is worth the minimum.
abbrev worth : ℕ → ℕ → ℕ → ℕ → ℕ
worth u s p r = if ltb (p * r / s) u then u * s / p else r

worth_le : (u s p r : ℕ) → 0 < s → 0 < p → r ≤ worth u s p r
worth_le u s p r hs hp = elim (Bool-cases (ltb (p * r / s) u)) [
  | inl e ↦
      let lt : p * r / s < u = ground arith in
      let under : p * r < u * s = grind arith in rw e (grind arith)
  | inr e ↦ rw e (omega arith)
]

cap_eq : (m n : ℕ) → (if ltb_ℤ (pos m) (pos n) then pos m else pos n) ≡ pos (min n m)
cap_eq m n = ground arith

worth_eq :
    (u s p r : ℕ)
    → (if ltb_ℤ (pos p *ℤ pos r /ℤ pos s) (pos u) then pos u *ℤ pos s /ℤ pos p else pos r)
      ≡ pos (worth u s p r)
worth_eq u s p r = rw (pos-*ℤ, pos-/ℤ, pos-*ℤ, pos-/ℤ) (ground arith)

-- The quantity as a number.
abbrev pub quantity : (v : VenuePolicy) → Limits v → ℕ → ℤ → ℕ
quantity v l p q = round_up l.inc (min (worth l.usdt l.scale p (raise l.least q)) l.most)

venue_qty_eq :
    (v : VenuePolicy) (l : Limits v) (p : ℕ) (q : ℤ)
    → venue_qty v (pos p) q ≡ pos (quantity v l p q)
unfolding venue_qty round_qty
venue_qty_eq v l p q =
    rw (l.least_eq, l.usdt_eq, l.most_eq, l.scale_eq, raise_eq, worth_eq, cap_eq)
      (round_qty_pos v l (min (worth l.usdt l.scale p (raise l.least q)) l.most))

-- Under a policy whose limits are in order, with a positive increment and scale, an order at a
-- positive price gets a whole number of increments, at least the minimum quantity, and less than one
-- increment above the maximum.
pub venue_qty_bounds :
    (v : VenuePolicy) (l : Limits v) (p : ℕ) (q : ℤ)
    → 0 < p
    → (n : ℕ) × (venue_qty v (pos p) q ≡ pos (n * l.inc))
      × (l.least ≤ n * l.inc)
      × (n * l.inc < l.most + l.inc)
venue_qty_bounds v l p q hp =
    let w = worth l.usdt l.scale p (raise l.least q) in
    let capped = min w l.most in
    let (lo, hi) = round_up_bounds l.inc capped l.inc_pos in
    let ge = worth_le l.usdt l.scale p (raise l.least q) l.scale_pos hp in
    let floor = raise_le l.least q in
    let o = l.ordered in
    ((capped + l.inc - 1) / l.inc, venue_qty_eq v l p q, omega arith, omega arith)

-- If the maximum is not a whole number of increments, an order for more than the maximum that is
-- worth enough is sent above the maximum.
pub venue_qty_above_most :
    (v : VenuePolicy) (l : Limits v) (p q : ℕ)
    → l.most ≤ q
    → l.usdt ≤ p * q / l.scale
    → ((n : ℕ) → n * l.inc ≢ l.most)
    → (n : ℕ) × (venue_qty v (pos p) (pos q) ≡ pos n) × (l.most < n)
venue_qty_above_most v l p q over enough uneven =
    let same : raise l.least (pos q) ≡ q = (let o = l.ordered in ground arith) in
    let w : worth l.usdt l.scale p (raise l.least (pos q)) ≡ q = rw same (ground arith) in
    let c : min (worth l.usdt l.scale p (raise l.least (pos q))) l.most ≡ l.most =
      omega (arith, w) in
    let (lo, hi) = round_up_bounds l.inc l.most l.inc_pos in
    let ne = uneven ((l.most + l.inc - 1) / l.inc) in
    (
      round_up l.inc l.most,
      venue_qty_eq v l p (pos q) ∙ ap (λ t. pos (round_up l.inc t)) c,
      omega (arith, ne),
    )

round_up_whole : (inc n : ℕ) → 0 < inc → round_up inc (n * inc) ≡ n * inc
round_up_whole inc n h = grind arith

-- The quantity that an order at a positive price was sent at is left alone by the rounding that a
-- replacement's last quantity goes through, under a policy whose limits are in order, with a positive
-- increment and scale.
pub round_qty-venue_qty :
    (v : VenuePolicy) (l : Limits v) (p : ℕ) (q : ℤ)
    → 0 < p
    → round_qty v (venue_qty v (pos p) q) ≡ venue_qty v (pos p) q
round_qty-venue_qty v l p q hp =
    let (n, e, lo, hi) = venue_qty_bounds v l p q hp in
    rw e (round_qty_pos v l (n * l.inc) ∙ ap pos (round_up_whole l.inc n l.inc_pos))
