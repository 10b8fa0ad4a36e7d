-- ===== src/Trading/Expiry/Sweep.antt =====
-- The queue of hft/src/order_expiry_manager.h when an order is registered and when time has passed.
use hft.Prelude.{
  ℕ, ◌≤◌, ◌<◌, ◌≡◌, refl, ap, List, [], ◌∷◌, ◌++◌, Option, String, leb, inl, inr, Bool-cases, All,
  arith,
}
use mathlib.Core.List.{Perm}
use mathlib.Core.List.Perm
use hft.Common.Types.{Side, PositionSide, OmOrderState}
use hft.Trading.Expiry.{
  ExpiryKey, OrderExpiryManager, push, sweep, sweep_expired, register_expiry, key_of,
}

abbrev pub IsSorted : List ExpiryKey → Type 0
IsSorted [] = Unit
IsSorted (k ∷ q) = All (λ j. k.expire_ts ≤ j.expire_ts) q × IsSorted q

All-mono_le :
    (a b : ℕ) (q : List ExpiryKey)
    → a ≤ b
    → All (λ j. b ≤ j.expire_ts) q
    → All (λ j. a ≤ j.expire_ts) q
All-mono_le a b [] h k = tt
All-mono_le a b (x ∷ q) h k = (omega arith, All-mono_le a b q h k.1)

push-All :
    (a : ℕ) (k : ExpiryKey) (q : List ExpiryKey)
    → a ≤ k.expire_ts
    → All (λ j. a ≤ j.expire_ts) q
    → All (λ j. a ≤ j.expire_ts) (push k q)
unfolding push
push-All a k [] h t = (h, tt)
push-All a k (x ∷ q) h t = ground (arith, push-All a k q h t.1)

pub push-IsSorted : (k : ExpiryKey) (q : List ExpiryKey) → IsSorted q → IsSorted (push k q)
unfolding push
push-IsSorted k [] s = (tt, tt)
push-IsSorted k (x ∷ q) s = elim (Bool-cases (leb k.expire_ts x.expire_ts)) [
  | inl e ↦
      let le : k.expire_ts ≤ x.expire_ts = ground arith in
      rw e ((le, All-mono_le k.expire_ts x.expire_ts q le s.0), s)
  | inr e ↦ rw e (push-All x.expire_ts k q (ground arith) s.0, push-IsSorted k q s.1)
]

pub push-perm : (k : ExpiryKey) (q : List ExpiryKey) → Perm (push k q) (k ∷ q)
unfolding push
push-perm k [] = Perm.refl _
push-perm k (x ∷ q) = elim (Bool-cases (leb k.expire_ts x.expire_ts)) [
  | inl e ↦ rw e (Perm.refl _)
  | inr e ↦ rw e (Perm.trans (Perm.cons x (push-perm k q)) (Perm.swap k x q))
]

-- A sweep splits the queue.
pub record Swept (now : ℕ) (q : List ExpiryKey) (out : List ExpiryKey × List ExpiryKey)
    : Type 0 where
  pub whole : out.0 ++ out.1 ≡ q
  pub due : All (λ k. k.expire_ts ≤ now) out.0
  pub later : All (λ k. now < k.expire_ts) out.1
  pub sorted : IsSorted out.1

later-All :
    (now a : ℕ) (q : List ExpiryKey)
    → now < a
    → All (λ j. a ≤ j.expire_ts) q
    → All (λ j. now < j.expire_ts) q
later-All now a [] h k = tt
later-All now a (x ∷ q) h k = (omega arith, later-All now a q h k.1)

sweep-Swept : (now : ℕ) (q : List ExpiryKey) → IsSorted q → Swept now q (sweep now q)
unfolding sweep
sweep-Swept now [] s = record { whole = refl; due = tt; later = tt; sorted = tt }
sweep-Swept now (k ∷ q) s = elim (Bool-cases (leb k.expire_ts now)) [
  | inl e ↦
      let ih = sweep-Swept now q s.1 in
      rw (e, sweep)
        (record {
          whole = ap (λ t. k ∷ t) ih.whole;
          due = (ground arith, ih.due);
          later = ih.later;
          sorted = ih.sorted;
        })
  | inr e ↦
      let lt : now < k.expire_ts = ground arith in
      rw (e, sweep)
        (record {
          whole = refl;
          due = tt;
          later = (lt, later-All now k.expire_ts q lt s.0);
          sorted = s;
        })
]

-- Sweeping a queue in order of time returns the orders whose time is not after `now`, keeps those
-- whose time is after it, loses none and repeats none, and leaves the queue in order.
pub sweep_expired_lem :
    (m : OrderExpiryManager) (now : ℕ)
    → IsSorted m.expiry_pq
    → let (due, m') = sweep_expired m now in Swept now m.expiry_pq (due, m'.expiry_pq)
unfolding sweep_expired
sweep_expired_lem m now s =
    let w = sweep-Swept now m.expiry_pq s in
    record { whole = w.whole; due = w.due; later = w.later; sorted = w.sorted }

-- Registering an order keeps the queue in order and adds exactly the order's key to it.
pub register_expiry_lem :
    (m : OrderExpiryManager) (ticker : String) (side : Side) (ps : Option PositionSide)
    (layer id : ℕ) (st : OmOrderState) (now : ℕ)
    → IsSorted m.expiry_pq
    → let q = (register_expiry m ticker side ps layer id st now).expiry_pq in
      IsSorted q × Perm q (key_of m ticker side ps layer id st now ∷ m.expiry_pq)
unfolding register_expiry
register_expiry_lem m ticker side ps layer id st now s =
    (push-IsSorted _ m.expiry_pq s, push-perm _ m.expiry_pq)
