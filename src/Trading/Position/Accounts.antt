-- ===== src/Trading/Position/Accounts.antt =====
-- What every fill and every price keep of the position of hft/src/position_keeper.cpp.
use hft.Prelude.{
  ◌≡◌, ◌∙◌, sym, refl, ◌||◌, Option, none, some, ◌⊎◌, inl, inr, Bool-cases, if◌then◌else◌, arith,
}
use hft.Prelude.Int.{ℤ, pos, ◌+ℤ◌, ◌-ℤ◌, ◌≤ℤ◌, ltb_ℤ, leb_ℤ, eqb_ℤ, int_laws}
use hft.Common.Types.{
  Side, buy, sell, trade, invalid_side, PositionSide, long, short, invalid_position_side, is_buy,
}
use hft.Trading.StateManager.{ExecutionReport}
use hft.Trading.Position.{
  PositionInfo, is_sell, flat, close_long, close_short, fill_hedge, fill_net, mark_net, mark_hedge,
  realise, count_fill, add_fill, update_bbo,
}
use hft.Trading.Position.Net.{CostsFit, net_costs}

-- The accounts of a position.
pub record Accounts (p : PositionInfo) : Type 0 where
  pub costs : CostsFit p
  pub long_size : pos 0 ≤ℤ p.long_position_raw
  pub short_size : pos 0 ≤ℤ p.short_position_raw
  pub total : p.total_pnl ≡ p.unreal_pnl +ℤ p.real_pnl
  pub at_rest : p.position ≡ pos 0 → p.unreal_pnl ≡ pos 0

-- A fill is on one of the two sides, for a quantity that is not negative.
pub record IsFill (r : ExecutionReport) : Type 0 where
  pub quantity : pos 0 ≤ℤ r.last_qty
  pub sided : (r.side ≡ buy) ⊎ (r.side ≡ sell)

pub flat-Accounts : Accounts flat
unfolding ◌+ℤ◌
flat-Accounts = record {
  costs = record { no_buy = λ _. refl; no_sell = λ _. refl };
  long_size = omega arith;
  short_size = omega arith;
  total = refl;
  at_rest = λ _. refl;
}

-- The long and the short position do not touch the net one, and stay sizes.
record HedgeFrame (p n : PositionInfo) : Type 0 where
  position : n.position ≡ p.position
  buys : n.open_vwap_buy ≡ p.open_vwap_buy
  sells : n.open_vwap_sell ≡ p.open_vwap_sell
  long_size : pos 0 ≤ℤ n.long_position_raw
  short_size : pos 0 ≤ℤ n.short_position_raw

clamped : (a : ℤ) → pos 0 ≤ℤ (if ltb_ℤ a (pos 0) then pos 0 else a)
clamped a = ground arith

fill_hedge-frame :
    (p : PositionInfo) (side : Side) (ps : Option PositionSide) (price q : ℤ)
    → pos 0 ≤ℤ q
    → pos 0 ≤ℤ p.long_position_raw
    → pos 0 ≤ℤ p.short_position_raw
    → HedgeFrame p (fill_hedge p side ps price q)
unfolding fill_hedge close_long close_short
fill_hedge-frame p side (some long) price q h l s = elim (Bool-cases (is_buy side)) [
  | inl e ↦
      rw (e, fill_hedge)
        (record {
          position = refl;
          buys = refl;
          sells = refl;
          long_size = omega int_laws;
          short_size = s;
        })
  | inr e ↦
      rw (e, fill_hedge)
        (record {
          position = refl;
          buys = refl;
          sells = refl;
          short_size = s;
          long_size = clamped (p.long_position_raw -ℤ q);
        })
]
fill_hedge-frame p side (some short) price q h l s = elim (Bool-cases (is_sell side)) [
  | inl e ↦
      rw (e, fill_hedge)
        (record {
          position = refl;
          buys = refl;
          sells = refl;
          long_size = l;
          short_size = omega int_laws;
        })
  | inr e ↦
      rw (e, fill_hedge)
        (record {
          position = refl;
          buys = refl;
          sells = refl;
          long_size = l;
          short_size = clamped (p.short_position_raw -ℤ q);
        })
]
fill_hedge-frame p side (some invalid_position_side) price q h l s = record {
  position = refl;
  buys = refl;
  sells = refl;
  long_size = l;
  short_size = s;
}
fill_hedge-frame p side none price q h l s = record {
  position = refl;
  buys = refl;
  sells = refl;
  long_size = l;
  short_size = s;
}

net_hedge :
    (p : PositionInfo) (old : ℤ) (side : Side) (price q : ℤ)
    → (side ≡ buy) ⊎ (side ≡ sell)
    → let n = (fill_net p old side price q).0 in
      (n.long_position_raw ≡ p.long_position_raw) × (n.short_position_raw ≡ p.short_position_raw)
unfolding fill_net
net_hedge p old buy price q _ = ground arith
net_hedge p old sell price q _ = ground arith
net_hedge p old trade price q (inl e) = absurd cc
net_hedge p old trade price q (inr e) = absurd cc
net_hedge p old invalid_side price q (inl e) = absurd cc
net_hedge p old invalid_side price q (inr e) = absurd cc

-- What is left of the accounts once the net position has been settled.
mark_net-rest :
    (n : PositionInfo) (price : ℤ)
    → ((mark_net n price).position ≡ n.position)
      × ((mark_net n price).long_position_raw ≡ n.long_position_raw)
      × ((mark_net n price).short_position_raw ≡ n.short_position_raw)
      × (n.position ≡ pos 0 → (mark_net n price).unreal_pnl ≡ pos 0)
unfolding mark_net
mark_net-rest n price = elim (Bool-cases (eqb_ℤ n.position (pos 0))) [
  | inl e ↦ rw (e, mark_net) (refl, refl, refl, λ _. refl)
  | inr e ↦ rw (e, mark_net) (refl, refl, refl, λ h. absurd (ground (arith, e, h)))
]

settled :
    (m : PositionInfo) (price delta : ℤ) (ps : Option PositionSide)
    → CostsFit m
    → pos 0 ≤ℤ m.long_position_raw
    → pos 0 ≤ℤ m.short_position_raw
    → (m.position ≡ pos 0 → m.unreal_pnl ≡ pos 0)
    → Accounts (realise (mark_hedge m price) ps delta)
unfolding realise mark_hedge
settled m price delta none c l s z = record {
  costs = record { no_buy = c.no_buy; no_sell = c.no_sell };
  long_size = l;
  short_size = s;
  total = refl;
  at_rest = z;
}
settled m price delta (some x) c l s z = record {
  costs = record { no_buy = c.no_buy; no_sell = c.no_sell };
  long_size = l;
  short_size = s;
  total = refl;
  at_rest = z;
}

-- Whatever fill arrives, and whatever came before, the accounts of a position stay in order: the net
-- position has a cost on its own side only, the long and the short position are not negative, the
-- total is the sum of what is realised and what is not, and a flat position has nothing unrealised.
-- The fill is on one of the two sides, for a quantity that is not negative.
pub add_fill-Accounts :
    (p : PositionInfo) (r : ExecutionReport) → Accounts p → IsFill r → Accounts (add_fill p r)
unfolding add_fill
add_fill-Accounts p r a f =
    let f1 =
      fill_hedge-frame (count_fill p r) r.side r.position_side r.price r.last_qty f.quantity
        a.long_size a.short_size in
    let counted = fill_hedge (count_fill p r) r.side r.position_side r.price r.last_qty in
    let n = fill_net counted p.position r.side r.price r.last_qty in
    let h = net_hedge counted p.position r.side r.price r.last_qty f.sided in
    let c =
      net_costs counted p.position r.price r.last_qty r.side f.sided
        (record {
          no_buy = λ x. f1.buys ∙ a.costs.no_buy x;
          no_sell = λ x. f1.sells ∙ a.costs.no_sell x;
        })
        f.quantity f1.position in
    let (same, l, s, z) = mark_net-rest n.0 r.price in
    settled (mark_net n.0 r.price) r.price n.1 r.position_side c (rw (l, h.0) f1.long_size)
      (rw (s, h.1) f1.short_size) (λ e. z (sym same ∙ e))

-- A price of the market keeps the accounts in order too, and changes neither the position nor what
-- is realised.
pub update_bbo-Accounts :
    (p : PositionInfo) (bid ask : ℤ)
    → Accounts p
    → Accounts (update_bbo p bid ask)
      × ((update_bbo p bid ask).position ≡ p.position)
      × ((update_bbo p bid ask).real_pnl ≡ p.real_pnl)
unfolding update_bbo mark_hedge
update_bbo-Accounts p bid ask a = elim (Bool-cases (leb_ℤ bid (pos 0) || leb_ℤ ask (pos 0))) [
  | inl e ↦ rw (e, update_bbo) (a, refl, refl)
  | inr e ↦ elim (Bool-cases (eqb_ℤ p.position (pos 0))) [
    | inl z ↦
        rw (e, z, update_bbo)
          (
            record {
              costs = record { no_buy = a.costs.no_buy; no_sell = a.costs.no_sell };
              long_size = a.long_size;
              short_size = a.short_size;
              total = refl;
              at_rest = a.at_rest;
            },
            refl,
            refl,
          )
    | inr z ↦
        rw (e, z, update_bbo)
          (
            record {
              costs = record { no_buy = a.costs.no_buy; no_sell = a.costs.no_sell };
              long_size = a.long_size;
              short_size = a.short_size;
              total = refl;
              at_rest = λ h. absurd (ground (arith, z, h));
            },
            refl,
            refl,
          )
  ]
]
