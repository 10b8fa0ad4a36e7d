-- ===== src/Trading/Position.antt =====
-- hft/src/position_keeper.cpp: the position, its cost and its profit, by fills and by the market.
-- `bbo_` is kept only for printing and is left out; logging is left out.
pub mod Accounts
pub mod Net
use hft.Prelude.{
  ℕ, zero, suc, ◌+◌, ◌≡◌, Bool, true, false, ◌&&◌, ◌||◌, Option, none, some, List, [], ◌∷◌,
  if◌then◌else◌,
}
use hft.Prelude.Int.{ℤ, pos, negsuc, ◌+ℤ◌, ◌-ℤ◌, ◌*ℤ◌, ◌/ℤ◌, abs, min_ℤ, ltb_ℤ, leb_ℤ, eqb_ℤ}
use hft.Common.Types.{
  Side, buy, sell, PositionSide, long, short, invalid_position_side, is_buy, side_to_value,
  side_to_index, opp_index,
}
use hft.Trading.StateManager.{ExecutionReport}

-- `open_vwap_` is the two fields, by the index of the side.
pub record PositionInfo : Type 0 where
  pub position : ℤ
  pub long_position_raw : ℤ
  pub short_position_raw : ℤ
  pub long_cost : ℤ
  pub short_cost : ℤ
  pub long_real_pnl : ℤ
  pub long_unreal_pnl : ℤ
  pub short_real_pnl : ℤ
  pub short_unreal_pnl : ℤ
  pub real_pnl : ℤ
  pub unreal_pnl : ℤ
  pub total_pnl : ℤ
  pub open_vwap_buy : ℤ
  pub open_vwap_sell : ℤ
  pub volume : ℤ

abbrev pub flat : PositionInfo
flat = record {
  position = pos 0;
  long_position_raw = pos 0;
  short_position_raw = pos 0;
  long_cost = pos 0;
  short_cost = pos 0;
  long_real_pnl = pos 0;
  long_unreal_pnl = pos 0;
  short_real_pnl = pos 0;
  short_unreal_pnl = pos 0;
  real_pnl = pos 0;
  unreal_pnl = pos 0;
  total_pnl = pos 0;
  open_vwap_buy = pos 0;
  open_vwap_sell = pos 0;
  volume = pos 0;
}

-- `open_vwap_[idx]`, read and written; only 0 and 1 are in range.
abbrev pub vwap_at : PositionInfo → ℕ → ℤ
vwap_at p zero = p.open_vwap_buy
vwap_at p (suc _) = p.open_vwap_sell

abbrev pub set_vwap : PositionInfo → ℕ → ℤ → PositionInfo
set_vwap p zero v = record p { open_vwap_buy = v }
set_vwap p (suc _) v = record p { open_vwap_sell = v }

abbrev pub size_of : ℤ → ℤ
size_of p = pos (abs p)

-- A sale of a long position closes what there is of it.
unfoldable pub close_long : PositionInfo → ℤ → ℤ → PositionInfo
close_long p price last_qty =
    let close_qty = min_ℤ last_qty p.long_position_raw in
    let vwap = p.long_cost /ℤ p.long_position_raw in
    let closes = ltb_ℤ (pos 0) p.long_position_raw && ltb_ℤ (pos 0) close_qty in
    let left = p.long_position_raw -ℤ last_qty in
    let real =
      if closes then p.long_real_pnl +ℤ (price -ℤ vwap) *ℤ close_qty else p.long_real_pnl in
    let cost = if closes then p.long_cost -ℤ vwap *ℤ close_qty else p.long_cost in
    let over = ltb_ℤ left (pos 0) in
    record p {
      long_real_pnl = real;
      long_position_raw = if over then pos 0 else left;
      long_cost = if over then pos 0 else cost;
    }

-- A purchase of a short position closes what there is of it.
unfoldable pub close_short : PositionInfo → ℤ → ℤ → PositionInfo
close_short p price last_qty =
    let close_qty = min_ℤ last_qty p.short_position_raw in
    let vwap = p.short_cost /ℤ p.short_position_raw in
    let closes = ltb_ℤ (pos 0) p.short_position_raw && ltb_ℤ (pos 0) close_qty in
    let left = p.short_position_raw -ℤ last_qty in
    let real =
      if closes then p.short_real_pnl +ℤ (vwap -ℤ price) *ℤ close_qty else p.short_real_pnl in
    let cost = if closes then p.short_cost -ℤ vwap *ℤ close_qty else p.short_cost in
    let over = ltb_ℤ left (pos 0) in
    record p {
      short_real_pnl = real;
      short_position_raw = if over then pos 0 else left;
      short_cost = if over then pos 0 else cost;
    }

abbrev pub is_sell : Side → Bool
is_sell sell = true
is_sell _ = false

-- The long and the short position, if the report names one.
unfoldable pub fill_hedge : PositionInfo → Side → Option PositionSide → ℤ → ℤ → PositionInfo
fill_hedge p side (some long) price last_qty =
    if is_buy side
    then record p {
      long_cost = p.long_cost +ℤ price *ℤ last_qty;
      long_position_raw = p.long_position_raw +ℤ last_qty;
    }
    else close_long p price last_qty
fill_hedge p side (some short) price last_qty =
    if is_sell side
    then record p {
      short_cost = p.short_cost +ℤ price *ℤ last_qty;
      short_position_raw = p.short_position_raw +ℤ last_qty;
    }
    else close_short p price last_qty
fill_hedge p side (some invalid_position_side) price last_qty = p
fill_hedge p side none price last_qty = p

-- The cost of the net position, and what the fill realises; `position` is the new one already.
unfoldable pub fill_net : PositionInfo → ℤ → Side → ℤ → ℤ → PositionInfo × ℤ
fill_net p old_position side price last_qty =
    let idx = side_to_index side in
    let opp = opp_index idx in
    let sgn = side_to_value side in
    if leb_ℤ (pos 0) (old_position *ℤ sgn)
    then (set_vwap p idx (vwap_at p idx +ℤ price *ℤ last_qty), pos 0)
    else let opp_vwap = vwap_at p opp /ℤ size_of old_position in
      let delta = min_ℤ last_qty (size_of old_position) *ℤ (opp_vwap -ℤ price) *ℤ sgn in
      (
        if ltb_ℤ (p.position *ℤ old_position) (pos 0)
            then set_vwap (set_vwap p idx (price *ℤ size_of p.position)) opp (pos 0)
            else set_vwap p opp (opp_vwap *ℤ size_of p.position),
        delta,
      )

-- The unrealised profit of a net position that is not flat, at a price.
abbrev pub net_unreal : PositionInfo → ℤ → ℤ
net_unreal p price =
    if ltb_ℤ (pos 0) p.position
    then price *ℤ size_of p.position -ℤ p.open_vwap_buy
    else p.open_vwap_sell -ℤ price *ℤ size_of p.position

unfoldable pub mark_net : PositionInfo → ℤ → PositionInfo
mark_net p price =
    if eqb_ℤ p.position (pos 0)
    then record p { unreal_pnl = pos 0; open_vwap_buy = pos 0; open_vwap_sell = pos 0 }
    else record p { unreal_pnl = net_unreal p price }

-- The unrealised profit of the long and the short position, at a price.
unfoldable pub mark_hedge : PositionInfo → ℤ → PositionInfo
mark_hedge p price = record p {
  long_unreal_pnl =
      if ltb_ℤ (pos 0) p.long_position_raw
      then (price -ℤ p.long_cost /ℤ p.long_position_raw) *ℤ p.long_position_raw
      else pos 0;
  short_unreal_pnl =
      if ltb_ℤ (pos 0) p.short_position_raw
      then (p.short_cost /ℤ p.short_position_raw -ℤ price) *ℤ p.short_position_raw
      else pos 0;
}

unfoldable pub realise : PositionInfo → Option PositionSide → ℤ → PositionInfo
realise p (some _) delta =
    let real = p.long_real_pnl +ℤ p.short_real_pnl in
    record p { real_pnl = real; total_pnl = p.unreal_pnl +ℤ real }
realise p none delta =
    let real = p.real_pnl +ℤ delta in record p { real_pnl = real; total_pnl = p.unreal_pnl +ℤ real }

abbrev pub count_fill : PositionInfo → ExecutionReport → PositionInfo
count_fill p r = record p {
  position = p.position +ℤ r.last_qty *ℤ side_to_value r.side;
  volume = p.volume +ℤ r.last_qty;
}

-- `PositionInfo::add_fill`
unfoldable pub add_fill : PositionInfo → ExecutionReport → PositionInfo
add_fill p r =
    let counted = fill_hedge (count_fill p r) r.side r.position_side r.price r.last_qty in
    let (netted, delta) = fill_net counted p.position r.side r.price r.last_qty in
    realise (mark_hedge (mark_net netted r.price) r.price) r.position_side delta

-- `PositionInfo::update_bbo`, at the two prices of the book
unfoldable pub update_bbo : PositionInfo → ℤ → ℤ → PositionInfo
update_bbo p bid ask =
    if leb_ℤ bid (pos 0) || leb_ℤ ask (pos 0)
    then p
    else let mid = (bid +ℤ ask) /ℤ pos 2 in
      let marked =
        if eqb_ℤ p.position (pos 0) then p else record p { unreal_pnl = net_unreal p mid } in
      let hedged = mark_hedge marked mid in
      record hedged { total_pnl = hedged.unreal_pnl +ℤ hedged.real_pnl }
