-- ===== src/Trading/Risk.antt =====
-- hft/src/risk_manager.cpp: the check of an order before it is sent. The ticker's `RiskInfo` is an
-- argument: its limits, and the position and profit that it reads.
use hft.Prelude.{◌≡◌, ◌↔◌, if◌then◌else◌, arith}
use hft.Prelude.Int.{ℤ, ◌+ℤ◌, ◌*ℤ◌, ◌≤ℤ◌, ltb_ℤ}
use hft.Common.Types.{Side, side_to_value}
use hft.Trading.Position.{PositionInfo}

pub data RiskCheckResult : Type 0 where
  order_too_large position_too_large position_too_small loss_too_large allowed : RiskCheckResult

pub record RiskCfg : Type 0 where
  pub max_order_size : ℤ
  pub max_position : ℤ
  pub min_position : ℤ
  pub max_loss : ℤ

pub record RiskInfo : Type 0 where
  pub position_info : PositionInfo
  pub risk_cfg : RiskCfg

-- The position after the order and all that is reserved.
abbrev pub projected : RiskInfo → Side → ℤ → ℤ → ℤ
projected i side qty reserved = i.position_info.position +ℤ reserved +ℤ side_to_value side *ℤ qty

unfoldable pub check_pre_trade_risk : RiskInfo → Side → ℤ → ℤ → RiskCheckResult
check_pre_trade_risk i side qty reserved =
    if ltb_ℤ i.risk_cfg.max_order_size qty
    then order_too_large
    else if ltb_ℤ i.risk_cfg.max_position (projected i side qty reserved)
    then position_too_large
    else if ltb_ℤ (projected i side qty reserved) i.risk_cfg.min_position
    then position_too_small
    else if ltb_ℤ i.position_info.total_pnl i.risk_cfg.max_loss
    then loss_too_large
    else allowed

-- An order is allowed exactly if it is no larger than an order may be, the position it leads to is
-- within both limits, and the loss is within its limit.
pub check_pre_trade_risk-allowed :
    (i : RiskInfo) (side : Side) (qty reserved : ℤ)
    → (check_pre_trade_risk i side qty reserved ≡ allowed) ↔ (
        (qty ≤ℤ i.risk_cfg.max_order_size)
        × (projected i side qty reserved ≤ℤ i.risk_cfg.max_position)
        × (i.risk_cfg.min_position ≤ℤ projected i side qty reserved)
        × (i.risk_cfg.max_loss ≤ℤ i.position_info.total_pnl))
unfolding check_pre_trade_risk
check_pre_trade_risk-allowed i side qty reserved = (λ h. ground arith, λ h. ground arith)
