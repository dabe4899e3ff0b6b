-- ===== src/Risk/Types.antt =====
-- The data of services/risk/engine.py and advanced.py. A check keeps its name and its outcome; the
-- texts of the details, which only print the values compared, are left out.
use apex_trader.Base.{ℕ, String, Bool, true, false, List}
use apex_trader.Governance.Models.{Reason as GovernanceReason}

pub data RiskVerdict : Type 0 where
  approved rejected reduced halted : RiskVerdict

pub record RiskState (F : Type 0) : Type 0 where
  pub equity : F
  pub cash : F
  pub daily_pnl : F
  pub weekly_pnl : F
  pub peak_equity : F
  pub open_positions : ℕ
  pub portfolio_heat_pct : F
  pub consecutive_losses : ℕ
  pub emergency_halt : Bool
  pub circuit_breaker : Bool

-- `AdvancedRiskState`; its own fields follow those of the state that it extends.
pub record AdvancedRiskState (F : Type 0) : Type 0 where
  pub base : RiskState F
  pub monthly_pnl : F
  pub sector_exposure : List (String × F)
  pub correlation_exposure : List (String × F)
  pub disabled_strategies : List String
  pub black_swan_mode : Bool
  pub safe_mode : Bool
  pub data_quality_score : F

pub record TradeProposal (F : Type 0) : Type 0 where
  pub symbol : String
  pub asset_class : String
  pub side : String
  pub entry : F
  pub stop_loss : F
  pub take_profit : F
  pub qty : F
  pub confidence : F
  pub strategy : String
  pub regime : String
  pub liquidity_score : F
  pub volatility_pct : F
  pub correlation_bucket : String

pub record RiskCheck : Type 0 where
  pub name : String
  pub passed : Bool

-- What `_validate_entry` finds, in place of its messages.
pub data EntryResult : Type 0 where
  below_one_share stop_not_below_entry already_held market_closed : EntryResult
  price_deviates entry_passed : EntryResult

-- The reason of a decision, with the name of the check or the number that it prints.
pub data Reason (F : Type 0) : Type 0 where
  invalid_numbers emergency_shutdown circuit_breaker_triggered all_passed : Reason F
  check_failed : String → Reason F
  loss_streak : ℕ → Reason F
  no_new_trades : Reason F
  strategy_disabled : String → Reason F
  low_data_quality : F → Reason F
  governance : GovernanceReason F → Reason F
  entry_validation : EntryResult → Reason F

pub record RiskDecision (F : Type 0) : Type 0 where
  pub verdict : RiskVerdict
  pub approved_qty : F
  pub checks : List RiskCheck
  pub reason : Reason F
  pub size_multiplier : F

-- `RiskDecision.approved`
unfoldable pub is_approved : {F : Type 0} → RiskDecision F → Bool
is_approved d = elim d.verdict [
  | RiskVerdict.approved ↦ true
  | RiskVerdict.reduced ↦ true
  | _ ↦ false
]
