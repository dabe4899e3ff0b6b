-- ===== src/Governance/Models.antt =====
-- services/governance/states.py and models.py. A message that the source formats from values is a
-- constructor that carries them; only `text ""` is the empty text, which Python takes for false.
use apex_trader.Base.{ℕ, String, Bool, true, false, if◌then◌else◌, str_eq}
use apex_trader.Base.Floats.{FloatOps, num, ratio}

pub data StrategyState : Type 0 where
  active throttled paused disabled killed : StrategyState

-- `state in TRADEABLE_STATES`
unfoldable pub is_tradeable_state : StrategyState → Bool
is_tradeable_state active = true
is_tradeable_state throttled = true
is_tradeable_state _ = false

pub data Reason (F : Type 0) : Type 0 where
  text : String → Reason F
  set_to : StrategyState → String → Reason F
  auto_disabled : F → F → Reason F
  not_recommended : String → String → Reason F
  throttled_to : F → Reason F
  strategy_is : StrategyState → Reason F

-- `a or b` between messages
abbrev pub reason_or : {F : Type 0} → Reason F → Reason F → Reason F
reason_or (Reason.text s) other = if str_eq s "" then other else Reason.text s
reason_or r other = r

pub record StrategyRecord (F : Type 0) : Type 0 where
  pub name : String
  pub state : StrategyState
  pub reason : Reason F
  pub throttle_factor : F
  pub trades : ℕ
  pub wins : ℕ
  pub total_pnl : F
  pub win_rate : F
  pub updated_at : String
  pub updated_by : String

pub record GovernanceDecision (F : Type 0) : Type 0 where
  pub allowed : Bool
  pub state : StrategyState
  pub reason : Reason F
  pub size_multiplier : F

module _ {F : Type 0} ⦃o : FloatOps F⦄ where
  -- 0.5
  abbrev pub default_throttle_factor : F
  default_throttle_factor = ratio 1 2

  -- `StrategyRecord(name=name)`, made at the time `now`
  unfoldable pub new_record : String → String → StrategyRecord F
  new_record now name = record {
    name = name;
    state = active;
    reason = Reason.text "";
    throttle_factor = ratio 1 2;
    trades = 0;
    wins = 0;
    total_pnl = num 0;
    win_rate = num 0;
    updated_at = now;
    updated_by = "system";
  }

  -- `to_dict`: what is written down has its money rounded to paise and its rate to a tenth.
  unfoldable pub to_dict : StrategyRecord F → StrategyRecord F
  to_dict r = record r { total_pnl = o.round r.total_pnl 2; win_rate = o.round r.win_rate 1 }
