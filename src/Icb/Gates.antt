-- ===== src/Icb/Gates.antt =====
-- services/icb/engine.py: what `_authorize_inner` lets through.
use apex_trader.Base.{
  refl, Bool-cases, ◌≡◌, inl, inr, String, Bool, true, false, not, ◌&&◌, if◌then◌else◌, leb,
}
use apex_trader.Config.{Settings, is_live}
use apex_trader.Icb.SystemState.{SystemState, safe_mode, active, paused, emergency_lock}
use apex_trader.Icb.Types.{
  Action, is_trading, is_entry, needs_market, survives_lock, is_exit, is_chaos, is_ok, IcbResult,
  allowed, halted_portfolio, market_open,
}
use apex_trader.Icb.Authority.{
  Context, first, chaos_gate, state_gate, signal_gate, context_gate, authorize_inner, risk_blocks,
}

-- The states in which an action may be carried out at all.
abbrev pub state_permits : SystemState → Action → Bool
state_permits active action = true
state_permits paused action = not (is_entry action)
state_permits safe_mode action = not (is_trading action)
state_permits emergency_lock action = survives_lock action

and_true : (b : Bool) → (b && true) ≡ b
and_true true = refl
and_true false = refl

state_gate-allowed :
    (s : SystemState) (why safe_why : String) (action : Action) (rest : IcbResult)
    → allowed (first (state_gate s why safe_why action) rest)
      ≡ (state_permits s action && allowed rest)
unfolding state_gate allowed
state_gate-allowed active why safe_why action rest = refl
state_gate-allowed paused why safe_why action rest = elim (Bool-cases (is_entry action)) [
  | inl e ↦ rw e
  | inr e ↦ rw e
]
state_gate-allowed safe_mode why safe_why action rest = elim (Bool-cases (is_trading action)) [
  | inl e ↦ rw e
  | inr e ↦ rw e
]
state_gate-allowed emergency_lock why safe_why action rest =
    elim (Bool-cases (survives_lock action)) [ inl e ↦ rw e | inr e ↦ rw e ]

module _ {F : Type 0} where
  -- The conditions on the signals.
  abbrev pub signals_permit : Settings F → Action → Context → Bool
  signals_permit cfg action ctx =
      not (ctx.signals.reconciliation_degraded && is_trading action)
      && (not (leb cfg.icb_drift_restrict_threshold ctx.signals.drift_count && is_entry action)
          && (not (is_live cfg.trading_mode && not (is_ok ctx.signals.crce_integrity))
              && not (is_live cfg.trading_mode && is_trading action && not ctx.chaos_approved)))

  -- The conditions on the risk status, the market's hours and the portfolio.
  abbrev pub context_permits : Settings F → Action → Context → Bool
  context_permits cfg action ctx =
      not (is_trading action && risk_blocks ctx.risk_status)
      && (not (needs_market action && not (market_open cfg.enforce_market_hours ctx.clock))
          && not (halted_portfolio ctx.portfolio && is_trading action && not (is_exit action)))

  signal_gate-allowed :
      (cfg : Settings F) (s : SystemState) (action : Action) (ctx : Context) (rest : IcbResult)
      → allowed (first (signal_gate cfg s action ctx) rest)
        ≡ (signals_permit cfg action ctx && allowed rest)
  unfolding signal_gate allowed
  signal_gate-allowed cfg s action ctx rest =
      elim (Bool-cases (ctx.signals.reconciliation_degraded && is_trading action)) [
        | inl e ↦ rw e
        | inr e ↦
            rw e
              (elim (Bool-cases
                (leb cfg.icb_drift_restrict_threshold ctx.signals.drift_count && is_entry action)) [
                  | inl f ↦ rw f
                  | inr f ↦
                      rw f
                        (elim (Bool-cases
                          (is_live cfg.trading_mode && not (is_ok ctx.signals.crce_integrity))) [
                            | inl g ↦ rw g
                            | inr g ↦
                                rw g
                                  (elim (Bool-cases (
                                    is_live cfg.trading_mode
                                    && is_trading action
                                    && not ctx.chaos_approved)) [ inl h ↦ rw h | inr h ↦ rw h ])
                          ])
                ])
      ]

  context_gate-allowed :
      (cfg : Settings F) (s : SystemState) (action : Action) (ctx : Context) (rest : IcbResult)
      → allowed (first (context_gate cfg s action ctx) rest)
        ≡ (context_permits cfg action ctx && allowed rest)
  unfolding context_gate allowed
  context_gate-allowed cfg s action ctx rest =
      elim (Bool-cases (is_trading action && risk_blocks ctx.risk_status)) [
        | inl e ↦ rw e
        | inr e ↦
            rw e
              (elim (Bool-cases
                (needs_market action && not (market_open cfg.enforce_market_hours ctx.clock))) [
                  | inl f ↦ rw f
                  | inr f ↦
                      rw f
                        (elim (Bool-cases (
                          halted_portfolio ctx.portfolio
                          && is_trading action
                          && not (is_exit action))) [ inl g ↦ rw g | inr g ↦ rw g ])
                ])
      ]

  -- All the conditions on an action that is not a chaos test.
  abbrev pub permitted : Settings F → SystemState → Action → Context → Bool
  permitted cfg s action ctx =
      state_permits s action && (signals_permit cfg action ctx && context_permits cfg action ctx)

  gates-allowed :
      (cfg : Settings F) (s : SystemState) (why safe_why : String) (action : Action) (ctx : Context)
      (last : IcbResult)
      → allowed last ≡ true
      → allowed (
          first
            (state_gate s why safe_why action)
            (first (signal_gate cfg s action ctx) (first (context_gate cfg s action ctx) last)))
        ≡ permitted cfg s action ctx
  gates-allowed cfg s why safe_why action ctx last h =
      simp (state_gate-allowed, signal_gate-allowed, context_gate-allowed, h, and_true)

  -- The decision allows an action that is no chaos test exactly when all the conditions hold, and a
  -- chaos test exactly when the autonomous engine is not running.
  pub authorize_inner-allowed :
      (cfg : Settings F) (s : SystemState) (why safe_why : String) (action : Action) (ctx : Context)
      → allowed (authorize_inner cfg s why safe_why action ctx)
        ≡ (if is_chaos action then not ctx.autonomous_running else permitted cfg s action ctx)
  unfolding authorize_inner chaos_gate allowed
  authorize_inner-allowed cfg s why safe_why action ctx = elim (Bool-cases (is_chaos action)) [
    | inl chaos ↦
        rw chaos (elim (Bool-cases ctx.autonomous_running) [ inl on ↦ rw on | inr off ↦ rw off ])
    | inr plain ↦ rw plain (gates-allowed cfg s why safe_why action ctx _ refl)
  ]
