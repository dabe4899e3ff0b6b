-- ===== src/Governance/Resolution.antt =====
-- services/governance/engine.py: the strategies that `resolve_allowed` lets through, and those that
-- the risk layer blocks.
use apex_trader.Base.{
  ◌≡◌, refl, String, Bool, true, false, Option, none, some, List, [], ◌∷◌, arith, eq_iff, not, inl,
  inr, Option-cases,
}
use apex_trader.Base.Floats.{FloatOps}
use apex_trader.Base.Dict.{contains, lookup}
use apex_trader.Governance.Models.{StrategyRecord, is_tradeable_state}
use apex_trader.Governance.Policy.{evaluate_strategy, evaluate_strategy-allowed_iff}
use apex_trader.Governance.Store.{Records}
use apex_trader.Governance.Engine.{
  Engine, lab_set, resolve_records, resolve_allowed, disabled_records, disabled_for_risk,
}

module _ {F : Type 0} ⦃o : FloatOps F⦄ where
  -- A dict holds each key once.
  abbrev pub IsDict : Records F → Type 0
  IsDict [] = Unit {0}
  IsDict ((n, r) ∷ rs) = (lookup n rs ≡ none) × IsDict rs

  abbrev pub allowed_at : Option (StrategyRecord F) → String → List String → Bool → Bool
  allowed_at none regime recommended lab_enabled = false
  allowed_at (some r) regime recommended lab_enabled =
      (evaluate_strategy r regime recommended lab_enabled).allowed

  resolve_records-none :
      (n regime : String) (recommended lab : List String) (rs : Records F)
      → lookup n rs ≡ none
      → contains (resolve_records regime recommended lab rs).0 n ≡ false
  unfolding resolve_records
  resolve_records-none n regime recommended lab [] h = refl
  resolve_records-none n regime recommended lab ((m, r) ∷ rs) h =
      ground (arith, resolve_records-none n regime recommended lab rs)

  resolve_records-allowed :
      (n regime : String) (recommended lab : List String) (rs : Records F)
      → IsDict rs
      → contains (resolve_records regime recommended lab rs).0 n
        ≡ allowed_at (lookup n rs) regime recommended (contains lab n)
  unfolding resolve_records
  resolve_records-allowed n regime recommended lab [] h = refl
  resolve_records-allowed n regime recommended lab ((m, r) ∷ rs) h = ground (
    arith,
    eq_iff m n,
    resolve_records-none m regime recommended lab rs,
    resolve_records-allowed n regime recommended lab rs h.1,
  )

  -- Where the records hold each name once, a strategy is among the allowed ones exactly when it is on
  -- record and its record's evaluation, with its own membership of the lab's set, allows it.
  pub resolve_allowed_lem :
      (n regime : String) (recommended lab : List String) (e : Engine F)
      → IsDict e.records
      → contains (resolve_allowed regime recommended lab e).0 n
        ≡ allowed_at (lookup n e.records) regime recommended (contains (lab_set lab) n)
  unfolding resolve_allowed
  resolve_allowed_lem n regime recommended lab e h =
      resolve_records-allowed n regime recommended (lab_set lab) e.records h

  disabled_records-none :
      (n : String) (rs : Records F) → lookup n rs ≡ none → contains (disabled_records rs) n ≡ false
  unfolding disabled_records
  disabled_records-none n [] h = refl
  disabled_records-none n ((m, r) ∷ rs) h = ground (arith, disabled_records-none n rs)

  abbrev disabled_at : Option (StrategyRecord F) → Bool
  disabled_at none = false
  disabled_at (some r) = not (is_tradeable_state r.state)

  disabled_records-at :
      (n : String) (rs : Records F)
      → IsDict rs
      → contains (disabled_records rs) n ≡ disabled_at (lookup n rs)
  unfolding disabled_records
  disabled_records-at n [] h = refl
  disabled_records-at n ((m, r) ∷ rs) h =
      ground (arith, eq_iff m n, disabled_records-none m rs, disabled_records-at n rs h.1)

  -- Where the records hold each name once, no strategy is both allowed to trade by the governance and
  -- blocked at the risk layer.
  pub allowed_not_disabled :
      (n regime : String) (recommended lab : List String) (e : Engine F)
      → IsDict e.records
      → contains (resolve_allowed regime recommended lab e).0 n ≡ true
      → contains (disabled_for_risk e) n ≡ false
  unfolding disabled_for_risk
  allowed_not_disabled n regime recommended lab e h a = elim (Option-cases (lookup n e.records)) [
    | inl gone ↦ ground (arith, disabled_records-none n e.records)
    | inr (r, at) ↦ ground (
      arith,
      disabled_records-at n e.records h,
      resolve_allowed_lem n regime recommended lab e h,
      evaluate_strategy-allowed_iff r regime recommended (contains (lab_set lab) n),
    )
  ]
