-- ===== src/Execution/Covered.antt =====
-- services/execution/reconciliation.py: what it means that the loop over the broker's positions found no
-- issue.
use apex_trader.Base.{
  ◌≡◌, refl, String, Bool, true, false, not, ◌&&◌, ◌||◌, Option, none, some, List, [], ◌∷◌, ◌++◌,
  all, str_eq, arith,
}
use apex_trader.Base.Floats.{FloatOps, ◌-F◌, ◌<F◌, ratio, abs}
use apex_trader.Base.Dict.{contains, lookup}
use apex_trader.Base.CaseMap.{CaseMap}
use apex_trader.Config.{Settings}
use apex_trader.Portfolio.Models.{PositionView}
use apex_trader.Execution.Orders.{is_long}
use apex_trader.Execution.Protection.{StopProblem, IsProtecting, stop_problem-fine_iff}
use apex_trader.Execution.World.{ok, Broker, BrokerPosition, OrderReport}
use apex_trader.Execution.Rules.{
  Any, Holds, Holds-call, Holds-keep_fact, Holds-bind, Holds-pure, Holds-if,
}
use apex_trader.Execution.Attaching.{fine_when}
use apex_trader.Execution.Reconciliation.{
  Issue, noted, stop_issue, absences, exposure_at, position_issues, all_issues,
}

-- A position of the broker is that of the ledger, with a stop order that by a report of
-- the broker protects it.
abbrev pub IsCovered :
    {F : Type 0} (B : Type 0) ⦃o : FloatOps F⦄ ⦃u : CaseMap⦄ ⦃b : Broker F B⦄
    → Settings F
    → List (String × PositionView F)
    → BrokerPosition F
    → Type 0
IsCovered {F} B ⦃o⦄ ⦃u⦄ ⦃b⦄ cfg internal bp =
    (p : PositionView F) × ((report : OrderReport F) × ((st : B) × (lookup bp.symbol internal
          ≡ some p)
        × ((ratio 1 10000 <F abs (p.qty -F bp.qty)) ≡ false)
        × (str_eq p.stop_order_id "" ≡ false)
        × ((b.fetch_order_status p.stop_order_id st).0 ≡ ok report)
        × IsProtecting report.stop (exposure_at cfg bp p)))

-- The broker's positions after those of the symbols seen: each long, of a symbol of its own, and covered;
-- and the ledger has no other symbol.
pub data Agreed {F : Type 0} (B : Type 0) ⦃o : FloatOps F⦄ ⦃u : CaseMap⦄ ⦃b : Broker F B⦄
    (cfg : Settings F) (internal : List (String × PositionView F))
    : List String → List (BrokerPosition F) → Type 0 where
  complete :
      {seen : List String}
      → all (λ e. contains seen e.0) internal ≡ true
      → Agreed B cfg internal seen []
  also :
      {seen : List String} {bp : BrokerPosition F} {bps : List (BrokerPosition F)}
      → contains seen bp.symbol ≡ false
      → is_long bp.side ≡ true
      → IsCovered B cfg internal bp
      → Agreed B cfg internal (bp.symbol ∷ seen) bps
      → Agreed B cfg internal seen (bp ∷ bps)

nothing_noted : (t : Bool) (i : Issue) (rest : List Issue) → noted t i ++ rest ≡ [] → t ≡ false
nothing_noted true i rest h = ground (arith, h)
nothing_noted false i rest h = refl

nothing_left : (t : Bool) (i : Issue) (rest : List Issue) → noted t i ++ rest ≡ [] → rest ≡ []
nothing_left true i rest h = ground (arith, h)
nothing_left false i rest h = h

first_empty : (xs ys : List Issue) → xs ++ ys ≡ [] → xs ≡ []
first_empty [] ys h = refl
first_empty (x ∷ xs) ys h = ground (arith, h)

second_empty : (xs ys : List Issue) → xs ++ ys ≡ [] → ys ≡ []
second_empty [] ys h = h
second_empty (x ∷ xs) ys h = ground (arith, h)

both_true : (a c : Bool) → not a ≡ false → c ≡ true → (a && c) ≡ true
both_true a c h k = ground (arith, h, k)

not_either : (a c : Bool) → (a || not c) ≡ false → (a ≡ false) × (c ≡ true)
not_either a c h = ground (arith, h)

module _ {F : Type 0} where
  none_absent :
      (seen : List String) (internal : List (String × PositionView F))
      → absences seen internal ≡ []
      → all (λ e. contains seen e.0) internal ≡ true
  unfolding absences
  none_absent seen [] h = refl
  none_absent seen ((symbol, p) ∷ ps) h =
      both_true (contains seen symbol) _ (nothing_noted (not (contains seen symbol)) _ _ h)
        (none_absent seen ps (nothing_left (not (contains seen symbol)) _ _ h))

stop_issue-empty :
    (symbol : String) (problem : StopProblem)
    → stop_issue symbol problem ≡ []
    → problem ≡ StopProblem.fine
stop_issue-empty symbol problem h = fine_when problem (ground (arith, h))

module _ {F B W : Type 0} ⦃o : FloatOps F⦄ ⦃u : CaseMap⦄ ⦃b : Broker F B⦄ where
  position_issues-Covered :
      (cfg : Settings F) (internal : List (String × PositionView F)) (bp : BrokerPosition F)
      (found : Option (PositionView F))
      → lookup bp.symbol internal ≡ found
      → Holds {F = F} {B = B} {W = W} Any
          (position_issues cfg bp found)
          (λ issues w. issues ≡ [] → IsCovered B cfg internal bp)
  unfolding position_issues
  position_issues-Covered cfg internal bp none e = Holds-pure _ λ w p h. ground (arith, h)
  position_issues-Covered cfg internal bp (some p) e =
      Holds-if (ratio 1 10000 <F abs (p.qty -F bp.qty))
        (λ c. Holds-pure _ λ w q h. ground (arith, h))
        λ c.
          Holds-if (str_eq p.stop_order_id "") (λ d. Holds-pure _ λ w q h. ground (arith, h))
            λ d. Holds-bind (Holds-call _) λ report. Holds-pure _ λ w q h. (
              p,
              (
                report,
                (
                  q.0,
                  e,
                  c,
                  d,
                  q.1,
                  (stop_problem-fine_iff report.stop (exposure_at cfg bp p)).0
                      (stop_issue-empty bp.symbol _ h),
                ),
              ),
            )

  pub all_issues-Agreed :
      (cfg : Settings F) (internal : List (String × PositionView F)) (seen : List String)
      (bps : List (BrokerPosition F))
      → Holds {F = F} {B = B} {W = W} Any
          (all_issues cfg internal seen bps)
          (λ issues w. issues ≡ [] → Agreed B cfg internal seen bps)
  unfolding all_issues
  all_issues-Agreed cfg internal seen [] =
      Holds-pure _ λ w p h. Agreed.complete (none_absent seen internal h)
  all_issues-Agreed cfg internal seen (bp ∷ bps) =
      Holds-bind (position_issues-Covered cfg internal bp _ refl) λ found.
        Holds-keep_fact λ covered.
          Holds-bind (all_issues-Agreed cfg internal (bp.symbol ∷ seen) bps) λ rest.
            Holds-pure _ λ w agreed h.
              let t = contains seen bp.symbol || not (is_long bp.side) in
              let i = Issue.ambiguous bp.symbol in
              let first = first_empty (noted t i ++ found) rest h in
              let (fresh, long) =
                not_either (contains seen bp.symbol) (is_long bp.side)
                  (nothing_noted t i found first) in
              Agreed.also fresh long (covered (nothing_left t i found first))
                (agreed (second_empty (noted t i ++ found) rest h))
