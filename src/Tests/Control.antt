-- ===== src/Tests/Control.antt =====
-- services/control/pnl_reset.py on a Redis that answers and on one that refuses writes.
use apex_trader.Base.{◌≡◌, refl, arith, String, true, false, some, List, [], ◌∷◌, eq_iff, eq_refl}
use apex_trader.Base.Dict.{lookup, insert, lookup-insert}
use apex_trader.Cache.{Redis, RedisLaws}
use apex_trader.Control.PnlReset.{daily, ResetMarks, maybe_reset_pnl_periods, should_reset}
use apex_trader.Control.Resets.{Answering, resets_once, resets_again}
use apex_trader.Tests.Samples.{milli}
use apex_trader.Tests.Portfolio.{manager}

instance abbrev open_server : Redis (List (String × String))
open_server = record { get = λ k c. some (lookup k c); set = λ k v c. (insert k v c, true) }

open_server_laws : RedisLaws open_server
open_server_laws = record {
  get-set = λ k v c h. ground (arith, lookup-insert k k v c, eq_refl k);
  get-set_ne = λ k j v c ne. ground (arith, lookup-insert k j v c, eq_iff k j);
}

open_server_answers : Answering open_server
open_server_answers = record { reads = λ k c e. ground (arith, e); writes = λ k v c. refl }

abbrev no_marks : ResetMarks (List (String × String))
no_marks = record { cache = []; memory = [] }

resets_once_example :
    let first = maybe_reset_pnl_periods "2026-03-02" "2026-W10" "2026-03" true manager no_marks in
    maybe_reset_pnl_periods "2026-03-02" "2026-W10" "2026-03" true first.0 first.1
    ≡ (first.0, first.1, [])
resets_once_example =
    resets_once open_server_laws open_server_answers "2026-03-02" "2026-W10" "2026-03" true true
      manager no_marks refl refl refl

-- What was written before the server began to refuse writes.
pub record Frozen : Type 0 where
  pub entries : List (String × String)

instance abbrev frozen_server : Redis Frozen
frozen_server = record { get = λ k c. some (lookup k c.entries); set = λ k v c. (c, false) }

abbrev old_marks : ResetMarks Frozen
old_marks = record {
  cache = record { entries = ("apex:pnl_reset:daily", "2026-03-01") ∷ [] };
  memory = [];
}

resets_again_example :
    let first = maybe_reset_pnl_periods "2026-03-02" "2026-W10" "2026-03" true manager old_marks in
    (first.1.cache ≡ old_marks.cache) × (should_reset daily "2026-03-02" first.1 ≡ true)
resets_again_example =
    resets_again "2026-03-02" "2026-03-01" "2026-W10" "2026-03" true manager old_marks
      (λ k v c. refl) refl refl refl
