-- ===== src/Governance/Store.antt =====
-- services/governance/store.py: the persisted records, in the process, in a file and in Redis. What
-- Redis answers is an argument: `none` stands for an error, a missing key and an unreadable text.
-- JSON gives back what it was given, and the file takes every write.
use apex_trader.Base.{String, Option, none, some, List, [], ◌∷◌}
use apex_trader.Base.Floats.{FloatOps}
use apex_trader.Governance.Models.{StrategyRecord, to_dict}

abbrev pub Records : Type 0 → Type 0
Records F = List (String × StrategyRecord F)

-- `memory` is the module's `_memory`, and `file` the JSON file, `none` where it is not there.
pub record Store (F : Type 0) : Type 0 where
  pub memory : Records F
  pub file : Option (Records F)

module _ {F : Type 0} where
  abbrev from_file : Store F → Option (Records F) → Store F × Records F
  from_file s none = (s, [])
  from_file s (some d) = (record s { memory = d }, d)

  abbrev from_memory : Store F → Records F → Store F × Records F
  from_memory s [] = from_file s s.file
  from_memory s (r ∷ rs) = (s, r ∷ rs)

  -- `load`
  unfoldable pub load : Option (Records F) → Store F → Store F × Records F
  load (some d) s = (record s { memory = d }, d)
  load none s = from_memory s s.memory

module _ {F : Type 0} ⦃o : FloatOps F⦄ where
  unfoldable pub payload : Records F → Records F
  payload [] = []
  payload ((n, r) ∷ rs) = (n, to_dict r) ∷ payload rs

  unfoldable pub save : Records F → Store F → Store F
  unfolding payload
  save rs s = record s { memory = payload rs; file = some (payload rs) }
