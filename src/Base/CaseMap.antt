-- ===== src/Base/CaseMap.antt =====
-- Python's `str.upper` and `str.lower`, which go by Unicode's tables: parameters.
use Prim.Native.String.{String}

pub record CaseMap : Type 0 where
  pub upper : String → String
  pub lower : String → String
