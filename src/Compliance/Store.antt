-- ===== src/Compliance/Store.antt =====
-- services/compliance/store.py: the event log, a file of JSON lines that a chain of SHA-256 digests
-- ties together, and the file of the last digest. JSON, SHA-256 and `strip` are parameters. The cache
-- of verifications is that of one path, with the monotonic clock in microseconds. A line that is JSON
-- but no object, on which the source raises, and a digest that is no text are not modelled, nor are
-- `build_event` and `load_range`, which do not concern the chain.
use apex_trader.Base.{
  ℕ, suc, ◌-◌, ◌+◌, ltb, String, Bool, false, ◌&&◌, Option, none, some, List, [], ◌∷◌, ◌++◌,
  if◌then◌else◌, length, str_eq,
}
pub use Prim.Native.String.{◌++◌ as ◌<>◌}

-- A line of the log: the two digests, if they are there, and the other keys of the event.
pub record LogRecord (E : Type 0) : Type 0 where
  pub prev_hash : Option String
  pub event_hash : Option String
  pub body : E

-- What the store calls, on events `E` and lines of text `L`. `loads` is `none` where JSON refuses the
-- line; `canonical` is `json.dumps(..., sort_keys=True, default=str)`; `stripped` is `none` where
-- nothing is left of a text.
pub record Codec (E L : Type 0) : Type 0 where
  pub dumps : LogRecord E → L
  pub loads : L → Option (LogRecord E)
  pub is_blank : L → Bool
  pub canonical : E → String
  pub sha256_hex : String → String
  pub stripped : String → Option String

-- `GENESIS_HASH`
abbrev pub genesis_hash : String
genesis_hash = "0000000000000000000000000000000000000000000000000000000000000000"

pub data Verification : Type 0 where
  empty_ledger : Verification
  broken_prev : ℕ → String → String → Verification
  broken_hash : ℕ → String → Option String → Verification
  chain_valid : ℕ → String → Verification

-- The files, each `none` where it is not there, and the cached verification with its time.
pub record Store (L : Type 0) : Type 0 where
  pub log : Option (List L)
  pub hash_file : Option String
  pub verified : Option (ℕ × Verification)

pub record Repair : Type 0 where
  pub kept : ℕ
  pub dropped : ℕ
  pub head_hash : Option String

abbrev pub text_or : Option String → String → String
text_or none t = t
text_or (some s) t = s

abbrev pub is_text : Option String → String → Bool
is_text none t = false
is_text (some s) t = str_eq s t

abbrev pub lines_of : {L : Type 0} → Option (List L) → List L
lines_of none = []
lines_of (some ls) = ls

-- `record.get("prev_hash", GENESIS_HASH)`
abbrev pub stored_prev : {E : Type 0} → LogRecord E → String
stored_prev r = text_or r.prev_hash genesis_hash

-- `valid[-1]["event_hash"] if valid else GENESIS_HASH`
unfoldable pub last_event_hash : {E : Type 0} → List (LogRecord E) → String
last_event_hash [] = genesis_hash
last_event_hash (r ∷ []) = text_or r.event_hash genesis_hash
last_event_hash (r ∷ s ∷ rs) = last_event_hash (s ∷ rs)

module _ {E L : Type 0} (c : Codec E L) where
  abbrev pub digest : String → E → String
  digest prev e = c.sha256_hex (prev <> c.canonical e)

  -- The last line that is not blank, of the lines and the one found so far.
  unfoldable pub last_line : Option L → List L → Option L
  last_line found [] = found
  last_line found (l ∷ ls) = last_line (if c.is_blank l then found else some l) ls

  abbrev pub hash_of_line : Option L → String
  hash_of_line none = genesis_hash
  hash_of_line (some l) = elim (c.loads l) [
    | none ↦ genesis_hash
    | some r ↦ text_or r.event_hash genesis_hash
  ]

  abbrev pub hash_of_file : Option String → Option String
  hash_of_file none = none
  hash_of_file (some t) = c.stripped t

  unfoldable pub read_last_hash : Store L → String
  read_last_hash s = elim (hash_of_file s.hash_file) [
    | some t ↦ t
    | none ↦ hash_of_line (last_line none (lines_of s.log))
  ]

  unfoldable pub append : E → Store L → LogRecord E × Store L
  append e s =
      let prev = read_last_hash s in
      let event_hash = digest prev e in
      let written : LogRecord E = record {
        prev_hash = some prev;
        event_hash = some event_hash;
        body = e;
      } in
      (
        written,
        record {
          log = some (lines_of s.log ++ (c.dumps written ∷ []));
          hash_file = some event_hash;
          verified = none;
        },
      )

  unfoldable pub load_lines : List L → List (LogRecord E)
  load_lines [] = []
  load_lines (l ∷ ls) =
      let rest = load_lines ls in
      if c.is_blank l then rest else elim (c.loads l) [ none ↦ rest | some r ↦ r ∷ rest ]

  abbrev pub load_all : Store L → List (LogRecord E)
  load_all s = load_lines (lines_of s.log)

  -- The digests of a record are those that its predecessor's digest and its own keys give.
  abbrev pub is_intact : String → LogRecord E → Bool
  is_intact prev r = str_eq (stored_prev r) prev && is_text r.event_hash (digest prev r.body)

  -- The loop of `verify_chain`, from the index and the digest it has come to.
  unfoldable pub verify_from : ℕ → String → List (LogRecord E) → Verification
  verify_from i prev [] = Verification.chain_valid i prev
  verify_from i prev (r ∷ rs) =
      let expected = digest prev r.body in
      let rest = verify_from (suc i) (text_or r.event_hash expected) rs in
      if str_eq (stored_prev r) prev
      then (if is_text r.event_hash expected
          then rest
          else Verification.broken_hash i expected r.event_hash)
      else Verification.broken_prev i prev (stored_prev r)

  abbrev pub verify_records : List (LogRecord E) → Verification
  verify_records [] = Verification.empty_ledger
  verify_records (r ∷ rs) = verify_from 0 genesis_hash (r ∷ rs)

  -- `_VERIFY_CACHE_TTL_SEC` is 120.
  abbrev pub cached_verification : ℕ → Store L → Option Verification
  cached_verification now s = elim s.verified [
    | none ↦ none
    | some (at, v) ↦ if ltb now (at + 120000000) then some v else none
  ]

  unfoldable pub verify_chain : ℕ → Store L → Verification × Store L
  verify_chain now s = elim (cached_verification now s) [
    | some v ↦ (v, s)
    | none ↦ let v = verify_records (load_all s) in (v, record s { verified = some (now, v) })
  ]

  -- The loop of `repair_chain`, which ends at the first break.
  unfoldable pub valid_prefix : String → List (LogRecord E) → List (LogRecord E)
  valid_prefix prev [] = []
  valid_prefix prev (r ∷ rs) =
      let rest = valid_prefix (text_or r.event_hash (digest prev r.body)) rs in
      if is_intact prev r then r ∷ rest else []

  unfoldable pub dump_all : List (LogRecord E) → List L
  dump_all [] = []
  dump_all (r ∷ rs) = c.dumps r ∷ dump_all rs

  abbrev pub repair_records : List (LogRecord E) → Store L → Repair × Store L
  repair_records [] s = (record { kept = 0; dropped = 0; head_hash = none }, s)
  repair_records (r ∷ rs) s =
      let valid = valid_prefix genesis_hash (r ∷ rs) in
      let head = last_event_hash valid in
      (
        record {
          kept = length valid;
          dropped = length (r ∷ rs) - length valid;
          head_hash = some head;
        },
        record { log = some (dump_all valid); hash_file = some head; verified = none },
      )

  unfoldable pub repair_chain : Store L → Repair × Store L
  repair_chain s = repair_records (load_all s) s
