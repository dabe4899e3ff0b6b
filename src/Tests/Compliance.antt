-- ===== src/Tests/Compliance.antt =====
-- services/compliance/store.py on a log whose lines are the records themselves.
use apex_trader.Base.{
  ◌+◌, ◌<◌, ◌≡◌, ◌⊎◌, refl, String, true, false, none, some, List, [], ◌∷◌, ◌++◌, length, map, ◌≢◌,
  eq_iff, arith,
}
use apex_trader.Compliance.Store.{
  Codec, LogRecord, Store, Verification, genesis_hash, append, load_all, load_lines, read_last_hash,
  verify_chain, verify_from, repair_chain, valid_prefix, last_line,
}
use apex_trader.Compliance.Chain.{
  CodecLaws, IsSound, append_all, append_all-verifies, chain_head, all_intact,
}
use apex_trader.Compliance.Repair.{
  repair_chain_lem, breaks_at, restored, sound_answer, stale_head_breaks,
}
use apex_trader.Compliance.Tampering.{Collision, contents, tamper_evident}

-- A digest that keeps its text, and one that forgets it.
abbrev codec : (String → String) → Codec String (LogRecord String)
codec digest = record {
  dumps = λ r. r;
  loads = λ l. some l;
  is_blank = λ l. false;
  canonical = λ e. e;
  sha256_hex = digest;
  stripped = λ t. some t;
}

abbrev plain : Codec String (LogRecord String)
plain = codec (λ t. t)

abbrev constant : Codec String (LogRecord String)
constant = codec (λ t. genesis_hash)

abbrev plain_laws : CodecLaws plain
plain_laws = record {
  stored = λ e. e;
  loads-dumps = λ r. refl;
  dumps-nonblank = λ r. refl;
  canonical-stored = λ e. refl;
  stripped-digest = λ t. refl;
  stripped-genesis = refl;
}

abbrev empty_store : Store (LogRecord String)
empty_store = record { log = none; hash_file = none; verified = none }

empty_store-IsSound : IsSound plain empty_store
unfolding all_intact load_lines read_last_hash chain_head last_line
empty_store-IsSound = (refl, refl)

append_all-verifies_example :
    (verify_chain plain 7 (append_all plain ("buy" ∷ "sell" ∷ []) empty_store)).0
    ≡ Verification.chain_valid
        (length (load_all plain empty_store) + 2)
        (read_last_hash plain (append_all plain ("buy" ∷ "sell" ∷ []) empty_store))
append_all-verifies_example =
    append_all-verifies plain plain_laws 7 "buy" ("sell" ∷ []) empty_store empty_store-IsSound

abbrev record_of : String → String → String → LogRecord String
record_of prev hash body = record { prev_hash = some prev; event_hash = some hash; body = body }

-- The second record's keys were changed.
abbrev tampered_store : Store (LogRecord String)
tampered_store = record {
  log = some (
      record_of genesis_hash "0000000000000000000000000000000000000000000000000000000000000000buy"
        "buy"
      ∷ record_of "0000000000000000000000000000000000000000000000000000000000000000buy"
          "0000000000000000000000000000000000000000000000000000000000000000buysell" "hold"
      ∷ []);
  hash_file = none;
  verified = none;
}

tampered_break :
    (verify_chain plain 7 tampered_store).0
    ≡ Verification.broken_hash 1
        "0000000000000000000000000000000000000000000000000000000000000000buyhold"
        (some "0000000000000000000000000000000000000000000000000000000000000000buysell")
unfolding verify_chain verify_from load_lines
tampered_break = refl

some_record : 0 < length (load_all plain tampered_store)
unfolding load_lines
some_record = omega arith

repair_chain_lem_example :
    let (report, s') = repair_chain plain tampered_store in
    let kept = valid_prefix plain genesis_hash (load_all plain tampered_store) in
    (dropped : List (LogRecord String)) × (load_all plain tampered_store ≡ kept ++ dropped)
    × (breaks_at plain (chain_head plain genesis_hash kept) dropped ≡ true)
    × (report.kept ≡ length kept)
    × (report.dropped ≡ length dropped)
    × (report.head_hash ≡ some (chain_head plain genesis_hash kept))
    × (load_all plain s' ≡ map (restored plain plain_laws) kept)
    × IsSound plain s'
    × ((verify_chain plain 8 s').0 ≡ sound_answer plain kept)
repair_chain_lem_example = repair_chain_lem plain plain_laws 8 tampered_store some_record

abbrev stale_store : Store (LogRecord String)
stale_store = record { log = none; hash_file = some "stale"; verified = none }

stale_ne : "stale" ≢ genesis_hash
stale_ne e = let differ : false ≡ true = (eq_iff "stale" genesis_hash).1 e in cc differ

stale_bare : load_all plain stale_store ≡ []
unfolding load_lines
stale_bare = refl

stale_read : read_last_hash plain stale_store ≡ "stale"
unfolding read_last_hash
stale_read = refl

stale_head_breaks_example :
    (verify_chain plain 7 (append plain "buy" (repair_chain plain stale_store).1).1).0
    ≡ Verification.broken_prev 0 genesis_hash "stale"
stale_head_breaks_example =
    stale_head_breaks plain plain_laws 7 "buy" stale_store "stale" stale_bare stale_read stale_ne

-- A log of one event, of which an answer was cached two minutes before.
abbrev one_event : String → Store (LogRecord String)
one_event body = record {
  log = some (record_of genesis_hash genesis_hash body ∷ []);
  hash_file = none;
  verified = some (5, Verification.empty_ledger);
}

constant_valid :
    (body : String)
    → (verify_chain constant 120000005 (one_event body)).0 ≡ Verification.chain_valid 1 genesis_hash
unfolding verify_chain verify_from load_lines
constant_valid body = refl

tamper_evident_example :
    (contents constant (load_all constant (one_event "buy"))
      ≡ contents constant (load_all constant (one_event "sell")))
    ⊎ Collision constant
tamper_evident_example =
    tamper_evident constant (λ t. refl) 120000005 120000005 1 genesis_hash (one_event "buy")
      (one_event "sell") refl refl (constant_valid "buy") (constant_valid "sell")
