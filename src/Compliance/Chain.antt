-- ===== src/Compliance/Chain.antt =====
-- services/compliance/store.py: appends to a log, and its chain as `verify_chain` reports it.
use apex_trader.Base.{
  ℕ, suc, ◌+◌, ◌<◌, ◌≡◌, refl, sym, ap, ◌∙◌, arith, Bool, true, false, ◌&&◌, String, Option, none,
  some, List, [], ◌∷◌, ◌++◌, length, length-append, eq_iff, eq_refl,
}
use apex_trader.Compliance.Store.{
  ◌<>◌, Codec, LogRecord, Store, Verification, genesis_hash, text_or, is_text, lines_of, digest,
  read_last_hash, append, load_lines, load_all, is_intact, verify_from, verify_records,
  verify_chain,
}

-- `json.dumps` and `json.loads` as Python documents them: a record that was written reads as itself,
-- with its values as JSON stores them, which has no effect on the canonical text; and neither a digest
-- nor the zeros are blank or have spaces around them.
pub record CodecLaws {E L : Type 0} (c : Codec E L) : Type 0 where
  pub stored : E → E
  pub loads-dumps :
      (r : LogRecord E) → c.loads (c.dumps r) ≡ some (record r { body = stored r.body })
  pub dumps-nonblank : (r : LogRecord E) → c.is_blank (c.dumps r) ≡ false
  pub canonical-stored : (e : E) → c.canonical (stored e) ≡ c.canonical e
  pub stripped-digest : (t : String) → c.stripped (c.sha256_hex t) ≡ some (c.sha256_hex t)
  pub stripped-genesis : c.stripped genesis_hash ≡ some genesis_hash

pub text_or-is_text : (o : Option String) (t d : String) → is_text o t ≡ true → text_or o d ≡ t
text_or-is_text none t d h = cc h
text_or-is_text (some s) t d h = (eq_iff s t).0 h

module _ {E L : Type 0} (c : Codec E L) where
  -- Every record is intact after the one before it.
  unfoldable pub all_intact : String → List (LogRecord E) → Bool
  all_intact prev [] = true
  all_intact prev (r ∷ rs) = is_intact c prev r && all_intact (digest c prev r.body) rs

  -- The digest that a chain of records ends in.
  unfoldable pub chain_head : String → List (LogRecord E) → String
  chain_head prev [] = prev
  chain_head prev (r ∷ rs) = chain_head (digest c prev r.body) rs

  -- The log is a chain from the zeros, and the next append continues it.
  abbrev pub IsSound : Store L → Type 0
  IsSound s =
      (all_intact genesis_hash (load_all c s) ≡ true)
      × (read_last_hash c s ≡ chain_head genesis_hash (load_all c s))

  unfoldable pub append_all : List E → Store L → Store L
  append_all [] s = s
  append_all (e ∷ es) s = append_all es (append c e s).1

  verify_from-intact :
      (i : ℕ) (prev : String) (rs : List (LogRecord E))
      → all_intact prev rs ≡ true
      → verify_from c i prev rs ≡ Verification.chain_valid (i + length rs) (chain_head prev rs)
  unfolding verify_from all_intact chain_head
  verify_from-intact i prev [] h = ap (λ n. Verification.chain_valid n prev) (omega arith)
  verify_from-intact i prev (r ∷ rs) h = ground (
    arith,
    verify_from-intact (suc i) (digest c prev r.body) rs,
    text_or-is_text r.event_hash (digest c prev r.body) (digest c prev r.body),
  )

  pub verify_records-intact :
      (rs : List (LogRecord E))
      → 0 < length rs
      → all_intact genesis_hash rs ≡ true
      → verify_records c rs ≡ Verification.chain_valid (length rs) (chain_head genesis_hash rs)
  verify_records-intact [] some_record h = ground (arith, some_record)
  verify_records-intact (r ∷ rs) some_record h =
      verify_from-intact 0 genesis_hash (r ∷ rs) h
      ∙ ap (λ n. Verification.chain_valid n (chain_head genesis_hash (r ∷ rs))) (omega arith)

  pub verify_chain-fresh :
      (now : ℕ) (s : Store L)
      → s.verified ≡ none
      → (verify_chain c now s).0 ≡ verify_records c (load_all c s)
  unfolding verify_chain
  verify_chain-fresh now s h = ground arith

  load_lines-append :
      (ls ms : List L) → load_lines c (ls ++ ms) ≡ load_lines c ls ++ load_lines c ms
  unfolding load_lines
  load_lines-append [] ms = refl
  load_lines-append (l ∷ ls) ms = ground (arith, load_lines-append ls ms)

  all_intact-append :
      (prev : String) (rs ss : List (LogRecord E))
      → all_intact prev (rs ++ ss) ≡ (all_intact prev rs && all_intact (chain_head prev rs) ss)
  unfolding all_intact chain_head
  all_intact-append prev [] ss = refl
  all_intact-append prev (r ∷ rs) ss =
      ground (arith, all_intact-append (digest c prev r.body) rs ss)

  chain_head-append :
      (prev : String) (rs ss : List (LogRecord E))
      → chain_head prev (rs ++ ss) ≡ chain_head (chain_head prev rs) ss
  unfolding chain_head
  chain_head-append prev [] ss = refl
  chain_head-append prev (r ∷ rs) ss = chain_head-append (digest c prev r.body) rs ss

  module _ (laws : CodecLaws c) where
    pub digest-stored : (prev : String) (e : E) → digest c prev (laws.stored e) ≡ digest c prev e
    digest-stored prev e = ap (λ t. c.sha256_hex (prev <> t)) (laws.canonical-stored e)

    load_lines-dumps :
        (r : LogRecord E)
        → load_lines c (c.dumps r ∷ []) ≡ record r { body = laws.stored r.body } ∷ []
    unfolding load_lines
    load_lines-dumps r = simp (laws.dumps-nonblank r, laws.loads-dumps r)

    pub load_all-append :
        (e : E) (s : Store L)
        → load_all c (append c e s).1
          ≡ load_all c s
            ++ (record {
              prev_hash = some (read_last_hash c s);
              event_hash = some (digest c (read_last_hash c s) e);
              body = laws.stored e;
            }
                ∷ [])
    unfolding append
    load_all-append e s =
        load_lines-append (lines_of s.log) (c.dumps (append c e s).0 ∷ [])
        ∙ ap (load_lines c (lines_of s.log) ++◌) (load_lines-dumps (append c e s).0)

    read_last_hash-append :
        (e : E) (s : Store L) → read_last_hash c (append c e s).1 ≡ digest c (read_last_hash c s) e
    unfolding append read_last_hash
    read_last_hash-append e s = rw (laws.stripped-digest (read_last_hash c s <> c.canonical e)) refl

    -- What an append writes is intact after the digest that it continues.
    written_intact :
        (prev : String) (e : E)
        → all_intact prev (
            record {
              prev_hash = some prev;
              event_hash = some (digest c prev e);
              body = laws.stored e;
            }
            ∷ [])
          ≡ true
    unfolding all_intact
    written_intact prev e = simp (digest-stored prev e, eq_refl prev, eq_refl (digest c prev e))

    abbrev pub written_of : E → Store L → List (LogRecord E)
    written_of e s =
        record {
          prev_hash = some (read_last_hash c s);
          event_hash = some (digest c (read_last_hash c s) e);
          body = laws.stored e;
        }
        ∷ []

    pub append-IsSound : (e : E) (s : Store L) → IsSound s → IsSound (append c e s).1
    append-IsSound e s (chained, at_head) = (
      rw
          (
            load_all-append e s,
            all_intact-append genesis_hash (load_all c s) (written_of e s),
            chained,
            sym at_head,
          )
          (written_intact (read_last_hash c s) e),
      rw
          (
            read_last_hash-append e s,
            load_all-append e s,
            chain_head-append genesis_hash (load_all c s) (written_of e s),
            sym at_head,
          )
          (unfold chain_head in sym (digest-stored (read_last_hash c s) e)),
    )

    pub append_all-IsSound : (es : List E) (s : Store L) → IsSound s → IsSound (append_all es s)
    unfolding append_all
    append_all-IsSound [] s h = h
    append_all-IsSound (e ∷ es) s h = append_all-IsSound es (append c e s).1 (append-IsSound e s h)

    length_lem :
        (es : List E) (s : Store L)
        → length (load_all c (append_all es s)) ≡ length (load_all c s) + length es
    unfolding append_all
    length_lem [] s = omega arith
    length_lem (e ∷ es) s = omega (
      arith,
      length_lem es (append c e s).1,
      ap length (load_all-append e s),
      length-append (load_all c s) (written_of e s),
    )

    append_all-unverified :
        (e : E) (es : List E) (s : Store L) → (append_all (e ∷ es) s).verified ≡ none
    unfolding append_all append
    append_all-unverified e [] s = refl
    append_all-unverified e (f ∷ es) s = append_all-unverified f es (append c e s).1

    -- `verify_chain` of a sound store that no answer is cached for, and that has a record.
    pub verify_chain-IsSound :
        (now : ℕ) (s : Store L)
        → IsSound s
        → s.verified ≡ none
        → 0 < length (load_all c s)
        → (verify_chain c now s).0
          ≡ Verification.chain_valid (length (load_all c s)) (read_last_hash c s)
    unfolding verify_chain
    verify_chain-IsSound now s (chained, at_head) fresh some_record =
        verify_chain-fresh now s fresh
        ∙ verify_records-intact (load_all c s) some_record chained
        ∙ ap (Verification.chain_valid (length (load_all c s))) (sym at_head)

    -- After any number of appends to a sound store, `verify_chain` finds the chain valid, with as many
    -- events as there were and were appended, and the digest that the next append continues as its
    -- head.
    pub append_all-verifies :
        (now : ℕ) (e : E) (es : List E) (s : Store L)
        → IsSound s
        → (verify_chain c now (append_all (e ∷ es) s)).0
          ≡ Verification.chain_valid
              (length (load_all c s) + length (e ∷ es))
              (read_last_hash c (append_all (e ∷ es) s))
    append_all-verifies now e es s h =
        rw
          (
            verify_chain-IsSound now (append_all (e ∷ es) s) (append_all-IsSound (e ∷ es) s h)
                (append_all-unverified e es s) (omega (arith, length_lem (e ∷ es) s)),
            length_lem (e ∷ es) s,
          )
          refl
