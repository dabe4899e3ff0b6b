-- ===== src/Compliance/Repair.antt =====
-- services/compliance/store.py: what `repair_chain` keeps and drops, and the store after it.
use apex_trader.Base.{
  ℕ, ◌-◌, ◌<◌, ◌≡◌, ◌≢◌, inl, inr, Bool-cases, refl, ap, ◌∙◌, arith, Bool, true, false, String,
  Option, none, some, List, [], ◌∷◌, ◌++◌, map, length, length-append, eq_iff, length-map,
}
use apex_trader.Compliance.Store.{
  ◌<>◌, Codec, LogRecord, Store, Verification, genesis_hash, text_or, digest, append, load_lines,
  load_all, is_intact, verify_chain, last_event_hash, valid_prefix, dump_all, repair_records,
  repair_chain, verify_records, verify_from, read_last_hash,
}
use apex_trader.Compliance.Chain.{
  CodecLaws, text_or-is_text, all_intact, chain_head, IsSound, written_of, load_all-append,
  digest-stored, verify_chain-fresh, verify_records-intact,
}

module _ {E L : Type 0} (c : Codec E L) where
  -- There is no further record, or the first does not continue the chain.
  abbrev pub breaks_at : String → List (LogRecord E) → Bool
  breaks_at prev [] = true
  breaks_at prev (r ∷ rs) = elim (is_intact c prev r) [ true ↦ false | false ↦ true ]

  valid_prefix-intact :
      (prev : String) (rs : List (LogRecord E)) → all_intact c prev (valid_prefix c prev rs) ≡ true
  unfolding valid_prefix all_intact
  valid_prefix-intact prev [] = refl
  valid_prefix-intact prev (r ∷ rs) = ground (
    arith,
    valid_prefix-intact (digest c prev r.body) rs,
    text_or-is_text r.event_hash (digest c prev r.body) (digest c prev r.body),
  )

  event_hash_of_intact :
      (prev : String) (r : LogRecord E)
      → is_intact c prev r ≡ true
      → text_or r.event_hash (digest c prev r.body) ≡ digest c prev r.body
  event_hash_of_intact prev r h =
      ground (arith, text_or-is_text r.event_hash (digest c prev r.body) (digest c prev r.body))

  -- The records kept are the longest chain that the log begins with.
  valid_prefix-longest :
      (prev : String) (rs : List (LogRecord E))
      → (dropped : List (LogRecord E)) × (rs ≡ valid_prefix c prev rs ++ dropped)
        × (breaks_at (chain_head c prev (valid_prefix c prev rs)) dropped ≡ true)
  unfolding valid_prefix chain_head
  valid_prefix-longest prev [] = ([], refl, refl)
  valid_prefix-longest prev (r ∷ rs) = elim (Bool-cases (is_intact c prev r)) [
    | inl fine ↦
        let (dropped, whole, broken) = valid_prefix-longest (digest c prev r.body) rs in
        (
          dropped,
          rw (fine, event_hash_of_intact prev r fine) (ap (r ∷◌) whole),
          rw (fine, event_hash_of_intact prev r fine) broken,
        )
    | inr broken ↦ (r ∷ rs, rw broken refl, ground (arith, broken))
  ]

  last_event_hash-intact :
      (prev : String) (r : LogRecord E) (rs : List (LogRecord E))
      → all_intact c prev (r ∷ rs) ≡ true
      → last_event_hash (r ∷ rs) ≡ chain_head c prev (r ∷ rs)
  unfolding last_event_hash all_intact chain_head
  last_event_hash-intact prev r [] h =
      ground (arith, text_or-is_text r.event_hash (digest c prev r.body) genesis_hash)
  last_event_hash-intact prev r (s ∷ rs) h =
      ground (arith, last_event_hash-intact (digest c prev r.body) s rs)

  last_event_hash-chain_head :
      (rs : List (LogRecord E))
      → all_intact c genesis_hash rs ≡ true
      → last_event_hash rs ≡ chain_head c genesis_hash rs
  unfolding last_event_hash chain_head
  last_event_hash-chain_head [] h = refl
  last_event_hash-chain_head (r ∷ rs) h = last_event_hash-intact genesis_hash r rs h

  read_last_hash-stripped :
      (log : Option (List L)) (t : String) (v : Option (ℕ × Verification))
      → c.stripped t ≡ some t
      → read_last_hash c (record { log = log; hash_file = some t; verified = v }) ≡ t
  unfolding read_last_hash
  read_last_hash-stripped log t v h = rw (read_last_hash, h) refl

  -- What `verify_chain` is to answer for a log of these records.
  abbrev pub sound_answer : List (LogRecord E) → Verification
  sound_answer [] = Verification.empty_ledger
  sound_answer (r ∷ rs) =
      Verification.chain_valid (length (r ∷ rs)) (chain_head c genesis_hash (r ∷ rs))

  -- `repair_chain` on a log with a record.
  repair_records-cons :
      (rs : List (LogRecord E)) (s : Store L)
      → 0 < length rs
      → repair_records c rs s ≡ (
        record {
          kept = length (valid_prefix c genesis_hash rs);
          dropped = length rs - length (valid_prefix c genesis_hash rs);
          head_hash = some (last_event_hash (valid_prefix c genesis_hash rs));
        },
        record {
          log = some (dump_all c (valid_prefix c genesis_hash rs));
          hash_file = some (last_event_hash (valid_prefix c genesis_hash rs));
          verified = none;
        },
      )
  repair_records-cons [] s some_record = ground (arith, some_record)
  repair_records-cons (r ∷ rs) s some_record = refl

  module _ (laws : CodecLaws c) where
    -- A record as the log gives it back.
    abbrev pub restored : LogRecord E → LogRecord E
    restored r = record r { body = laws.stored r.body }

    load_lines-dump_all : (rs : List (LogRecord E)) → load_lines c (dump_all c rs) ≡ map restored rs
    unfolding load_lines dump_all
    load_lines-dump_all [] = refl
    load_lines-dump_all (r ∷ rs) =
        simp (laws.dumps-nonblank r, laws.loads-dumps r, load_lines-dump_all rs)

    all_intact-restored :
        (prev : String) (rs : List (LogRecord E))
        → all_intact c prev (map restored rs) ≡ all_intact c prev rs
    unfolding all_intact
    all_intact-restored prev [] = refl
    all_intact-restored prev (r ∷ rs) =
        simp (digest-stored c laws prev r.body, all_intact-restored (digest c prev r.body) rs)

    chain_head-restored :
        (prev : String) (rs : List (LogRecord E))
        → chain_head c prev (map restored rs) ≡ chain_head c prev rs
    unfolding chain_head
    chain_head-restored prev [] = refl
    chain_head-restored prev (r ∷ rs) =
        ap (λ d. chain_head c d (map restored rs)) (digest-stored c laws prev r.body)
        ∙ chain_head-restored (digest c prev r.body) rs

    -- The head that a repair writes is read back.
    stripped-chain_head :
        (prev : String) (rs : List (LogRecord E))
        → c.stripped prev ≡ some prev
        → c.stripped (chain_head c prev rs) ≡ some (chain_head c prev rs)
    unfolding chain_head
    stripped-chain_head prev [] h = h
    stripped-chain_head prev (r ∷ rs) h =
        stripped-chain_head (digest c prev r.body) rs
          (laws.stripped-digest (prev <> c.canonical r.body))

    -- A store whose log holds a chain, and whose hash file has its head, is sound.
    pub dumped-IsSound :
        (rs : List (LogRecord E)) (v : Option (ℕ × Verification))
        → all_intact c genesis_hash rs ≡ true
        → IsSound c (record {
          log = some (dump_all c rs);
          hash_file = some (last_event_hash rs);
          verified = v;
        })
    dumped-IsSound rs v h = (
      rw (load_lines-dump_all rs, all_intact-restored genesis_hash rs) h,
      rw
          (
            load_lines-dump_all rs,
            chain_head-restored genesis_hash rs,
            last_event_hash-chain_head rs h,
          )
          (read_last_hash-stripped (some (dump_all c rs)) (chain_head c genesis_hash rs) v
            (stripped-chain_head genesis_hash rs laws.stripped-genesis)),
    )

    verify_records-restored :
        (rs : List (LogRecord E))
        → all_intact c genesis_hash rs ≡ true
        → verify_records c (map restored rs) ≡ sound_answer rs
    verify_records-restored [] h = refl
    verify_records-restored (r ∷ rs) h =
        verify_records-intact c (map restored (r ∷ rs)) (ground arith)
          (all_intact-restored genesis_hash (r ∷ rs) ∙ h)
        ∙ rw (chain_head-restored genesis_hash (r ∷ rs), length-map restored rs) refl

    -- Of a log with any record, `repair_chain` keeps the longest chain that it begins with, counts what
    -- it keeps and drops, reports the digest that the chain ends in, and leaves a store that is sound, so that later
    -- appends continue the chain. The next `verify_chain`, at any time, whatever verification was cached before, finds
    -- the chain that was kept valid, with its length and its last digest, or, if nothing was kept, the log empty.
    pub repair_chain_lem :
        (now : ℕ) (s : Store L)
        → 0 < length (load_all c s)
        → let (report, s') = repair_chain c s in
          let kept = valid_prefix c genesis_hash (load_all c s) in
          (dropped : List (LogRecord E)) × (load_all c s ≡ kept ++ dropped)
          × (breaks_at (chain_head c genesis_hash kept) dropped ≡ true)
          × (report.kept ≡ length kept)
          × (report.dropped ≡ length dropped)
          × (report.head_hash ≡ some (chain_head c genesis_hash kept))
          × (load_all c s' ≡ map restored kept)
          × IsSound c s'
          × ((verify_chain c now s').0 ≡ sound_answer kept)
    unfolding repair_chain
    repair_chain_lem now s some_record =
        let (dropped, whole, broken) = valid_prefix-longest genesis_hash (load_all c s) in
        rw (repair_records-cons (load_all c s) s some_record) (
          dropped,
          whole,
          broken,
          refl,
          omega (
            arith,
            ap length whole,
            length-append (valid_prefix c genesis_hash (load_all c s)) dropped,
          ),
          ap some (
              last_event_hash-chain_head (valid_prefix c genesis_hash (load_all c s))
                (valid_prefix-intact genesis_hash (load_all c s))),
          load_lines-dump_all (valid_prefix c genesis_hash (load_all c s)),
          dumped-IsSound (valid_prefix c genesis_hash (load_all c s)) none
              (valid_prefix-intact genesis_hash (load_all c s)),
          verify_chain-fresh c now
                (record {
                  log = some (dump_all c (valid_prefix c genesis_hash (load_all c s)));
                  hash_file = some (last_event_hash (valid_prefix c genesis_hash (load_all c s)));
                  verified = none;
                })
                refl
              ∙ ap (verify_records c)
                  (load_lines-dump_all (valid_prefix c genesis_hash (load_all c s)))
              ∙ verify_records-restored (valid_prefix c genesis_hash (load_all c s))
                  (valid_prefix-intact genesis_hash (load_all c s)),
        )

    repair_bare : (s : Store L) → load_all c s ≡ [] → (repair_chain c s).1 ≡ s
    unfolding repair_chain
    repair_bare s bare = rw bare refl

    first_breaks :
        (e : E) (s : Store L) (h : String)
        → read_last_hash c s ≡ h
        → h ≢ genesis_hash
        → verify_records c (written_of c laws e s) ≡ Verification.broken_prev 0 genesis_hash h
    unfolding verify_from
    first_breaks e s h stale ne = rw stale (ground (arith, eq_iff h genesis_hash))

    -- A log without a record, beside a hash file that holds a digest other than the zeros, is what
    -- `repair_chain` leaves alone: the next append continues that digest, and verification then finds
    -- the chain broken at its first record.
    pub stale_head_breaks :
        (now : ℕ) (e : E) (s : Store L) (h : String)
        → load_all c s ≡ []
        → read_last_hash c s ≡ h
        → h ≢ genesis_hash
        → let s' = (append c e (repair_chain c s).1).1 in
          (verify_chain c now s').0 ≡ Verification.broken_prev 0 genesis_hash h
    stale_head_breaks now e s h bare stale ne = rw (repair_bare s bare) (
        verify_chain-fresh c now (append c e s).1 (unfold append in refl)
        ∙ ap (verify_records c)
            (load_all-append c laws e s ∙ ap (λ rs. rs ++ written_of c laws e s) bare)
        ∙ first_breaks e s h stale ne)
