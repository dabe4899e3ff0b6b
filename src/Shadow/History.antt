-- ===== src/Shadow/History.antt =====
-- services/shadow/engine.py: the engine in memory beside the one that a restart reads from the history's
-- file, and its positions beside its events.
use apex_trader.Base.{
  ◌≡◌, refl, sym, ap, ◌∙◌, inl, inr, arith, String, Bool, true, false, Option, none, some, List, [],
  ◌∷◌, ◌++◌, all, Bool-cases, Option-cases, if◌then◌else◌, str_eq,
}
use apex_trader.Base.Floats.{FloatOps, ◌=F◌}
use apex_trader.Base.Dict.{
  lookup, IsUnique, lookup-insert, lookup-remove, insert-IsUnique, remove-IsUnique,
}
use apex_trader.Config.{Settings}
use apex_trader.Execution.Orders.{OrderRequest}
use apex_trader.Shadow.Engine.{
  Text, Written, ShadowFile, Timestamp, ShadowEntry, Event, ShadowEngine, apply, apply_all,
  lines_of, load_lines, new_engine, write_line, record_event, is_storable, stored, simulate,
  simulate_exit, record_missed,
}

-- A call of the engine, with the time at which it is made and what the write of its line comes to.
pub data Call (F : Type 0) : Type 0 where
  entering : Timestamp → Written → OrderRequest F → F → Call F
  exiting : Timestamp → Written → OrderRequest F → F → Call F
  missing : Timestamp → Written → String → String → Call F

abbrev is_untorn : Written → Bool
is_untorn Written.torn = false
is_untorn _ = true

-- Does the write of the call, if it makes one, leave no part of a line?
abbrev pub writes_whole : {F : Type 0} → Call F → Bool
writes_whole (Call.entering now written req price) = is_untorn written
writes_whole (Call.exiting now written req price) = is_untorn written
writes_whole (Call.missing now written symbol why) = is_untorn written

-- What JSON documents: a text that was dumped, alone on its line, loads as the event that it was.
abbrev pub Loads : {F : Type 0} ⦃o : FloatOps F⦄ → (List (Text F) → Option (Event F)) → Type 0
Loads {F} ⦃o⦄ loads = (e : Event F) → is_storable e ≡ true → loads (Text.json e ∷ []) ≡ some e

module _ {F : Type 0} where
  -- Does the event open or close the symbol's position?
  abbrev pub touched : String → Event F → Option (Option (ShadowEntry F))
  touched symbol (Event.entry e) = if str_eq e.symbol symbol then some (some e) else none
  touched symbol (Event.exit e) = if str_eq e.symbol symbol then some none else none
  touched symbol (Event.missed _ _ _) = none

  -- What the last event that opens or closes the symbol's position makes of it.
  unfoldable pub last_touch : String → List (Event F) → Option (Option (ShadowEntry F))
  last_touch symbol [] = none
  last_touch symbol (e ∷ es) =
      let rest = last_touch symbol es in elim rest [ none ↦ touched symbol e | some v ↦ some v ]

  -- The symbol's last entry, if no exit has followed it.
  abbrev pub held_by : String → List (Event F) → Option (ShadowEntry F)
  held_by symbol es = elim (last_touch symbol es) [ none ↦ none | some v ↦ v ]

  apply-IsUnique :
      (e : Event F) (ps : List (String × ShadowEntry F)) → IsUnique ps → IsUnique (apply e ps)
  unfolding apply
  apply-IsUnique (Event.entry e) ps h = insert-IsUnique e.symbol e ps h
  apply-IsUnique (Event.exit e) ps h = remove-IsUnique e.symbol ps h
  apply-IsUnique (Event.missed _ _ _) ps h = h

  lookup-apply :
      (symbol : String) (e : Event F) (ps : List (String × ShadowEntry F))
      → IsUnique ps
      → lookup symbol (apply e ps)
        ≡ (elim (touched symbol e) [ none ↦ lookup symbol ps | some v ↦ v ])
  unfolding apply
  lookup-apply symbol (Event.entry e) ps h = ground (arith, lookup-insert e.symbol symbol e ps)
  lookup-apply symbol (Event.exit e) ps h = ground (arith, lookup-remove e.symbol symbol ps h)
  lookup-apply symbol (Event.missed _ _ _) ps h = refl

  lookup-apply_all :
      (symbol : String) (es : List (Event F)) (ps : List (String × ShadowEntry F))
      → IsUnique ps
      → lookup symbol (apply_all es ps)
        ≡ (elim (last_touch symbol es) [ none ↦ lookup symbol ps | some v ↦ v ])
  unfolding apply_all last_touch
  lookup-apply_all symbol [] ps h = refl
  lookup-apply_all symbol (e ∷ es) ps h = ground (
    arith,
    lookup-apply_all symbol es (apply e ps) (apply-IsUnique e ps h),
    lookup-apply symbol e ps h,
  )

  apply_all-append :
      (es fs : List (Event F)) (positions : List (String × ShadowEntry F))
      → apply_all (es ++ fs) positions ≡ apply_all fs (apply_all es positions)
  unfolding apply_all
  apply_all-append [] fs positions = refl
  apply_all-append (e ∷ es) fs positions = apply_all-append es fs (apply e positions)

  load_lines-snoc :
      (loads : List (Text F) → Option (Event F)) (ls : List (List (Text F))) (l : List (Text F))
      (es : List (Event F)) (e : Event F)
      → load_lines loads ls ≡ some es
      → loads l ≡ some e
      → load_lines loads (ls ++ (l ∷ [])) ≡ some (es ++ (e ∷ []))
  unfolding load_lines
  load_lines-snoc loads [] l es e h k = ground (arith, h, k)
  load_lines-snoc loads (m ∷ ls) l [] e h k = ground (arith, h)
  load_lines-snoc loads (m ∷ ls) l (f ∷ es) e h k =
      ground (arith, h, k, load_lines-snoc loads ls l es e)

module _ {F : Type 0} ⦃o : FloatOps F⦄ where
  unfoldable pub perform : Settings F → Call F → ShadowEngine F → ShadowEngine F
  perform cfg (Call.entering now written req price) s = (simulate cfg now written req price s).1
  perform cfg (Call.exiting now written req price) s = (simulate_exit cfg now written req price s).1
  perform cfg (Call.missing now written symbol why) s = (record_missed now written symbol why s).1

  unfoldable pub perform_all : Settings F → List (Call F) → ShadowEngine F → ShadowEngine F
  perform_all cfg [] s = s
  perform_all cfg (c ∷ cs) s = perform_all cfg cs (perform cfg c s)

module _ {F : Type 0} ⦃o : FloatOps F⦄ (loads : List (Text F) → Option (Event F)) where
  -- The file has whole lines, which load as the events, and the positions are what these leave.
  abbrev pub IsKept : ShadowEngine F → Type 0
  IsKept s =
      (s.file.unended ≡ [])
      × (load_lines loads s.file.lines ≡ some s.events)
      × (s.positions ≡ apply_all s.events [])

  record_event-IsKept :
      (laws : Loads loads) (e : Event F) (written : Written) (s : ShadowEngine F)
      → is_untorn written ≡ true
      → IsKept s
      → IsKept (record_event e written s).1
  unfolding record_event write_line
  record_event-IsKept laws e Written.refused s u h = elim (Bool-cases (is_storable e)) [
    | inl fine ↦ rw fine h
    | inr bad ↦ rw bad h
  ]
  record_event-IsKept laws e Written.torn s u h = ground (arith, u)
  record_event-IsKept laws e Written.taken s u (ended, loaded, placed) =
      elim (Bool-cases (is_storable e)) [
        | inr bad ↦ rw bad (ended, loaded, placed)
        | inl fine ↦
            rw (fine, ended)
              (
                refl,
                load_lines-snoc loads s.file.lines (Text.json e ∷ []) s.events e loaded
                    (laws e fine),
                ap (apply e) placed
                    ∙ sym (unfold apply_all in apply_all-append s.events (e ∷ []) []),
              )
      ]

  stored-IsKept :
      {A : Type 0} (r : A) (x : Bool × ShadowEngine F) → IsKept x.1 → IsKept (stored r x).1
  stored-IsKept r (true, s) h = h
  stored-IsKept r (false, s) h = h

  perform-IsKept :
      (laws : Loads loads) (cfg : Settings F) (c : Call F) (s : ShadowEngine F)
      → writes_whole c ≡ true
      → IsKept s
      → IsKept (perform cfg c s)
  unfolding perform simulate simulate_exit record_missed
  perform-IsKept laws cfg (Call.entering now written req price) s u h =
      elim (Option-cases (lookup req.symbol s.positions)) [
        | inl free ↦
            rw (perform, simulate, free)
              (stored-IsKept _ _ (record_event-IsKept laws _ written s u h))
        | inr (p, held) ↦ rw (perform, simulate, held) h
      ]
  perform-IsKept laws cfg (Call.exiting now written req price) s u h =
      elim (Option-cases (lookup req.symbol s.positions)) [
        | inl free ↦ rw (perform, simulate_exit, free) h
        | inr (p, held) ↦ elim (Bool-cases (req.qty =F p.qty)) [
          | inl same ↦
              rw (perform, simulate_exit, held, same)
                (stored-IsKept _ _ (record_event-IsKept laws _ written s u h))
          | inr other ↦ rw (perform, simulate_exit, held, other) h
        ]
      ]
  perform-IsKept laws cfg (Call.missing now written symbol why) s u h =
      record_event-IsKept laws (Event.missed symbol why now) written s u h

  perform_all-IsKept :
      (laws : Loads loads) (cfg : Settings F) (cs : List (Call F)) (s : ShadowEngine F)
      → all writes_whole cs ≡ true
      → IsKept s
      → IsKept (perform_all cfg cs s)
  unfolding perform_all
  perform_all-IsKept laws cfg [] s u h = h
  perform_all-IsKept laws cfg (c ∷ cs) s u h =
      perform_all-IsKept laws cfg cs (perform cfg c s) (ground (arith, u))
        (perform-IsKept laws cfg c s (ground (arith, u)) h)

  restarted : (s : ShadowEngine F) → IsKept s → new_engine loads s.file ≡ some s
  unfolding new_engine
  restarted s (ended, loaded, placed) =
      let read : load_lines loads (lines_of s.file) ≡ some s.events =
        ground (arith, ended, loaded) in
      rw (new_engine, read) (ap (λ ps. some (record s { positions = ps })) (sym placed))

  started :
      (f : ShadowFile F) (s : ShadowEngine F)
      → f.unended ≡ []
      → new_engine loads f ≡ some s
      → IsKept s
  unfolding new_engine
  started f s ended h = ground (arith, ended, h)

  -- An engine that is started from a file whose last line is ended, and then makes any calls, each with a
  -- write that is taken or refused, and not one that leaves a part of a line: `ShadowEngine()` reads the
  -- very same engine, its events and its positions, from the file that these calls leave, where JSON loads what it
  -- dumped; and the position of a symbol is its last entry in the history if no exit has followed that.
  pub restart_lem :
      (laws : Loads loads) (cfg : Settings F) (f : ShadowFile F) (cs : List (Call F))
      (s : ShadowEngine F) (symbol : String)
      → f.unended ≡ []
      → all writes_whole cs ≡ true
      → new_engine loads f ≡ some s
      → let s' = perform_all cfg cs s in
        (new_engine loads s'.file ≡ some s')
        × (lookup symbol s'.positions ≡ held_by symbol s'.events)
  restart_lem laws cfg f cs s symbol ended whole h =
      let s' = perform_all cfg cs s in
      let kept = perform_all-IsKept laws cfg cs s whole (started f s ended h) in
      (restarted s' kept, ap (lookup symbol) kept.2 ∙ lookup-apply_all symbol s'.events [] tt)
