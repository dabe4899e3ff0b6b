-- ===== src/Control/Resets.antt =====
-- services/control/pnl_reset.py: the reset of a period while Redis answers, and while it refuses writes.
use apex_trader.Base.{
  ◌≡◌, ◌≢◌, inl, inr, refl, sym, ap, ◌∙◌, arith, String, Bool, true, false, none, some, List, [],
  ◌∷◌, str_eq, eq_iff, eq_refl, Bool-cases,
}
use apex_trader.Base.Floats.{FloatOps}
use apex_trader.Base.Dict.{lookup, lookup-insert}
use apex_trader.Cache.{Redis, RedisLaws, truthy}
use apex_trader.Portfolio.Manager.{Manager}
use apex_trader.Control.PnlReset.{
  Period, daily, weekly, monthly, name_of, key_of, ResetMarks, get_last_reset, should_reset,
  mark_reset, reset_period, maybe_reset_pnl_periods, saved_if_reset,
}

key_of-differs : (p q : Period) → p ≢ q → str_eq (key_of p) (key_of q) ≡ false
key_of-differs daily daily ne = ground (arith, ne)
key_of-differs daily weekly ne = refl
key_of-differs daily monthly ne = refl
key_of-differs weekly daily ne = refl
key_of-differs weekly weekly ne = ground (arith, ne)
key_of-differs weekly monthly ne = refl
key_of-differs monthly daily ne = refl
key_of-differs monthly weekly ne = refl
key_of-differs monthly monthly ne = ground (arith, ne)

name_of-differs : (p q : Period) → p ≢ q → str_eq (name_of p) (name_of q) ≡ false
name_of-differs daily daily ne = ground (arith, ne)
name_of-differs daily weekly ne = refl
name_of-differs daily monthly ne = refl
name_of-differs weekly daily ne = refl
name_of-differs weekly weekly ne = ground (arith, ne)
name_of-differs weekly monthly ne = refl
name_of-differs monthly daily ne = refl
name_of-differs monthly weekly ne = refl
name_of-differs monthly monthly ne = ground (arith, ne)

key_of-ne : (p q : Period) → p ≢ q → key_of p ≢ key_of q
key_of-ne p q ne e =
    let absurd : false ≡ true = sym (key_of-differs p q ne) ∙ (eq_iff (key_of p) (key_of q)).1 e in
    cc absurd

-- A text that is not empty.
abbrev pub IsText : String → Type 0
IsText v = truthy (some (some v)) ≡ some v

-- Redis answers every read and takes every write.
pub record Answering {C : Type 0} (r : Redis C) : Type 0 where
  pub reads : (k : String) (c : C) → r.get k c ≢ none
  pub writes : (k v : String) (c : C) → (r.set k v c).1 ≡ true

module _ {C : Type 0} ⦃r : Redis C⦄ where
  module _ (laws : RedisLaws r) (up : Answering r) where
    read-set : (k v : String) (c : C) → r.get k (r.set k v c).0 ≡ some (some v)
    read-set k v c = elim (laws.get-set k v c (up.writes k v c)) [
      | inl raised ↦ ground (arith, up.reads k (r.set k v c).0 raised)
      | inr read ↦ read
    ]

    read-set_ne : (k j v : String) (c : C) → k ≢ j → r.get j (r.set k v c).0 ≡ r.get j c
    read-set_ne k j v c ne = elim (laws.get-set_ne k j v c ne) [
      | inl raised ↦ ground (arith, up.reads j (r.set k v c).0 raised)
      | inr same ↦ same
    ]

    should_reset-mark :
        (p : Period) (v : String) (m : ResetMarks C)
        → IsText v
        → should_reset p v (mark_reset p v m) ≡ false
    unfolding should_reset get_last_reset mark_reset
    should_reset-mark p v m h =
        rw (should_reset, get_last_reset, read-set (key_of p) v m.cache, h, eq_refl v) refl

    memory-mark_ne :
        (p q : Period) (w : String) (m : ResetMarks C)
        → q ≢ p
        → lookup (name_of p) (mark_reset q w m).memory ≡ lookup (name_of p) m.memory
    unfolding mark_reset
    memory-mark_ne p q w m ne =
        lookup-insert (name_of q) (name_of p) w m.memory ∙ rw (name_of-differs q p ne) refl

    should_reset-mark_ne :
        (p q : Period) (v w : String) (m : ResetMarks C)
        → q ≢ p
        → should_reset p v (mark_reset q w m) ≡ should_reset p v m
    unfolding should_reset get_last_reset mark_reset
    should_reset-mark_ne p q v w m ne =
        rw
          (
            should_reset,
            get_last_reset,
            read-set_ne (key_of q) (key_of p) w m.cache (key_of-ne q p ne),
            memory-mark_ne p q w m ne,
          )
          refl

  stale_due :
      (today old : String) (m : ResetMarks C)
      → r.get (key_of daily) m.cache ≡ some (some old)
      → IsText old
      → str_eq old today ≡ false
      → should_reset daily today m ≡ true
  unfolding should_reset get_last_reset
  stale_due today old m stale text differs =
      rw (should_reset, get_last_reset, stale, text, differs) refl

  module _ {F : Type 0} ⦃o : FloatOps F⦄ where
    -- The steps' marks.
    abbrev marks_of : Manager F × ResetMarks C × List Period → ResetMarks C
    marks_of t = t.1

    marks_of-saved :
        (saved : Bool) (t : Manager F × ResetMarks C × List Period)
        → marks_of (saved_if_reset saved t) ≡ marks_of t
    marks_of-saved saved (manager, m, []) = refl
    marks_of-saved saved (manager, m, p ∷ ps) = refl

    reset_period-current :
        (p : Period) (v : String) (manager : Manager F) (m : ResetMarks C) (done : List Period)
        → should_reset p v m ≡ false
        → reset_period p v (manager, m, done) ≡ (manager, m, done)
    unfolding reset_period
    reset_period-current p v manager m done h = rw h refl

    module _ (laws : RedisLaws r) (up : Answering r) where
      reset_period-settles :
          (p : Period) (v : String) (t : Manager F × ResetMarks C × List Period)
          → IsText v
          → should_reset p v (marks_of (reset_period p v t)) ≡ false
      unfolding reset_period
      reset_period-settles p v (manager, m, done) h = elim (Bool-cases (should_reset p v m)) [
        | inl due ↦ rw due (should_reset-mark laws up p v m h)
        | inr settled ↦ rw settled settled
      ]

      reset_period-keeps :
          (p q : Period) (v w : String) (t : Manager F × ResetMarks C × List Period)
          → q ≢ p
          → should_reset p v (marks_of t) ≡ false
          → should_reset p v (marks_of (reset_period q w t)) ≡ false
      unfolding reset_period
      reset_period-keeps p q v w (manager, m, done) ne h = elim (Bool-cases (should_reset q w m)) [
        | inl due ↦ rw due (should_reset-mark_ne laws up p q v w m ne ∙ h)
        | inr settled ↦ rw settled h
      ]

      all_current :
          (today week_key month_key : String) (saved : Bool) (manager : Manager F)
          (m : ResetMarks C)
          → should_reset daily today m ≡ false
          → should_reset weekly week_key m ≡ false
          → should_reset monthly month_key m ≡ false
          → maybe_reset_pnl_periods today week_key month_key saved manager m ≡ (manager, m, [])
      unfolding maybe_reset_pnl_periods
      all_current today week_key month_key saved manager m d w n =
          rw
            (
              reset_period-current daily today manager m [] d,
              reset_period-current weekly week_key manager m [] w,
              reset_period-current monthly month_key manager m [] n,
            )
            refl

      -- While Redis answers every read and takes every write, a second call within the same day, week
      -- and month resets nothing and leaves the portfolio and the marks as the first call left them.
      pub resets_once :
          (today week_key month_key : String) (saved again : Bool) (manager : Manager F)
          (m : ResetMarks C)
          → IsText today
          → IsText week_key
          → IsText month_key
          → let first = maybe_reset_pnl_periods today week_key month_key saved manager m in
            maybe_reset_pnl_periods today week_key month_key again first.0 first.1
            ≡ (first.0, first.1, [])
      unfolding maybe_reset_pnl_periods
      resets_once today week_key month_key saved again manager m td tw tm =
          let t1 = reset_period daily today (manager, m, []) in
          let t2 = reset_period weekly week_key t1 in
          let t3 = reset_period monthly month_key t2 in
          all_current today week_key month_key again (saved_if_reset saved t3).0
            (saved_if_reset saved t3).1
            (rw (marks_of-saved saved t3) (
              reset_period-keeps daily monthly today month_key t2 (ground arith) (
                reset_period-keeps daily weekly today week_key t1 (ground arith)
                  (reset_period-settles daily today (manager, m, []) td))))
            (rw (marks_of-saved saved t3) (
              reset_period-keeps weekly monthly week_key month_key t2 (ground arith)
                (reset_period-settles weekly week_key t1 tw)))
            (rw (marks_of-saved saved t3) (reset_period-settles monthly month_key t2 tm))

    reset_period-cache :
        (p : Period) (v : String) (t : Manager F × ResetMarks C × List Period)
        → ((k w : String) (c : C) → r.set k w c ≡ (c, false))
        → (marks_of (reset_period p v t)).cache ≡ (marks_of t).cache
    unfolding reset_period mark_reset
    reset_period-cache p v (manager, m, done) refused = elim (Bool-cases (should_reset p v m)) [
      | inl due ↦ rw due (ap (λ x. x.0) (refused (key_of p) v m.cache))
      | inr settled ↦ rw settled refl
    ]

    -- Where Redis can be read and refuses every write, and holds an earlier day as the last one reset,
    -- each call of a day finds the daily profit due again, for the process's own mark is not asked.
    pub resets_again :
        (today old week_key month_key : String) (saved : Bool) (manager : Manager F)
        (m : ResetMarks C)
        → ((k v : String) (c : C) → r.set k v c ≡ (c, false))
        → r.get (key_of daily) m.cache ≡ some (some old)
        → IsText old
        → str_eq old today ≡ false
        → let first = maybe_reset_pnl_periods today week_key month_key saved manager m in
          (first.1.cache ≡ m.cache) × (should_reset daily today first.1 ≡ true)
    unfolding maybe_reset_pnl_periods
    resets_again today old week_key month_key saved manager m refused stale text differs =
        let t1 = reset_period daily today (manager, m, []) in
        let t2 = reset_period weekly week_key t1 in
        let t3 = reset_period monthly month_key t2 in
        let same : (marks_of (saved_if_reset saved t3)).cache ≡ m.cache =
          ap (λ x. x.cache) (marks_of-saved saved t3)
          ∙ reset_period-cache monthly month_key t2 refused
          ∙ reset_period-cache weekly week_key t1 refused
          ∙ reset_period-cache daily today (manager, m, []) refused in
        (
          same,
          stale_due today old (marks_of (saved_if_reset saved t3))
              (ap (r.get (key_of daily)) same ∙ stale) text differs,
        )
