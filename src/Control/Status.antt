-- ===== src/Control/Status.antt =====
-- services/control/reconciliation_state.py: what the reconciliation flag reads as after it was written.
use apex_trader.Base.{◌≡◌, ◌⊎◌, inl, inr, refl, Bool, true, false, Bool-cases, some}
use apex_trader.Cache.{Redis, RedisLaws, Reads, Reads-set}
use apex_trader.Control.Halt.{
  Flags, status_key, status_text, clear_reconciliation_degraded, is_reconciliation_degraded,
  set_reconciliation_degraded,
}

module _ {C : Type 0} ⦃r : Redis C⦄ where
  -- Redis has refused the write of a status, the last that it was asked.
  abbrev pub IsRefused : Bool → C → Type 0
  IsRefused down c =
      (before : C) × ((c ≡ (r.set status_key (status_text down) before).0)
        × ((r.set status_key (status_text down) before).1 ≡ false))

  -- The process's own copy says so, and so does the flag as it is read, Redis first, unless Redis has
  -- refused the write of it.
  abbrev pub ReadsAs : Bool → Flags C → Type 0
  ReadsAs down m =
      (m.degraded ≡ some down) × ((is_reconciliation_degraded m ≡ down) ⊎ IsRefused down m.cache)

  status_of_Reads :
      (down : Bool) (m : Flags C)
      → m.degraded ≡ some down
      → Reads status_key (status_text down) m.cache
      → is_reconciliation_degraded m ≡ down
  unfolding is_reconciliation_degraded
  status_of_Reads true m h (inl e) = rw (e, h) refl
  status_of_Reads true m h (inr e) = rw e refl
  status_of_Reads false m h (inl e) = rw (e, h) refl
  status_of_Reads false m h (inr e) = rw e refl

  module _ (laws : RedisLaws r) where
    pub set_reconciliation_degraded-ReadsAs :
        (m : Flags C) → ReadsAs true (set_reconciliation_degraded m)
    unfolding set_reconciliation_degraded
    set_reconciliation_degraded-ReadsAs m = (
      refl,
      elim (Bool-cases (r.set status_key (status_text true) m.cache).1) [
        | inl taken ↦ inl (
            status_of_Reads true (set_reconciliation_degraded m) refl
              (Reads-set laws status_key (status_text true) m.cache taken))
        | inr refused ↦ inr (m.cache, (refl, refused))
      ],
    )

    pub clear_reconciliation_degraded-ReadsAs :
        (m : Flags C) → ReadsAs false (clear_reconciliation_degraded m)
    unfolding clear_reconciliation_degraded
    clear_reconciliation_degraded-ReadsAs m = (
      refl,
      elim (Bool-cases (r.set status_key (status_text false) m.cache).1) [
        | inl taken ↦ inl (
            status_of_Reads false (clear_reconciliation_degraded m) refl
              (Reads-set laws status_key (status_text false) m.cache taken))
        | inr refused ↦ inr (m.cache, (refl, refused))
      ],
    )
