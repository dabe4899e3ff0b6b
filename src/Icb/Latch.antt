-- ===== src/Icb/Latch.antt =====
-- services/icb/system_state.py and engine.py: when the latch of the kill switch holds.
use apex_trader.Base.{◌≡◌, ◌≢◌, inl, inr, refl, String, Bool, true, false, some, eq_iff}
use apex_trader.Cache.{Redis, RedisLaws, Reads, Reads-set, Reads-set_two, set_two}
use apex_trader.Icb.SystemState.{
  SystemState, emergency_lock, state_key, kill_latch_key, reason_key, Memory,
  get_kill_switch_latched, persist_system_state, set_kill_switch_latched, bool_text, latched_from,
  value,
}
use apex_trader.Icb.Engine.{Brain, activate_emergency_lock}

state_key-ne : state_key ≢ kill_latch_key
state_key-ne h = let differ : false ≡ true = (eq_iff state_key kill_latch_key).1 h in cc differ

reason_key-ne : reason_key ≢ kill_latch_key
reason_key-ne h = let differ : false ≡ true = (eq_iff reason_key kill_latch_key).1 h in cc differ

module _ {C : Type 0} ⦃r : Redis C⦄ where
  -- What the latch reads where the cache and the process agree.
  latched_of_Reads :
      (on : Bool) (m : Memory C)
      → m.kill_latched ≡ on
      → Reads kill_latch_key (bool_text on) m.cache
      → get_kill_switch_latched m ≡ on
  unfolding get_kill_switch_latched
  latched_of_Reads true m h (inl e) = rw (e, latched_from) h
  latched_of_Reads true m h (inr e) = rw e
  latched_of_Reads false m h (inl e) = rw (e, latched_from) h
  latched_of_Reads false m h (inr e) = rw e

  persist-latched :
      (s : SystemState) (why : String) (m : Memory C)
      → (persist_system_state s why m).kill_latched ≡ m.kill_latched
  unfolding persist_system_state
  persist-latched s why m = refl

  persist-Reads :
      (laws : RedisLaws r) (v : String) (s : SystemState) (why : String) (m : Memory C)
      → Reads kill_latch_key v m.cache
      → Reads kill_latch_key v (persist_system_state s why m).cache
  unfolding persist_system_state value
  persist-Reads laws v s why m h =
      Reads-set_two laws kill_latch_key v state_key (value s) reason_key why m.cache state_key-ne
        reason_key-ne h

  latch-Reads :
      (laws : RedisLaws r) (m : Memory C)
      → (r.set kill_latch_key "true" m.cache).1 ≡ true
      → Reads kill_latch_key "true" (set_kill_switch_latched true m).cache
  unfolding set_kill_switch_latched
  latch-Reads laws m ok =
      let written : Memory C = record m {
        kill_latched = true;
        cache = (r.set kill_latch_key "true" m.cache).0;
      } in
      persist-Reads laws "true" emergency_lock "Kill switch latched" written
        (Reads-set laws kill_latch_key "true" m.cache ok)

  -- If Redis takes the write of the latch, the latch reads as set, after an emergency lock and its two
  -- further writes, whether or not those succeed and whether or not Redis can be read.
  pub activate-latches :
      (laws : RedisLaws r) (why : String) (b : Brain C)
      → (r.set kill_latch_key "true" b.memory.cache).1 ≡ true
      → get_kill_switch_latched (activate_emergency_lock why b).memory ≡ true
  unfolding activate_emergency_lock
  activate-latches laws why b ok =
      let m = set_kill_switch_latched true b.memory in
      latched_of_Reads true (persist_system_state emergency_lock why m)
        (unfold set_kill_switch_latched persist_system_state in refl)
        (persist-Reads laws "true" emergency_lock why m (latch-Reads laws b.memory ok))

  -- Where Redis can be read and refuses every write, and holds an earlier "false", the latch reads as
  -- not set after an emergency lock: the process's own copy, which is set, is not asked.
  pub activate_unlatched :
      (why : String) (b : Brain C)
      → ((k v : String) → r.set k v b.memory.cache ≡ (b.memory.cache, false))
      → r.get kill_latch_key b.memory.cache ≡ some (some "false")
      → (get_kill_switch_latched (activate_emergency_lock why b).memory ≡ false)
        × ((activate_emergency_lock why b).memory.kill_latched ≡ true)
  unfolding activate_emergency_lock set_kill_switch_latched get_kill_switch_latched
      persist_system_state set_two
  activate_unlatched why b refused stale = (simp (refused, stale), refl)
