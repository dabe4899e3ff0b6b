-- ===== src/Cache.antt =====
-- shared/events.py: `cache_get` and `cache_set`. Redis is a parameter: `get` and `set` on a state of
-- the server as this process sees it. `none` from `get`, and `false` from `set`, is a call that
-- raised; a write that raises may have changed the server all the same.
use apex_trader.Base.{
  ◌≡◌, ◌≢◌, ◌⊎◌, inl, inr, ◌∙◌, Bool-cases, String, Bool, true, Option, none, some, if◌then◌else◌,
}

pub record Redis (C : Type 0) : Type 0 where
  pub get : String → C → Option (Option String)
  pub set : String → String → C → C × Bool

-- What Redis documents of keys whose time to live has not run out: a key that was written reads as the
-- value written, and no other key changes. A read may raise.
pub record RedisLaws {C : Type 0} (r : Redis C) : Type 0 where
  pub get-set :
      (k v : String) (c : C)
      → (r.set k v c).1 ≡ true
      → (r.get k (r.set k v c).0 ≡ none) ⊎ (r.get k (r.set k v c).0 ≡ some (some v))
  pub get-set_ne :
      (k j v : String) (c : C)
      → k ≢ j
      → (r.get j (r.set k v c).0 ≡ none) ⊎ (r.get j (r.set k v c).0 ≡ r.get j c)

-- The value of a key that is there and not empty; `none` where the source goes on to its fallback.
abbrev pub truthy : Option (Option String) → Option String
truthy none = none
truthy (some none) = none
truthy (some (some String.[])) = none
truthy (some (some s)) = some s

module _ {C : Type 0} ⦃r : Redis C⦄ where
  -- The key, if it can be read, has the value.
  abbrev pub Reads : String → String → C → Type 0
  Reads k v c = (r.get k c ≡ none) ⊎ (r.get k c ≡ some (some v))

  -- Two writes in one `try`: the second is not made if the first raises.
  unfoldable pub set_two : String → String → String → String → C → C
  set_two k v j w c = let (c', ok) = r.set k v c in if ok then (r.set j w c').0 else c'

  module _ (laws : RedisLaws r) where
    -- A write that raises may have been made or not, so it counts as a write of another key only.
    pub Reads-set : (k v : String) (c : C) → (r.set k v c).1 ≡ true → Reads k v (r.set k v c).0
    Reads-set k v c h = laws.get-set k v c h

    pub Reads-set_ne : (k v j w : String) (c : C) → j ≢ k → Reads k v c → Reads k v (r.set j w c).0
    Reads-set_ne k v j w c ne h = elim (laws.get-set_ne j k w c ne) [
      | inl gone ↦ inl gone
      | inr same ↦ elim h [ inl unread ↦ inl (same ∙ unread) | inr read ↦ inr (same ∙ read) ]
    ]

    pub Reads-set_two :
        (k v i w j x : String) (c : C) → i ≢ k → j ≢ k → Reads k v c → Reads k v (set_two i w j x c)
    unfolding set_two
    Reads-set_two k v i w j x c ne me h = elim (Bool-cases (r.set i w c).1) [
      | inl fine ↦ rw fine (Reads-set_ne k v j x (r.set i w c).0 me (Reads-set_ne k v i w c ne h))
      | inr raised ↦ rw raised (Reads-set_ne k v i w c ne h)
    ]
