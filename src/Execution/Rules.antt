-- ===== src/Execution/Rules.antt =====
-- What a coroutine leaves behind, put together from its steps.
use apex_trader.Base.{
  ap, sym, ◌∙◌, arith, subst, ◌≡◌, refl, Bool, true, false, String, if◌then◌else◌,
}
use apex_trader.Execution.World.{Result, ok, raised, World}
use apex_trader.Execution.Run.{Run, go_on, handled, ◌>>=◌, pure, raise, gets, outcome, try, call}

module _ {F B W : Type 0} where
  abbrev pub Any : World F B W → Type 0
  Any w = Unit {0}

  module _ {A : Type 0} where
    -- `G`, of the value and the world, if there is a value; nothing after an exception.
    abbrev pub After : (A → World F B W → Type 0) → Result A × World F B W → Type 0
    After G (ok a, w) = G a w
    After G (raised e, w) = Unit {0}

    -- From a world with `P`, a value that `m` returns has `G`.
    pub record Holds (P : World F B W → Type 0) (m : Run F B W A) (G : A → World F B W → Type 0)
        : Type 0 where
      pub at : (w : World F B W) → P w → After G (m w)

    -- `m` keeps `P`, whether it returns or raises.
    pub record Keeps (P : World F B W → Type 0) (m : Run F B W A) : Type 0 where
      pub at : (w : World F B W) → P w → P (m w).1

    -- From a world with `P`, `m` ends in one with `Q`, whether it returns or raises.
    pub record Ends (P : World F B W → Type 0) (m : Run F B W A) (Q : World F B W → Type 0)
        : Type 0 where
      pub at : (w : World F B W) → P w → Q (m w).1

  module _ {A C : Type 0} where
    After-go_on :
        {G : A → World F B W → Type 0} (H : C → World F B W → Type 0) (f : A → Run F B W C)
        (x : Result A × World F B W)
        → After G x
        → ((a : A) (w : World F B W) → G a w → After H (f a w))
        → After H (go_on f x)
    After-go_on H f (ok a, w) g k = k a w g
    After-go_on H f (raised e, w) g k = tt

    After-looked :
        {G : A → World F B W → Type 0} (H : C → World F B W → Type 0) (f : Result A → Run F B W C)
        (x : Result A × World F B W)
        → After G x
        → ((a : A) (w : World F B W) → G a w → After H (f (ok a) w))
        → ((e : String) (w : World F B W) → After H (f (raised e) w))
        → After H (f x.0 x.1)
    After-looked H f (ok a, w) g k l = k a w g
    After-looked H f (raised e, w) g k l = l e w

    known_go_on :
        {P : World F B W → Type 0} (G : A → Type 0) (f : A → Run F B W C)
        (x : Result A × World F B W)
        → P x.1
        → After (λ a w. G a) x
        → ((a : A) → G a → (w : World F B W) → P w → P (f a w).1)
        → P (go_on f x).1
    known_go_on G f (ok a, w) p g k = k a g w p
    known_go_on G f (raised e, w) p g k = p

    kept_go_on :
        {P : World F B W → Type 0} (f : A → Run F B W C) (x : Result A × World F B W)
        → P x.1
        → ((a : A) (w : World F B W) → P w → P (f a w).1)
        → P (go_on f x).1
    kept_go_on f (ok a, w) p k = k a w p
    kept_go_on f (raised e, w) p k = p

    pub Holds-bind :
        {P : World F B W → Type 0} {G : A → World F B W → Type 0} {H : C → World F B W → Type 0}
        {m : Run F B W A} {f : A → Run F B W C}
        → Holds P m G
        → ((a : A) → Holds (G a) (f a) H)
        → Holds P (m >>= f) H
    unfolding ◌>>=◌
    Holds-bind {G} {H} {m} {f} h k = record {
      at = λ w p. After-go_on {G = G} H f (m w) (h.at w p) (λ a w'. (k a).at w');
    }

    -- An exception of `m` is looked at too.
    pub Holds-outcome :
        {P : World F B W → Type 0} {G : A → World F B W → Type 0} {H : C → World F B W → Type 0}
        {m : Run F B W A} (f : Result A → Run F B W C)
        → Holds P m G
        → ((a : A) → Holds (G a) (f (ok a)) H)
        → ((e : String) → Holds Any (f (raised e)) H)
        → Holds P (outcome m >>= f) H
    unfolding ◌>>=◌ outcome
    Holds-outcome {G} {H} {m} f h k l = record {
      at = λ w p.
          After-looked {G = G} H f (m w) (h.at w p) (λ a w'. (k a).at w') (λ e w'. (l e).at w' tt);
    }

    pub Keeps-bind :
        {P : World F B W → Type 0} {m : Run F B W A} {f : A → Run F B W C}
        → Keeps P m
        → ((a : A) → Keeps P (f a))
        → Keeps P (m >>= f)
    unfolding ◌>>=◌
    Keeps-bind {P} {m} {f} h k = record {
      at = λ w p. kept_go_on {P = P} f (m w) (h.at w p) (λ a w'. (k a).at w');
    }

  module _ {A : Type 0} where
    After-handled :
        (G : A → World F B W → Type 0) (handler : String → Run F B W A) (x : Result A × World F B W)
        → After G x
        → ((e : String) (w : World F B W) → After G (handler e w))
        → After G (handled handler x)
    After-handled G handler (ok a, w) g k = g
    After-handled G handler (raised e, w) g k = k e w

    kept_handled :
        {P : World F B W → Type 0} (handler : String → Run F B W A) (x : Result A × World F B W)
        → P x.1
        → ((e : String) (w : World F B W) → P w → P (handler e w).1)
        → P (handled handler x).1
    kept_handled handler (ok a, w) p k = p
    kept_handled handler (raised e, w) p k = k e w p

    After-any :
        (G : A → World F B W → Type 0) (x : Result A × World F B W)
        → ((a : A) → x.0 ≡ ok a → G a x.1)
        → After G x
    After-any G (ok a, w) h = h a refl
    After-any G (raised e, w) h = tt

    pub Holds-try :
        {P : World F B W → Type 0} {G : A → World F B W → Type 0} {m : Run F B W A}
        {handler : String → Run F B W A}
        → Holds P m G
        → ((e : String) → Holds Any (handler e) G)
        → Holds P (try m handler) G
    unfolding try
    Holds-try {G} {m} {handler} h k = record {
      at = λ w p. After-handled G handler (m w) (h.at w p) (λ e w'. (k e).at w' tt);
    }

    pub Keeps-try :
        {P : World F B W → Type 0} {m : Run F B W A} {handler : String → Run F B W A}
        → Keeps P m
        → ((e : String) → Keeps P (handler e))
        → Keeps P (try m handler)
    unfolding try
    Keeps-try {P} {m} {handler} h k = record {
      at = λ w p. kept_handled {P = P} handler (m w) (h.at w p) (λ e w'. (k e).at w');
    }

    pub Keeps-outcome :
        {P : World F B W → Type 0} {m : Run F B W A} → Keeps P m → Keeps P (outcome m)
    unfolding outcome
    Keeps-outcome h = record { at = λ w p. h.at w p }

    -- What is kept is true at the end of a run that returns.
    pub Holds-keeps :
        {P : World F B W → Type 0} {m : Run F B W A} → Keeps P m → Holds P m (λ a w. P w)
    Holds-keeps {P} {m} h = record { at = λ w p. After-any (λ a w'. P w') (m w) (λ a e. h.at w p) }

    pub Holds-pure :
        {P : World F B W → Type 0} {G : A → World F B W → Type 0} (a : A)
        → ((w : World F B W) → P w → G a w)
        → Holds P (pure a) G
    unfolding pure
    Holds-pure a h = record { at = λ w p. h w p }

    pub Holds-raise :
        {P : World F B W → Type 0} {G : A → World F B W → Type 0} (e : String)
        → Holds P (raise {A = A} e) G
    unfolding raise
    Holds-raise e = record { at = λ w p. tt }

    -- An answer to a call that is made from a known state.
    pub Holds-call_at :
        (st : B) (f : B → Result A × B)
        → Holds (λ w. w.broker ≡ st) (call f) (λ a w. (f st).0 ≡ ok a)
    unfolding call
    Holds-call_at st f = record {
      at = λ w p.
          After-any (λ a w'. (f st).0 ≡ ok a) (call f w) λ a e. ap (λ s. (f s).0) (sym p) ∙ e;
    }

    -- A value of the broker is an answer of the broker.
    pub Holds-call :
        {P : World F B W → Type 0} (f : B → Result A × B)
        → Holds P (call f) (λ a w. (st : B) × ((f st).0 ≡ ok a))
    unfolding call
    Holds-call f = record {
      at =
          λ w p. After-any (λ a w'. (st : B) × ((f st).0 ≡ ok a)) (call f w) (λ a e. (w.broker, e));
    }

    pub Keeps-pure : {P : World F B W → Type 0} (a : A) → Keeps P (pure a)
    unfolding pure
    Keeps-pure a = record { at = λ w p. p }

    pub Keeps-raise : {P : World F B W → Type 0} (e : String) → Keeps P (raise {A = A} e)
    unfolding raise
    Keeps-raise e = record { at = λ w p. p }

    pub Keeps-gets : {P : World F B W → Type 0} (f : World F B W → A) → Keeps P (gets f)
    unfolding gets
    Keeps-gets f = record { at = λ w p. p }

    pub Keeps-if :
        {P : World F B W → Type 0} (t : Bool) {m n : Run F B W A}
        → Keeps P m
        → Keeps P n
        → Keeps P (if t then m else n)
    Keeps-if true h k = h
    Keeps-if false h k = k

    pub Holds-if :
        {P : World F B W → Type 0} {G : A → World F B W → Type 0} (t : Bool) {m n : Run F B W A}
        → (t ≡ true → Holds P m G)
        → (t ≡ false → Holds P n G)
        → Holds P (if t then m else n) G
    Holds-if true h k = h refl
    Holds-if false h k = k refl

    pub Holds-nothing : {P : World F B W → Type 0} (m : Run F B W A) → Holds P m (λ a w. Any w)
    Holds-nothing m = record { at = λ w p. After-any (λ a w'. Any w') (m w) λ a e. tt }

    After-mono :
        {G H : A → World F B W → Type 0} (x : Result A × World F B W)
        → After G x
        → ((a : A) (w : World F B W) → G a w → H a w)
        → After H x
    After-mono (ok a, w) g k = k a w g
    After-mono (raised e, w) g k = tt

    pub Holds-mono :
        {P : World F B W → Type 0} {G H : A → World F B W → Type 0} {m : Run F B W A}
        → Holds P m G
        → ((a : A) (w : World F B W) → G a w → H a w)
        → Holds P m H
    Holds-mono {G} {H} {m} h k = record { at = λ w p. After-mono (m w) (h.at w p) k }

    pub Holds-pre :
        {P Q : World F B W → Type 0} {G : A → World F B W → Type 0} {m : Run F B W A}
        → Holds Q m G
        → ((w : World F B W) → P w → Q w)
        → Holds P m G
    Holds-pre h k = record { at = λ w p. h.at w (k w p) }

    pub returned :
        (G : A → World F B W → Type 0) (x : Result A × World F B W) (a : A)
        → x.0 ≡ ok a
        → After G x
        → G a x.1
    returned G (ok c, w) a h g = subst (λ c. G c w) (ground (arith, h)) g
    returned G (raised e, w) a h g = ground (arith, h)

    -- A precondition that does not speak of the world.
    pub Holds-keep_fact :
        {C : Type 0} {G : A → World F B W → Type 0} {m : Run F B W A}
        → (C → Holds Any m G)
        → Holds (λ w. C) m G
    Holds-keep_fact h = record { at = λ w c. (h c).at w tt }

    pub Holds-fact :
        {P : World F B W → Type 0} {C : Type 0} {G : A → World F B W → Type 0} {m : Run F B W A}
        → (C → Holds P m G)
        → Holds (λ w. P w × C) m G
    Holds-fact h = record { at = λ w p. (h p.1).at w p.0 }

    -- From a precondition that cannot be.
    pub Holds-never :
        {P : World F B W → Type 0} {G : A → World F B W → Type 0} {m : Run F B W A}
        → ((w : World F B W) → P w → ⊥)
        → Holds P m G
    Holds-never h = record { at = λ w p. absurd (h w p) }

    pub Holds-any :
        {P : World F B W → Type 0} {G : A → World F B W → Type 0} {m : Run F B W A}
        → Holds Any m G
        → Holds P m G
    Holds-any h = record { at = λ w p. h.at w tt }

  module _ {A C : Type 0} where
    -- Whatever a step gives.
    pub Holds-then :
        {P : World F B W → Type 0} {H : C → World F B W → Type 0} (m : Run F B W A)
        {f : A → Run F B W C}
        → ((a : A) → Holds Any (f a) H)
        → Holds P (m >>= f) H
    Holds-then m k = Holds-bind (Holds-nothing m) k

    -- An answer of the broker is looked at, also when the call raised.
    pub Holds-asked :
        {P : World F B W → Type 0} {H : C → World F B W → Type 0} (f : B → Result A × B)
        {g : Result A → Run F B W C}
        → ((a : Result A) (st : B) → (f st).0 ≡ a → Holds Any (g a) H)
        → Holds P (outcome (call f) >>= g) H
    unfolding ◌>>=◌ outcome call
    Holds-asked f k = record { at = λ w p. (k (f w.broker).0 w.broker refl).at _ tt }

    -- What is known of the value of the first step.
    pub Keeps-known :
        {P : World F B W → Type 0} {G : A → Type 0} {m : Run F B W A} {f : A → Run F B W C}
        → Keeps P m
        → Holds P m (λ a w. G a)
        → ((a : A) → G a → Keeps P (f a))
        → Keeps P (m >>= f)
    unfolding ◌>>=◌
    Keeps-known {P} {G} {m} {f} h g k = record {
      at = λ w p. known_go_on {P = P} G f (m w) (h.at w p) (g.at w p) (λ a q w'. (k a q).at w');
    }

    ended_go_on :
        {P Q : World F B W → Type 0} (f : A → Run F B W C) (x : Result A × World F B W)
        → P x.1
        → ((w : World F B W) → P w → Q w)
        → ((a : A) (w : World F B W) → P w → Q (f a w).1)
        → Q (go_on f x).1
    ended_go_on f (ok a, w) p h k = k a w p
    ended_go_on f (raised e, w) p h k = h w p

    pub Ends-bind :
        {P Q : World F B W → Type 0} {m : Run F B W A} {f : A → Run F B W C}
        → Keeps P m
        → ((w : World F B W) → P w → Q w)
        → ((a : A) → Ends P (f a) Q)
        → Ends P (m >>= f) Q
    unfolding ◌>>=◌
    Ends-bind {P} {Q} {m} {f} h i k = record {
      at = λ w p. ended_go_on {P = P} {Q = Q} f (m w) (h.at w p) i (λ a w'. (k a).at w');
    }
