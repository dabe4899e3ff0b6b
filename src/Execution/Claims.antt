-- ===== src/Execution/Claims.antt =====
-- services/execution/idempotency_store.py: the claims of order ids as a map from ids to the seconds that
-- they last, on a Redis that answers every call and on one of which every call raises.
use apex_trader.Base.{
  ℕ, ◌+◌, ◌-◌, ◌<◌, ◌≤◌, ◌≡◌, ◌⊎◌, inl, inr, refl, sym, ap, ◌∙◌, arith, String, Bool, true, false,
  none, some, List, [], ◌∷◌, all, if◌then◌else◌, str_eq, eq_iff, eq_refl, ◌==◌,
}
use text.Mathlib.TextLemmas.{append_cancel_left}
use apex_trader.Base.Dict.{contains}
use apex_trader.Execution.IdempotencyStore.{
  ClaimServer, Claims, key_of, ttl_seconds, discard, claim_order_id, release_order_id,
  seed_order_id,
}

-- The calls of the store, and the passing of a number of seconds between two of them.
pub data Call : Type 0 where
  claiming releasing seeding : String → Call
  waiting : ℕ → Call

abbrev pub keeps : String → Call → Bool
keeps id (Call.releasing j) = if str_eq j id then false else true
keeps id _ = true

-- The seconds that pass in all.
abbrev pub waited : List Call → ℕ
waited [] = 0
waited (Call.waiting d ∷ ks) = d + waited ks
waited (_ ∷ ks) = waited ks

-- What a call does to the seconds for which each id is still claimed, 0 for an id that is not claimed;
-- `ttl` is how long a claim lasts, if claims lapse.
abbrev pub after_call : Bool → ℕ → Call → (String → ℕ) → String → ℕ
after_call lapse ttl (Call.claiming id) ids j =
    if str_eq id j then (if ids j == 0 then ttl else ids j) else ids j
after_call lapse ttl (Call.releasing id) ids j = if str_eq id j then 0 else ids j
after_call lapse ttl (Call.seeding id) ids j = if str_eq id j then ttl else ids j
after_call lapse ttl (Call.waiting d) ids j = if lapse then ids j - d else ids j

unfoldable pub after_calls : Bool → ℕ → List Call → (String → ℕ) → String → ℕ
after_calls lapse ttl [] ids j = ids j
after_calls lapse ttl (k ∷ ks) ids j = after_calls lapse ttl ks (after_call lapse ttl k ids) j

-- Redis as it documents `SET` with `EX` and `NX`, `DEL` and `TTL`, on a server that answers every call:
-- `left` is how many seconds a key has left, 0 for one that is not there. A call takes no time, time
-- passes between the calls.
pub record AnsweringLaws {C : Type 0} (s : ClaimServer C) : Type 0 where
  pub left : String → C → ℕ
  pub set_nx-answers : (k : String) (ttl : ℕ) (c : C) → (s.set_nx k ttl c).0 ≡ some (left k c == 0)
  pub set_nx-left :
      (k j : String) (ttl : ℕ) (c : C)
      → left j (s.set_nx k ttl c).1
        ≡ (if str_eq k j then (if left j c == 0 then ttl else left j c) else left j c)
  pub set_key-answers : (k : String) (ttl : ℕ) (c : C) → (s.set_key k ttl c).0 ≡ true
  pub set_key-left :
      (k j : String) (ttl : ℕ) (c : C)
      → left j (s.set_key k ttl c).1 ≡ (if str_eq k j then ttl else left j c)
  pub delete-answers : (k : String) (c : C) → (s.delete k c).0 ≡ true
  pub delete-left :
      (k j : String) (c : C) → left j (s.delete k c).1 ≡ (if str_eq k j then 0 else left j c)
  pub elapse-left : (j : String) (d : ℕ) (c : C) → left j (s.elapse d c) ≡ left j c - d

-- A server of which every call raises.
pub record RaisingLaws {C : Type 0} (s : ClaimServer C) : Type 0 where
  pub set_nx-raises : (k : String) (ttl : ℕ) (c : C) → (s.set_nx k ttl c).0 ≡ none
  pub set_key-raises : (k : String) (ttl : ℕ) (c : C) → (s.set_key k ttl c).0 ≡ false
  pub delete-raises : (k : String) (c : C) → (s.delete k c).0 ≡ false

pub contains-discard :
    (k j : String) (xs : List String)
    → contains (discard k xs) j ≡ (if str_eq k j then false else contains xs j)
unfolding discard
contains-discard k j [] = ground arith
contains-discard k j (x ∷ xs) =
    ground (arith, eq_iff x k, eq_iff x j, eq_iff k j, contains-discard k j xs)

same_truth : (a b : Bool) → (a ≡ true → b ≡ true) → (b ≡ true → a ≡ true) → a ≡ b
same_truth true b f g = sym (f refl)
same_truth false true f g = g refl
same_truth false false f g = refl

key_of-str_eq : (id j : String) → str_eq (key_of id) (key_of j) ≡ str_eq id j
key_of-str_eq id j =
    same_truth (str_eq (key_of id) (key_of j)) (str_eq id j)
      (λ h.
        (eq_iff id j).1
          (append_cancel_left "apex:idempotency:" id j ((eq_iff (key_of id) (key_of j)).0 h)))
      (λ h. (eq_iff (key_of id) (key_of j)).1 (ap key_of ((eq_iff id j).0 h)))

ttl_seconds-pos : (minutes : ℕ) → 0 < ttl_seconds minutes
ttl_seconds-pos minutes = ground arith

-- A call that does not release the id leaves it at least `n` seconds, less those that pass.
after_call-keeps :
    (lapse : Bool) (ttl n : ℕ) (k : Call) (ids : String → ℕ) (id : String)
    → keeps id k ≡ true
    → n ≤ ttl
    → n + waited (k ∷ []) ≤ ids id
    → n ≤ after_call lapse ttl k ids id
after_call-keeps lapse ttl n (Call.claiming j) ids id w short h = ground (arith, h, short)
after_call-keeps lapse ttl n (Call.releasing j) ids id w short h = ground (arith, h, w)
after_call-keeps lapse ttl n (Call.seeding j) ids id w short h = ground (arith, h, short)
after_call-keeps lapse ttl n (Call.waiting d) ids id w short h = ground (arith, h)

after_call_pointwise :
    (lapse : Bool) (ttl : ℕ) (k : Call) {f g : String → ℕ}
    → ((j : String) → f j ≡ g j)
    → (j : String) → after_call lapse ttl k f j ≡ after_call lapse ttl k g j
after_call_pointwise lapse ttl (Call.claiming id) h j =
    ap (λ n. if str_eq id j then (if n == 0 then ttl else n) else n) (h j)
after_call_pointwise lapse ttl (Call.releasing id) h j =
    ap (λ n. if str_eq id j then 0 else n) (h j)
after_call_pointwise lapse ttl (Call.seeding id) h j =
    ap (λ n. if str_eq id j then ttl else n) (h j)
after_call_pointwise lapse ttl (Call.waiting d) h j = ap (λ n. if lapse then n - d else n) (h j)

after_calls_pointwise :
    (lapse : Bool) (ttl : ℕ) (ks : List Call) {f g : String → ℕ}
    → ((j : String) → f j ≡ g j)
    → (j : String) → after_calls lapse ttl ks f j ≡ after_calls lapse ttl ks g j
unfolding after_calls
after_calls_pointwise lapse ttl [] h j = h j
after_calls_pointwise lapse ttl (k ∷ ks) h j =
    after_calls_pointwise lapse ttl ks (after_call_pointwise lapse ttl k h) j

waited_lem :
    (n : ℕ) (k : Call) (ks : List Call) → n + waited (k ∷ ks) ≡ n + waited ks + waited (k ∷ [])
waited_lem n (Call.claiming j) ks = omega arith
waited_lem n (Call.releasing j) ks = omega arith
waited_lem n (Call.seeding j) ks = omega arith
waited_lem n (Call.waiting d) ks = omega arith

after_calls-keeps :
    (lapse : Bool) (ttl n : ℕ) (ks : List Call) (ids : String → ℕ) (id : String)
    → all (keeps id) ks ≡ true
    → n + waited ks ≤ ttl
    → n + waited ks ≤ ids id
    → n ≤ after_calls lapse ttl ks ids id
unfolding after_calls
after_calls-keeps lapse ttl n [] ids id w short h = omega (arith, h)
after_calls-keeps lapse ttl n (k ∷ ks) ids id w short h =
    let split : n + waited (k ∷ ks) ≡ n + waited ks + waited (k ∷ []) = waited_lem n k ks in
    after_calls-keeps lapse ttl n ks (after_call lapse ttl k ids) id (ground (arith, w))
      (omega (arith, split, short))
      (after_call-keeps lapse ttl (n + waited ks) k ids id (ground (arith, w))
        (omega (arith, split, short)) (omega (arith, split, h)))

module _ {C : Type 0} ⦃s : ClaimServer C⦄ where
  unfoldable pub perform : ℕ → Call → Claims C → Claims C
  perform minutes (Call.claiming id) m = (claim_order_id minutes id m).1
  perform minutes (Call.releasing id) m = release_order_id id m
  perform minutes (Call.seeding id) m = seed_order_id minutes id m
  perform minutes (Call.waiting d) m = record m { server = s.elapse d m.server }

  unfoldable pub perform_all : ℕ → List Call → Claims C → Claims C
  perform_all minutes [] m = m
  perform_all minutes (k ∷ ks) m = perform_all minutes ks (perform minutes k m)

  -- Only Redis forgets a claim.
  abbrev pub lapses : AnsweringLaws s ⊎ RaisingLaws s → Bool
  lapses (inl laws) = true
  lapses (inr laws) = false

  -- The abstract view of the claims: what Redis' keys have left where it answers, and the process's set,
  -- as claims that last, where it raises.
  abbrev pub claim_left : AnsweringLaws s ⊎ RaisingLaws s → ℕ → Claims C → String → ℕ
  claim_left (inl laws) minutes m id = laws.left (key_of id) m.server
  claim_left (inr laws) minutes m id = if contains m.memory id then ttl_seconds minutes else 0

  -- A claim succeeds exactly on an id that is not claimed, and claims it and no other.
  claim_order_id-claims :
      (mode : AnsweringLaws s ⊎ RaisingLaws s) (minutes : ℕ) (id j : String) (m : Claims C)
      → ((claim_order_id minutes id m).0 ≡ (claim_left mode minutes m id == 0))
        × (claim_left mode minutes (claim_order_id minutes id m).1 j
            ≡ after_call
                (lapses mode)
                (ttl_seconds minutes)
                (Call.claiming id)
                (claim_left mode minutes m)
                j)
  unfolding claim_order_id
  claim_order_id-claims (inl laws) minutes id j m = ground (
    arith,
    laws.set_nx-answers (key_of id) (ttl_seconds minutes) m.server,
    laws.set_nx-left (key_of id) (key_of j) (ttl_seconds minutes) m.server,
    key_of-str_eq id j,
  )
  claim_order_id-claims (inr laws) minutes id j m =
      ground (arith, laws.set_nx-raises (key_of id) (ttl_seconds minutes) m.server, eq_iff id j)

  perform-refines :
      (mode : AnsweringLaws s ⊎ RaisingLaws s) (minutes : ℕ) (k : Call) (j : String) (m : Claims C)
      → claim_left mode minutes (perform minutes k m) j
        ≡ after_call (lapses mode) (ttl_seconds minutes) k (claim_left mode minutes m) j
  unfolding perform release_order_id seed_order_id
  perform-refines mode minutes (Call.claiming id) j m =
      (claim_order_id-claims mode minutes id j m).1
  perform-refines (inl laws) minutes (Call.releasing id) j m = ground (
    arith,
    laws.delete-answers (key_of id) m.server,
    laws.delete-left (key_of id) (key_of j) m.server,
    key_of-str_eq id j,
  )
  perform-refines (inr laws) minutes (Call.releasing id) j m =
      ground (arith, laws.delete-raises (key_of id) m.server, contains-discard id j m.memory)
  perform-refines (inl laws) minutes (Call.seeding id) j m = ground (
    arith,
    laws.set_key-answers (key_of id) (ttl_seconds minutes) m.server,
    laws.set_key-left (key_of id) (key_of j) (ttl_seconds minutes) m.server,
    key_of-str_eq id j,
  )
  perform-refines (inr laws) minutes (Call.seeding id) j m =
      ground (arith, laws.set_key-raises (key_of id) (ttl_seconds minutes) m.server, eq_iff id j)
  perform-refines (inl laws) minutes (Call.waiting d) j m = laws.elapse-left (key_of j) d m.server
  perform-refines (inr laws) minutes (Call.waiting d) j m = refl

  refines :
      (mode : AnsweringLaws s ⊎ RaisingLaws s) (minutes : ℕ) (ks : List Call) (j : String)
      (m : Claims C)
      → claim_left mode minutes (perform_all minutes ks m) j
        ≡ after_calls (lapses mode) (ttl_seconds minutes) ks (claim_left mode minutes m) j
  unfolding perform_all after_calls
  refines mode minutes [] j m = refl
  refines mode minutes (k ∷ ks) j m =
      refines mode minutes ks j (perform minutes k m)
      ∙ after_calls_pointwise (lapses mode) (ttl_seconds minutes) ks
          (λ i. perform-refines mode minutes k i m) j

  -- A claim that succeeds lasts for the whole time.
  won_left :
      (mode : AnsweringLaws s ⊎ RaisingLaws s) (minutes : ℕ) (id : String) (m : Claims C)
      → (claim_order_id minutes id m).0 ≡ true
      → claim_left mode minutes (claim_order_id minutes id m).1 id ≡ ttl_seconds minutes
  won_left mode minutes id m won =
      let (free, left) = claim_order_id-claims mode minutes id id m in
      ground (arith, free, left, won, eq_refl id)

  -- After a claim that succeeded, through any calls that do not release the id, another claim of it is
  -- refused as long as less than `max(60, minutes * 120)` seconds have passed.
  no_second_claim :
      (mode : AnsweringLaws s ⊎ RaisingLaws s) (minutes : ℕ) (ks : List Call) (id : String)
      (m : Claims C)
      → (claim_order_id minutes id m).0 ≡ true
      → all (keeps id) ks ≡ true
      → waited ks < ttl_seconds minutes
      → (claim_order_id minutes id (perform_all minutes ks (claim_order_id minutes id m).1)).0
        ≡ false
  no_second_claim mode minutes ks id m won kept short =
      let claimed = (claim_order_id minutes id m).1 in
      let ttl = ttl_seconds minutes in
      let first = won_left mode minutes id m won in
      let still =
        after_calls-keeps (lapses mode) ttl 1 ks (claim_left mode minutes claimed) id kept
          (omega (arith, short)) (omega (arith, short, first)) in
      let (answer, _) = claim_order_id-claims mode minutes id id (perform_all minutes ks claimed) in
      ground (arith, answer, still, refines mode minutes ks id claimed)

  -- On a server that answers every call, and on one of which every call raises: every sequence of
  -- claims, releases, seeds and passing seconds does to the claims what it does to a map from ids to the seconds
  -- for which they are still claimed; there a claim and a seed last `max(60, minutes * 120)` seconds where
  -- the server answers, and without end where it raises. A claim succeeds exactly on an id that has none
  -- left.
  pub perform_all-refines :
      (mode : AnsweringLaws s ⊎ RaisingLaws s) (minutes : ℕ) (ks : List Call) (id : String)
      (m : Claims C)
      → let ttl = ttl_seconds minutes in
        let left = after_calls (lapses mode) ttl ks (claim_left mode minutes m) in
        ((j : String) → claim_left mode minutes (perform_all minutes ks m) j ≡ left j)
        × ((claim_order_id minutes id (perform_all minutes ks m)).0 ≡ (left id == 0))
  perform_all-refines mode minutes ks id m = (
    (λ j. refines mode minutes ks j m),
    (claim_order_id-claims mode minutes id id (perform_all minutes ks m)).0
        ∙ ap (λ n. n == 0) (refines mode minutes ks id m),
  )
