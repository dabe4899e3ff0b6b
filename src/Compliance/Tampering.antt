-- ===== src/Compliance/Tampering.antt =====
-- services/compliance/store.py: what two logs have in common that `verify_chain` reports with one head.
use apex_trader.Base.{
  ℕ, suc, ◌+◌, ◌≡◌, ◌≢◌, ◌⊎◌, inl, inr, Bool-cases, refl, sym, ◌∙◌, arith, true, false, String,
  List, [], ◌∷◌, map, length, none, str_eq, eq_iff,
}
use Prim.Native.String.{count}
use text.Mathlib.TextLemmas.{append_inj}
use apex_trader.Compliance.Store.{
  ◌<>◌, Codec, LogRecord, Store, Verification, genesis_hash, digest, load_all, cached_verification,
  verify_chain, verify_from, verify_records,
}
use apex_trader.Compliance.Chain.{text_or-is_text, chain_head}

differ : (x y : String) → str_eq x y ≡ false → x ≢ y
differ x y e d = let absurd : false ≡ true = sym e ∙ (eq_iff x y).1 d in cc absurd

module _ {E L : Type 0} (c : Codec E L) where
  -- Two texts with one digest.
  abbrev pub Collision : Type 0
  Collision = (x y : String) × (x ≢ y) × (c.sha256_hex x ≡ c.sha256_hex y)

  -- What the digests are made of.
  abbrev pub contents : List (LogRecord E) → List String
  contents rs = map (λ r. c.canonical r.body) rs

  verify_from-valid :
      (i n : ℕ) (prev h : String) (rs : List (LogRecord E))
      → verify_from c i prev rs ≡ Verification.chain_valid n h
      → (n ≡ i + length rs) × (h ≡ chain_head c prev rs)
  unfolding verify_from chain_head
  verify_from-valid i n prev h [] e = ground (arith, e)
  verify_from-valid i n prev h (r ∷ rs) e = ground (
    arith,
    verify_from-valid (suc i) n (digest c prev r.body) h rs,
    text_or-is_text r.event_hash (digest c prev r.body) (digest c prev r.body),
  )

  digests-agree :
      (w : ℕ)
      → ((t : String) → count (c.sha256_hex t) ≡ w)
      → (p q : String) (rs ss : List (LogRecord E)) → count p ≡ w
      → count q ≡ w
      → length rs ≡ length ss
      → chain_head c p rs ≡ chain_head c q ss
      → ((p ≡ q) × (contents rs ≡ contents ss)) ⊎ Collision
  unfolding chain_head
  digests-agree w widths p q [] [] hp hq n h = inl (h, refl)
  digests-agree w widths p q [] (s ∷ ss) hp hq n h = ground (arith, n)
  digests-agree w widths p q (r ∷ rs) [] hp hq n h = ground (arith, n)
  digests-agree w widths p q (r ∷ rs) (s ∷ ss) hp hq n h =
      elim (digests-agree w widths (digest c p r.body) (digest c q s.body) rs ss (widths _)
        (widths _) (omega (arith, n)) h) [
          | inr collision ↦ inr collision
          | inl (same, rest) ↦
              elim (Bool-cases (str_eq (p <> c.canonical r.body) (q <> c.canonical s.body))) [
                | inl e ↦
                    let (before, here) =
                      append_inj {s₁ = p} {s₂ = q}
                        ((eq_iff (p <> c.canonical r.body) (q <> c.canonical s.body)).0 e)
                        (hp ∙ sym hq) in
                    inl (before, rw (here, rest) refl)
                | inr e ↦ inr (_, _, differ _ _ e, same)
              ]
        ]

  verify_records-valid :
      (n : ℕ) (h : String) (rs : List (LogRecord E))
      → verify_records c rs ≡ Verification.chain_valid n h
      → (n ≡ length rs) × (h ≡ chain_head c genesis_hash rs)
  verify_records-valid n h [] e = ground (arith, e)
  verify_records-valid n h (r ∷ rs) e =
      let (counted, headed) = verify_from-valid 0 n genesis_hash h (r ∷ rs) e in
      (omega (arith, counted), headed)

  -- Two lists of records that verification passes with one count and one head.
  same_head :
      ((t : String) → count (c.sha256_hex t) ≡ count genesis_hash)
      → (n : ℕ) (h : String) (rs ss : List (LogRecord E))
      → verify_records c rs ≡ Verification.chain_valid n h
      → verify_records c ss ≡ Verification.chain_valid n h
      → (contents rs ≡ contents ss) ⊎ Collision
  same_head widths n h rs ss u v =
      let (counted, headed) = verify_records-valid n h rs u in
      let (counted', headed') = verify_records-valid n h ss v in
      elim (digests-agree (count genesis_hash) widths genesis_hash genesis_hash rs ss refl refl
        (sym counted ∙ counted') (sym headed ∙ headed')) [
          | inl (_, same) ↦ inl same
          | inr collision ↦ inr collision
        ]

  -- Without an answer in the cache, `verify_chain` reads the log.
  verify_chain-read :
      (now : ℕ) (s : Store L)
      → cached_verification c now s ≡ none
      → (verify_chain c now s).0 ≡ verify_records c (load_all c s)
  unfolding verify_chain
  verify_chain-read now s h = ground (arith, h)

  -- Where SHA-256 gives texts of the zeros' length: two logs that `verify_chain` reads and reports as
  -- valid with the same number of events and the same head hold the same keys in every event, or two texts
  -- have one digest. It reads the log when it has no answer in its cache that is less than 120 seconds
  -- old.
  pub tamper_evident :
      ((t : String) → count (c.sha256_hex t) ≡ count genesis_hash)
      → (now later n : ℕ) (h : String) (s s' : Store L) → cached_verification c now s ≡ none
      → cached_verification c later s' ≡ none
      → (verify_chain c now s).0 ≡ Verification.chain_valid n h
      → (verify_chain c later s').0 ≡ Verification.chain_valid n h
      → (contents (load_all c s) ≡ contents (load_all c s')) ⊎ Collision
  tamper_evident widths now later n h s s' uncached uncached' u v =
      same_head widths n h (load_all c s) (load_all c s')
        (sym (verify_chain-read now s uncached) ∙ u)
        (sym (verify_chain-read later s' uncached') ∙ v)
