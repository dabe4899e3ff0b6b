-- ===== src/Execution/IdempotencyStore.antt =====
-- services/execution/idempotency_store.py: the claims of order ids, in Redis with a set in the process
-- to fall back on. Redis is a parameter; the time after which it forgets a key is passed to it, and time
-- passes on it between the calls. Audit records are not modelled.
use apex_trader.Base.{
  ℕ, ◌*◌, ltb, String, Bool, true, false, Option, none, some, List, [], ◌∷◌, if◌then◌else◌, str_eq,
}
use apex_trader.Base.Dict.{contains}
pub use Prim.Native.String.{◌++◌ as ◌<>◌}

-- The calls of Redis: `SET` with `NX`, which answers whether it set the key, `SET` and `DEL`. `none`,
-- and `false`, is a call that raised. `elapse` is no call: that many seconds pass on the server.
pub record ClaimServer (C : Type 0) : Type 0 where
  pub set_nx : String → ℕ → C → Option Bool × C
  pub set_key : String → ℕ → C → Bool × C
  pub delete : String → C → Bool × C
  pub elapse : ℕ → C → C

-- `_memory_claims`, with Redis as the process sees it.
pub record Claims (C : Type 0) : Type 0 where
  pub server : C
  pub memory : List String

abbrev pub key_of : String → String
key_of id = "apex:idempotency:" <> id

-- `max(60, int(minutes * 60 * 2))`, of a setting that is an integer.
abbrev pub ttl_seconds : ℕ → ℕ
ttl_seconds minutes = if ltb 60 (minutes * 120) then minutes * 120 else 60

-- `_memory_claims.discard`, of a list that stands for a set.
unfoldable pub discard : String → List String → List String
discard k [] = []
discard k (x ∷ xs) = let rest = discard k xs in if str_eq x k then rest else x ∷ rest

module _ {C : Type 0} ⦃s : ClaimServer C⦄ where
  abbrev claim_answer : String → List String → Option Bool × C → Bool × Claims C
  claim_answer id memory (some acquired, c) = (acquired, record { server = c; memory = memory })
  claim_answer id memory (none, c) =
      if contains memory id
      then (false, record { server = c; memory = memory })
      else (true, record { server = c; memory = id ∷ memory })

  unfoldable pub claim_order_id : ℕ → String → Claims C → Bool × Claims C
  claim_order_id minutes id m =
      claim_answer id m.memory (s.set_nx (key_of id) (ttl_seconds minutes) m.server)

  abbrev after_delete : String → List String → Bool × C → Claims C
  after_delete id memory (true, c) = record { server = c; memory = memory }
  after_delete id memory (false, c) = record { server = c; memory = discard id memory }

  unfoldable pub release_order_id : String → Claims C → Claims C
  release_order_id id m = after_delete id m.memory (s.delete (key_of id) m.server)

  abbrev after_seed : String → List String → Bool × C → Claims C
  after_seed id memory (true, c) = record { server = c; memory = memory }
  after_seed id memory (false, c) = record { server = c; memory = id ∷ memory }

  unfoldable pub seed_order_id : ℕ → String → Claims C → Claims C
  seed_order_id minutes id m =
      after_seed id m.memory (s.set_key (key_of id) (ttl_seconds minutes) m.server)
