-- ===== src/Token/Redis.antt =====
-- Revocation in Redis.
use prefeitura_anti_hack.Prelude.{
  ℕ, ◌+◌, ◌*◌, ◌-◌, ◌/◌, ◌≤◌, ◌<◌, ◌≡◌, ◌⊎◌, refl, inl, inr, String, true, false, Option, some,
  Bool-cases, leb, arith,
}
use prefeitura_anti_hack.Prelude.Text.{is_empty}
use prefeitura_anti_hack.Prelude.Python.{Result-cases, ok}
use prefeitura_anti_hack.Token.{
  Payload, RedisClient, is_secure, get_client, redis_key, is_revoked_in_redis, ttl, redis_store,
  get_token_revocation_store,
}

named-is_secure : (env : String) → (env ≡ "staging") ⊎ (env ≡ "production") → is_secure env ≡ true
named-is_secure env (inl p) = rw p refl
named-is_secure env (inr p) = rw p refl

-- In staging and in production the store is Redis, whatever URL is set, and a token is found not to
-- be revoked only if the server is connected and has itself answered that the key is not there.
pub is_revoked_in_redis-fails_closed :
    {S : Type 0} (client : RedisClient S) (sha256 : String → String) (env url token : String)
    (payload : Option Payload) (s : S)
    → (env ≡ "staging") ⊎ (env ≡ "production")
    → is_revoked_in_redis client sha256 env url token payload s ≡ ok false
    → (get_token_revocation_store env url ≡ redis_store)
      × (get_client client sha256 env url ≡ ok true)
      × (client.exists (redis_key client sha256 env url token payload) s ≡ ok false)
unfolding is_revoked_in_redis get_token_revocation_store
is_revoked_in_redis-fails_closed client sha256 env url token payload s secure h =
    let e = named-is_secure env secure in
    elim (Bool-cases (is_empty url)) [
      | inl u ↦ absurd (ground (arith, e, h, u))
      | inr u ↦ elim (Result-cases (client.from_url url)) [
        | inr (x, c) ↦ absurd (ground (arith, e, h, u, c))
        | inl (t, c) ↦
            elim (Result-cases (client.exists (redis_key client sha256 env url token payload) s)) [
              | inr (x, k) ↦ absurd (ground (arith, e, h, u, c, k))
              | inl (b, k) ↦ ground (arith, e, h, u, c, k)
            ]
      ]
    ]

-- When a token is revoked a second or more before its end, the key in Redis lives on for whole
-- seconds: it is gone by the end of the token, and less than a second before it.
pub ttl-ends_early :
    (now exp : ℕ)
    → now + 1000000 ≤ exp * 1000000
    → (now + ttl now (some exp) * 1000000 ≤ exp * 1000000)
      × (exp * 1000000 < now + ttl now (some exp) * 1000000 + 1000000)
unfolding ttl
ttl-ends_early now exp h =
    let s = (exp * 1000000 - now) / 1000000 in
    let p : leb s 0 ≡ false = ground (arith, h) in rw p (omega (arith, h), omega (arith, h))
