-- ===== src/Token/Examples.antt =====
-- The theorems on tokens at concrete tokens.
use prefeitura_anti_hack.Prelude.{
  ℕ, ◌≡◌, refl, inr, String, true, false, none, some, [], ◌∷◌, leb, str_eq, arith,
}
use prefeitura_anti_hack.Prelude.Python.{ok, err, key_error}
use prefeitura_anti_hack.Token.{
  Payload, Revoked, exp_ts, RedisClient, get_client, redis_key, is_revoked_in_redis, redis_store,
  get_token_revocation_store, get_token_identifier, revoke_in_memory, is_revoked_in_memory,
}
use prefeitura_anti_hack.Token.Memory.{revoke_in_memory-is_revoked_in_memory}
use prefeitura_anti_hack.Token.Redis.{is_revoked_in_redis-fails_closed}
use prefeitura_anti_hack.Token.Jwt.{
  Jwt, memory, Refreshed, verify_token, blacklist_token, refresh_token,
  blacklist_token-verify_token, refresh_token-exact,
}

abbrev same : String → String
same s = s

abbrev access : Payload
access = record {
  jti = some "a1";
  sub = some "ana";
  tenant_id = some "7";
  roles = some ("analyst" ∷ []);
  token_type = some "refresh";
  exp = some 100;
}

abbrev nothing : Revoked
nothing k = none

abbrev jwt : Jwt
jwt = record {
  sha256 = same;
  parse_uuid = λ s. some 7;
  uuid_text = λ u. "7";
  encode = λ p. "t";
  decode = λ now t. some access;
}

revoke_in_memory-is_revoked_in_memory_example :
    (is_revoked_in_memory same 9 "t"
      (some access)
      (revoke_in_memory same 5 "t" (some access) nothing)).0
    ≡ leb 9 (exp_ts 5 (some 100))
revoke_in_memory-is_revoked_in_memory_example =
    revoke_in_memory-is_revoked_in_memory same 5 9 "t" "t" (some access) (some access) nothing refl

others_differ :
    str_eq (get_token_identifier same "t" none) (get_token_identifier same "u" none) ≡ false
unfolding get_token_identifier
others_differ = refl

abbrev server : RedisClient ℕ
server = record { from_url = λ url. ok tt; setex = λ k n s. (ok tt, s); exists = λ k s. ok false }

answered : is_revoked_in_redis server same "production" "redis://r" "t" none 0 ≡ ok false
unfolding is_revoked_in_redis
answered = refl

is_revoked_in_redis-fails_closed_example :
    (get_token_revocation_store "production" "redis://r" ≡ redis_store)
    × (get_client server same "production" "redis://r" ≡ ok true)
    × (server.exists (redis_key server same "production" "redis://r" "t" none) 0 ≡ ok false)
is_revoked_in_redis-fails_closed_example =
    is_revoked_in_redis-fails_closed server same "production" "redis://r" "t" none 0 (inr refl)
      answered

stable : (q : Payload) → jwt.decode 9 "t" ≡ some q → q ≡ access
stable q h = cc h

verified : (verify_token jwt (memory jwt) 5 "t" nothing).0 ≡ ok (some access)
unfolding verify_token is_revoked_in_memory get_token_identifier
verified = refl

blacklist_token-verify_token_example :
    (verify_token jwt (memory jwt) 9 "t" (blacklist_token jwt (memory jwt) 5 "t" nothing).1).0
    ≡ ok none
blacklist_token-verify_token_example =
    blacklist_token-verify_token jwt 5 9 100 "t" access nothing stable verified refl (omega arith)

refresh_token-exact_example :
    Refreshed jwt (memory jwt) 5 1 "t" nothing (refresh_token jwt (memory jwt) 5 1 "t" nothing).0
refresh_token-exact_example = refresh_token-exact jwt (memory jwt) 5 1 "t" nothing

-- a refresh token without the claim "sub"
abbrev nameless : Jwt
nameless = record jwt { decode = λ now t. some (record access { sub = none }) }

no_subject : (refresh_token nameless (memory nameless) 5 1 "t" nothing).0 ≡ err key_error
unfolding refresh_token verify_token is_revoked_in_memory get_token_identifier
no_subject = refl
