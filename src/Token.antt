-- ===== src/Token.antt =====
-- The revocation of tokens (src/core/infrastructure/security/revocation.py) and the tokens
-- themselves (src/core/infrastructure/security/jwt.py), in their blocking form. Times are in
-- microseconds, `exp` in seconds. SHA-256, PyJWT, the parsing of a UUID and the Redis client are
-- parameters.
pub mod Memory
pub mod Redis
pub mod Jwt
mod Examples
use prefeitura_anti_hack.Prelude.{
  ℕ, ◌+◌, ◌-◌, ◌*◌, ◌/◌, ltb, leb, String, Bool, true, false, not, any, Option, none, some, List,
  [], ◌∷◌, if◌then◌else◌, str_eq,
}
use prefeitura_anti_hack.Prelude.Text.{is_empty, append}
use prefeitura_anti_hack.Prelude.Python.{
  Exception, redis_revocation_unavailable, value_error, Result, ok, err,
}
use prefeitura_anti_hack.Prelude.Exec.{Exec, in_store, on_publisher}

-- the claims of a decoded token that the code reads
pub record Payload : Type 0 where
  pub jti : Option String
  pub sub : Option String
  pub tenant_id : Option String
  pub roles : Option (List String)
  pub token_type : Option String
  pub exp : Option ℕ

-- a claim that is there and not empty
abbrev pub filled : Option String → Option String
filled none = none
filled (some s) = if is_empty s then none else some s

module _ (sha256 : String → String) where
  -- _get_token_identifier
  unfoldable pub get_token_identifier : String → Option Payload → String
  get_token_identifier token none = sha256 token
  get_token_identifier token (some payload) = elim (filled payload.jti) [
    | none ↦ sha256 token
    | some jti ↦ jti
  ]

-- payload.get("exp") if payload else None
abbrev pub exp_of : Option Payload → Option ℕ
exp_of none = none
exp_of (some payload) = payload.exp

-- InMemoryTokenRevocationStore._revoked: `none` is a missing key
abbrev pub Revoked : Type 0
Revoked = String → Option ℕ

abbrev pub with_entry : String → Option ℕ → Revoked → Revoked
with_entry ident entry revoked k = if str_eq ident k then entry else revoked k

-- exp_ts of InMemoryTokenRevocationStore.revoke_sync
abbrev pub exp_ts : ℕ → Option ℕ → ℕ
exp_ts now none = now + 28800 * 1000000
exp_ts now (some exp) = exp * 1000000

module _ (sha256 : String → String) (now : ℕ) where
  -- InMemoryTokenRevocationStore.revoke_sync
  unfoldable pub revoke_in_memory : String → Option Payload → Revoked → Revoked
  revoke_in_memory token payload revoked =
      with_entry (get_token_identifier sha256 token payload) (some (exp_ts now (exp_of payload)))
        revoked

  -- the entry that was found, once its time is read
  abbrev pub check_entry : String → Option ℕ → Revoked → Bool × Revoked
  check_entry ident none revoked = (false, revoked)
  check_entry ident (some exp) revoked =
      if ltb exp now then (false, with_entry ident none revoked) else (true, revoked)

  -- InMemoryTokenRevocationStore.is_revoked_sync
  unfoldable pub is_revoked_in_memory : String → Option Payload → Revoked → Bool × Revoked
  is_revoked_in_memory token payload revoked =
      let ident = get_token_identifier sha256 token payload in
      check_entry ident (revoked ident) revoked

-- settings.GOVSEC_ENV in ("staging", "production")
abbrev pub is_secure : String → Bool
is_secure env = any (λ e. str_eq e env) ("staging" ∷ "production" ∷ [])

-- The Redis client: connecting by a URL, and the two commands on the state `S` of the server.
pub record RedisClient (S : Type 0) : Type 0 where
  pub from_url : String → Result (Unit {0})
  pub setex : String → ℕ → S → Result (Unit {0}) × S
  pub exists : String → S → Result Bool

-- ttl of RedisTokenRevocationStore.revoke_sync
unfoldable pub ttl : ℕ → Option ℕ → ℕ
ttl now none = 28800
ttl now (some exp) =
    let seconds = (exp * 1000000 - now) / 1000000 in if leb seconds 0 then 60 else seconds

module _ {S : Type 0} (client : RedisClient S) (sha256 : String → String) (env url : String) where
  -- whether RedisTokenRevocationStore._get_sync_client has a client; its own raise outside a
  -- secure environment is `return None`
  abbrev pub get_client : Result Bool
  get_client =
      if is_empty url
      then if is_secure env then err redis_revocation_unavailable else ok false
      else elim (client.from_url url) [
        | ok _ ↦ ok true
        | err e ↦ if is_secure env then err redis_revocation_unavailable else ok false
      ]

  abbrev pub redis_key : String → Option Payload → String
  redis_key token payload = append "govsec:jwt:revoked:" (get_token_identifier sha256 token payload)

  -- `if settings.GOVSEC_ENV in (...): raise`, or what is returned otherwise
  abbrev pub unless_secure : {A : Type 0} → A → Result A
  unless_secure a = if is_secure env then err redis_revocation_unavailable else ok a

  abbrev pub check_answer : Result Bool → Result Bool
  check_answer (ok b) = ok b
  check_answer (err e) = unless_secure false

  abbrev pub with_client : {A : Type 0} → A → Result A → Result A
  with_client otherwise call = elim get_client [
    | err e ↦ err e
    | ok connected ↦ if connected then call else unless_secure otherwise
  ]

  -- RedisTokenRevocationStore.is_revoked_sync
  unfoldable pub is_revoked_in_redis : String → Option Payload → S → Result Bool
  is_revoked_in_redis token payload s =
      with_client false (check_answer (client.exists (redis_key token payload) s))

  abbrev pub check_written : Result (Unit {0}) → Result (Unit {0})
  check_written (ok _) = ok tt
  check_written (err e) = unless_secure tt

  -- RedisTokenRevocationStore.revoke_sync
  unfoldable pub revoke_in_redis : ℕ → String → Option Payload → S → Result (Unit {0}) × S
  revoke_in_redis now token payload s =
      let written = client.setex (redis_key token payload) (ttl now (exp_of payload)) s in
      (
        with_client tt (check_written written.0),
        elim get_client [ err e ↦ s | ok connected ↦ if connected then written.1 else s ],
      )

-- BaseTokenRevocationStore, in its blocking form, at a time
pub record Revocations (S : Type 0) : Type 0 where
  pub revoke : ℕ → String → Option Payload → Exec S (Unit {0})
  pub is_revoked : ℕ → String → Option Payload → Exec S Bool

abbrev pub in_memory_revocations : (String → String) → Revocations Revoked
in_memory_revocations sha256 = record {
  revoke = λ now token payload revoked. (ok tt, revoke_in_memory sha256 now token payload revoked);
  is_revoked = λ now token payload revoked.
      let answer = is_revoked_in_memory sha256 now token payload revoked in (ok answer.0, answer.1);
}

abbrev pub redis_revocations :
    {S : Type 0} → RedisClient S → (String → String) → String → String → Revocations S
redis_revocations client sha256 env url = record {
  revoke = revoke_in_redis client sha256 env url;
  is_revoked =
      λ now token payload s. (is_revoked_in_redis client sha256 env url token payload s, s);
}

pub data StoreKind : Type 0 where
  redis_store : StoreKind
  in_memory_store : StoreKind

-- get_token_revocation_store
unfoldable pub get_token_revocation_store : String → String → StoreKind
get_token_revocation_store env url =
    if is_secure env then redis_store else if is_empty url then in_memory_store else redis_store

-- JWTHandler.get_revocation_store, before any store is set
abbrev pub get_revocation_store :
    {S : Type 0} → RedisClient S → (String → String) → String → String → Revocations (Revoked × S)
get_revocation_store client sha256 env url = elim (get_token_revocation_store env url) [
  | in_memory_store ↦ record {
    revoke =
        λ now token payload. in_store ((in_memory_revocations sha256).revoke now token payload);
    is_revoked =
        λ now token payload. in_store ((in_memory_revocations sha256).is_revoked now token payload);
  }
  | redis_store ↦ record {
    revoke = λ now token payload.
        on_publisher ((redis_revocations client sha256 env url).revoke now token payload);
    is_revoked = λ now token payload.
        on_publisher ((redis_revocations client sha256 env url).is_revoked now token payload);
  }
]
