-- ===== src/Token/Jwt.antt =====
-- JWTHandler of src/core/infrastructure/security/jwt.py, over any revocation store. PyJWT's
-- `encode` and `decode` are parameters: `decode` is given the time, and `none` is its PyJWTError.
use mathlib.Core.Path.{subst}
use prefeitura_anti_hack.Prelude.{
  ℕ, ◌+◌, ◌*◌, ◌/◌, ◌≤◌, ◌≡◌, refl, ◌∙◌, ap, inl, inr, String, Bool, true, false, Option, none,
  some, List, [], ◌∷◌, Bool-cases, Option-cases, leb, str_eq, str_eq_iff, if◌then◌else◌, arith,
}
use prefeitura_anti_hack.Prelude.Python.{
  Exception, Result, ok, err, value_error, key_error, Result-cases,
}
use prefeitura_anti_hack.Prelude.Exec.{Exec, pure, lift, ◌>>=◌}
use prefeitura_anti_hack.Token.{
  Payload, Revoked, Revocations, in_memory_revocations, filled, exp_ts, is_revoked_in_memory,
}
use prefeitura_anti_hack.Token.Memory.{revoke_in_memory-is_revoked_in_memory}

pub record Jwt : Type 0 where
  pub sha256 : String → String
  pub parse_uuid : String → Option ℕ
  pub uuid_text : ℕ → String
  pub encode : Payload → String
  pub decode : ℕ → String → Option Payload

module _ (jwt : Jwt) where
  -- the tenant of a payload, if it is a UUID
  abbrev pub tenant_uuid : Payload → Option ℕ
  tenant_uuid payload = elim (filled payload.tenant_id) [ none ↦ none | some t ↦ jwt.parse_uuid t ]

  -- JWTHandler.generate_token, for a token of the given type
  unfoldable pub generate : ℕ → String → ℕ → String → ℕ → List String → ℕ → String
  generate now token_type jti user_id tenant roles expires_in = jwt.encode (record {
    jti = some (jwt.uuid_text jti);
    sub = some user_id;
    tenant_id = some (jwt.uuid_text tenant);
    roles = some roles;
    token_type = some token_type;
    exp = some ((now + expires_in * 1000000) / 1000000);
  })

-- payload.get("token_type") != "refresh"
abbrev pub is_refresh : Payload → Bool
is_refresh payload = elim payload.token_type [ none ↦ false | some t ↦ str_eq t "refresh" ]

abbrev pub roles_of : Payload → List String
roles_of payload = elim payload.roles [ none ↦ "viewer" ∷ [] | some roles ↦ roles ]

module _ (jwt : Jwt) {S : Type 0} (store : Revocations S) (now : ℕ) where
  abbrev pub verify_payload : String → Option Payload → Exec S (Option Payload)
  verify_payload token none = pure none
  verify_payload token (some payload) = elim (tenant_uuid jwt payload) [
    | none ↦ pure none
    | some u ↦
        store.is_revoked now token (some payload)
        >>= (λ revoked. pure (if revoked then none else some payload))
  ]

  -- JWTHandler.verify_token: what the store raises is no PyJWTError
  unfoldable pub verify_token : String → Exec S (Option Payload)
  verify_token token = verify_payload token (jwt.decode now token)

  -- JWTHandler.blacklist_token
  unfoldable pub blacklist_token : String → Exec S (Unit {0})
  blacklist_token token = do payload ← verify_token token; store.revoke now token payload

  -- payload["sub"] raises KeyError when the claim is missing
  abbrev pub refresh_payload : ℕ → Option Payload → Result String
  refresh_payload jti none = err value_error
  refresh_payload jti (some payload) =
      if is_refresh payload
      then elim payload.sub [
        | none ↦ err key_error
        | some user_id ↦ elim (tenant_uuid jwt payload) [
          | none ↦ err value_error
          | some u ↦ ok (generate jwt now "access" jti user_id u (roles_of payload) 28800)
        ]
      ]
      else err value_error

  -- JWTHandler.refresh_token
  unfoldable pub refresh_token : ℕ → String → Exec S String
  refresh_token jti token = do payload ← verify_token token; lift (refresh_payload jti payload)

  -- the claims of an access token that lasts eight hours
  abbrev pub granted : ℕ → String → ℕ → List String → Payload
  granted jti user_id tenant roles = record {
    jti = some (jwt.uuid_text jti);
    sub = some user_id;
    tenant_id = some (jwt.uuid_text tenant);
    roles = some roles;
    token_type = some "access";
    exp = some ((now + 8 * 60 * 60 * 1000000) / 1000000);
  }

  -- the roles that a token grants: those that it states, or that of a viewer when it states none
  pub data Grants : Option (List String) → List String → Type 0 where
    stated : (roles : List String) → Grants (some roles) roles
    unstated : Grants none ("viewer" ∷ [])

  roles-Grants :
      (o : Option (List String)) → Grants o (elim o [ none ↦ "viewer" ∷ [] | some roles ↦ roles ])
  roles-Grants none = unstated
  roles-Grants (some roles) = stated roles

  generate-granted :
      (jti : ℕ) (user_id : String) (u : ℕ) (roles : List String)
      → generate jwt now "access" jti user_id u roles 28800
        ≡ jwt.encode (granted jti user_id u roles)
  unfolding generate
  generate-granted jti user_id u roles = refl

  -- What refreshing a token ends with.
  pub data Refreshed (jti : ℕ) (token : String) (s : S) : Result String → Type 0 where
    renewed :
        (payload : Payload) (user_id : String) (u : ℕ) (roles : List String)
        → (verify_token token s).0 ≡ ok (some payload)
        → payload.token_type ≡ some "refresh"
        → payload.sub ≡ some user_id
        → tenant_uuid jwt payload ≡ some u
        → Grants payload.roles roles
        → Refreshed jti token s (ok (jwt.encode (granted jti user_id u roles)))
    unnamed :
        (payload : Payload)
        → (verify_token token s).0 ≡ ok (some payload)
        → payload.token_type ≡ some "refresh"
        → payload.sub ≡ none
        → Refreshed jti token s (err key_error)
    unverified : (verify_token token s).0 ≡ ok none → Refreshed jti token s (err value_error)
    other_type :
        (payload : Payload)
        → (verify_token token s).0 ≡ ok (some payload)
        → ¬ (payload.token_type ≡ some "refresh")
        → Refreshed jti token s (err value_error)
    unanswered : (x : Exception) → (verify_token token s).0 ≡ err x → Refreshed jti token s (err x)

  -- a verified token has a tenant
  verified_tenant :
      (token : String) (payload : Payload) (s : S)
      → (verify_token token s).0 ≡ ok (some payload)
      → (u : ℕ) × (tenant_uuid jwt payload ≡ some u)
  unfolding verify_token
  verified_tenant token payload s h = elim (Option-cases (jwt.decode now token)) [
    | inl d ↦ absurd (ground (arith, d, h))
    | inr (q, d) ↦ elim (Option-cases (tenant_uuid jwt q)) [
      | inl t ↦ absurd (ground (arith, d, t, h))
      | inr (u, t) ↦ elim (Result-cases (store.is_revoked now token (some q) s).0) [
        | inr (x, r) ↦ absurd (ground (arith, d, t, r, h))
        | inl (b, r) ↦ elim (Bool-cases b) [
          | inl e ↦ absurd (ground (arith, d, t, r, e, h))
          | inr e ↦
              let same : q ≡ payload = ground (arith, d, t, r, e, h) in
              (u, subst (λ (p : Payload). tenant_uuid jwt p ≡ some u) same t)
        ]
      ]
    ]
  ]

  -- Whatever the store of revocations, refreshing gives a new token only for a verified refresh
  -- token with a subject: then it is an access token of eight hours for that subject and for the
  -- tenant and the roles of the token (or the role of a viewer when there are none). A verified
  -- refresh token without a subject raises KeyError, a token that is not verified or no refresh
  -- token ValueError, and what the store raises is raised.
  pub refresh_token-exact :
      (jti : ℕ) (token : String) (s : S) → Refreshed jti token s (refresh_token jti token s).0
  unfolding refresh_token
  refresh_token-exact jti token s = elim (Result-cases (verify_token token s).0) [
    | inr (x, v) ↦ rw v (unanswered x v)
    | inl (o, v) ↦ elim (Option-cases o) [
      | inl n ↦
          let w : (verify_token token s).0 ≡ ok none = ground (arith, v, n) in rw w (unverified w)
      | inr (p, n) ↦
          let w : (verify_token token s).0 ≡ ok (some p) = ground (arith, v, n) in
          elim (Option-cases p.token_type) [
            | inl t ↦ rw (w, t) (other_type p w (λ q. absurd (ground (arith, t, q))))
            | inr (k, t) ↦ elim (Bool-cases (str_eq k "refresh")) [
              | inr f ↦
                  rw (w, t, f)
                    (other_type p w (λ q. absurd (
                      let e : k ≡ "refresh" = ground (arith, t, q) in
                      let g = (str_eq_iff k "refresh").1 e in ground (arith, f, g))))
              | inl f ↦
                  let is_type : p.token_type ≡ some "refresh" =
                    t ∙ ap some ((str_eq_iff k "refresh").0 f) in
                  elim (Option-cases p.sub) [
                    | inl m ↦ rw (w, t, f, m) (unnamed p w is_type m)
                    | inr (user, m) ↦
                        let (u, z) = verified_tenant token p s w in
                        rw (w, t, f, m, z, generate-granted jti user u (roles_of p))
                          (renewed p user u (roles_of p) w is_type m z (roles-Grants p.roles))
                  ]
            ]
          ]
    ]
  ]

module _ (jwt : Jwt) where
  abbrev pub memory : Revocations Revoked
  memory = in_memory_revocations jwt.sha256

  -- A token whose every reading is revoked is not verified.
  refused :
      (now : ℕ) (token : String) (revoked : Revoked)
      → ((q : Payload)
          → jwt.decode now token ≡ some q
          → (is_revoked_in_memory jwt.sha256 now token (some q) revoked).0 ≡ true)
      → (verify_token jwt memory now token revoked).0 ≡ ok none
  unfolding verify_token
  refused now token revoked r = elim (Option-cases (jwt.decode now token)) [
    | inl d ↦ rw d refl
    | inr (q, d) ↦ elim (Option-cases (tenant_uuid jwt q)) [
      | inl t ↦ ground (arith, d, t)
      | inr (u, t) ↦ let k = r q d in ground (arith, d, t, k)
    ]
  ]

  -- With the store of revocations in memory, a token that is verified and then put on the black
  -- list is not verified again up to the end that it states, if whatever PyJWT reads from it then
  -- are the same claims.
  pub blacklist_token-verify_token :
      (now later exp : ℕ) (token : String) (payload : Payload) (revoked : Revoked)
      → ((q : Payload) → jwt.decode later token ≡ some q → q ≡ payload)
      → (verify_token jwt memory now token revoked).0 ≡ ok (some payload)
      → payload.exp ≡ some exp
      → later ≤ exp * 1000000
      → (verify_token jwt memory later token (blacklist_token jwt memory now token revoked).1).0
        ≡ ok none
  unfolding blacklist_token
  blacklist_token-verify_token now later exp token payload revoked stable h e l =
      refused later token (blacklist_token jwt memory now token revoked).1 (λ q d.
        let same = stable q d in
        let before = (verify_token jwt memory now token revoked).1 in
        let k =
          revoke_in_memory-is_revoked_in_memory jwt.sha256 now later token token (some payload)
            (some payload) before refl in
        let t : leb later (exp_ts now (some exp)) ≡ true = ground (arith, l) in
        rw (h, same) (k ∙ (ap (λ x. leb later (exp_ts now x)) e ∙ t)))
