-- ===== src/Token/Memory.antt =====
-- Revocation in memory.
use prefeitura_anti_hack.Prelude.{
  ℕ, ◌≡◌, refl, inl, inr, String, false, Option, none, some, Bool-cases, ltb, leb, str_eq,
  str_eq_refl, arith,
}
use prefeitura_anti_hack.Token.{
  Payload, Revoked, exp_ts, exp_of, get_token_identifier, revoke_in_memory, is_revoked_in_memory,
  check_entry,
}

module _ (sha256 : String → String) where
  found :
      (now later : ℕ) (token other : String) (payload p : Option Payload) (revoked : Revoked)
      → get_token_identifier sha256 other p ≡ get_token_identifier sha256 token payload
      → revoke_in_memory sha256 now token payload revoked (get_token_identifier sha256 other p)
        ≡ some (exp_ts now (exp_of payload))
  unfolding revoke_in_memory
  found now later token other payload p revoked h =
      let q = str_eq_refl (get_token_identifier sha256 token payload) in rw h (ground (arith, q))

  -- After a token is revoked, every token with its identifier is revoked until the time of the
  -- revoked one has passed, and not after it.
  pub revoke_in_memory-is_revoked_in_memory :
      (now later : ℕ) (token other : String) (payload p : Option Payload) (revoked : Revoked)
      → get_token_identifier sha256 other p ≡ get_token_identifier sha256 token payload
      → (is_revoked_in_memory sha256 later other p
          (revoke_in_memory sha256 now token payload revoked)).0
        ≡ leb later (exp_ts now (exp_of payload))
  unfolding is_revoked_in_memory
  revoke_in_memory-is_revoked_in_memory now later token other payload p revoked h =
      let q = found now later token other payload p revoked h in
      elim (Bool-cases (ltb (exp_ts now (exp_of payload)) later)) [
        | inl e ↦ rw (q, e) (ground (arith, e))
        | inr e ↦ rw (q, e) (ground (arith, e))
      ]

  check_entry-same :
      (later : ℕ) (ident : String) (entry : Option ℕ) (r s : Revoked)
      → (check_entry sha256 later ident entry r).0 ≡ (check_entry sha256 later ident entry s).0
  check_entry-same later ident none r s = refl
  check_entry-same later ident (some e) r s = elim (Bool-cases (ltb e later)) [
    | inl p ↦ rw p refl
    | inr p ↦ rw p refl
  ]

  -- Revoking a token does not change whether a token with another identifier is revoked.
  pub revoke_in_memory-keeps :
      (now later : ℕ) (token other : String) (payload p : Option Payload) (revoked : Revoked)
      → str_eq (get_token_identifier sha256 token payload) (get_token_identifier sha256 other p)
        ≡ false
      → (is_revoked_in_memory sha256 later other p
          (revoke_in_memory sha256 now token payload revoked)).0
        ≡ (is_revoked_in_memory sha256 later other p revoked).0
  unfolding is_revoked_in_memory revoke_in_memory
  revoke_in_memory-keeps now later token other payload p revoked h = rw h (
      check_entry-same later (get_token_identifier sha256 other p)
        (revoked (get_token_identifier sha256 other p)) _ _)
