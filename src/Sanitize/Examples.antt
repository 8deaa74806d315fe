-- ===== src/Sanitize/Examples.antt =====
-- Runs of the sanitiser, and its theorems at a concrete payload.
use prefeitura_anti_hack.Prelude.{◌≡◌, refl, String, if◌then◌else◌, Bool-cases, inl, inr}
use prefeitura_anti_hack.Prelude.Text.{has_prefix}
use prefeitura_anti_hack.Sanitize.{
  number, text, list, set, dict, nil, cons, Fields, end, field, redacted, is_sensitive,
  sanitize_payload,
}
use prefeitura_anti_hack.Sanitize.Masking.{MaskedFields, sanitize_payload-masks}

abbrev same : String → String
same s = s

abbrev hide_bearer : String → String
hide_bearer s = if has_prefix "Bearer " s then "Bearer [REDACTED]" else s

hide_bearer_settles : (s : String) → hide_bearer (hide_bearer s) ≡ hide_bearer s
unfolding has_prefix
hide_bearer_settles s = elim (Bool-cases (has_prefix "Bearer " s)) [
  | inl p ↦ rw p
  | inr p ↦ rw (p, p)
]

abbrev payload : Fields
payload = field "user" (text "ana") (
    field "nested"
      (list (cons (dict (field "Api-key" (number 5) (field "x" (text "Bearer abc") end))) nil))
      (field "password_hash" (set nil) end))

-- With the case left alone, the key `Api-key` does not hold `api_key`.
payload_sanitized :
    sanitize_payload same hide_bearer payload
    ≡ field "user" (text "ana") (
        field "nested"
          (list (
            cons
              (dict (field "Api-key" (number 5) (field "x" (text "Bearer [REDACTED]") end)))
              nil))
          (field "password_hash" redacted end))
unfolding sanitize_payload is_sensitive has_prefix
payload_sanitized = refl

sanitize_payload-masks_example :
    MaskedFields same hide_bearer (sanitize_payload same hide_bearer payload)
sanitize_payload-masks_example = sanitize_payload-masks same hide_bearer payload
