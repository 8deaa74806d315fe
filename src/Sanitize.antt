-- ===== src/Sanitize.antt =====
-- src/core/domain/incidents.py: `sanitize_payload` and `_sanitize_value` over JSON values. The
-- substitution by the compiled expression `_CREDENTIAL_PATTERN` is the parameter `redact`.
pub mod Masking
mod Examples
use prefeitura_anti_hack.Prelude.{
  ℕ, ◌≡◌, String, Bool, true, false, List, [], ◌∷◌, any, if◌then◌else◌, str_eq, ◌==◌,
}
use Prim.Native.String
use Prim.Native.Char.{code}
use prefeitura_anti_hack.Prelude.Text.{contains}

mutual
  pub data Value : Type 0 where
    null : Value
    boolean : Bool → Value
    number : ℕ → Value
    text : String → Value
    list : Items → Value
    tuple : Items → Value
    set : Items → Value
    dict : Fields → Value

  pub data Items : Type 0 where
    nil : Items
    cons : Value → Items → Items

  pub data Fields : Type 0 where
    end : Fields
    field : String → Value → Fields → Fields

-- SENSITIVE_KEYS
abbrev pub sensitive_keys : List String
sensitive_keys =
    "password" ∷ "passwd" ∷ "secret" ∷ "client_secret" ∷ "token" ∷ "access_token" ∷ "refresh_token"
    ∷ "authorization" ∷ "cookie" ∷ "set_cookie" ∷ "api_key" ∷ "apikey" ∷ "private_key"
    ∷ "credential" ∷ []

-- key.replace("-", "_")
unfoldable pub dashes_to_underscores : String → String
dashes_to_underscores String.[] = String.[]
dashes_to_underscores (String.◌∷◌ c s) =
    String.◌∷◌ (if code c == b'-' then "_" else c) (dashes_to_underscores s)

abbrev pub redacted : Value
redacted = text "[REDACTED]"

module _ (lower redact : String → String) where
  -- any(sensitive in key_lower for sensitive in SENSITIVE_KEYS)
  unfoldable pub is_sensitive : String → Bool
  unfolding dashes_to_underscores contains
  is_sensitive key = any (λ k. contains k (dashes_to_underscores (lower key))) sensitive_keys

  unfoldable mutual
    -- _sanitize_value
    pub sanitize_value : Value → Value
    sanitize_value null = null
    sanitize_value (boolean b) = boolean b
    sanitize_value (number n) = number n
    sanitize_value (text s) = text (redact s)
    sanitize_value (list xs) = list (sanitize_items xs)
    sanitize_value (tuple xs) = list (sanitize_items xs)
    sanitize_value (set xs) = list (sanitize_items xs)
    sanitize_value (dict fs) = dict (sanitize_payload fs)

    pub sanitize_items : Items → Items
    sanitize_items nil = nil
    sanitize_items (cons x xs) = cons (sanitize_value x) (sanitize_items xs)

    -- sanitize_payload
    pub sanitize_payload : Fields → Fields
    sanitize_payload end = end
    sanitize_payload (field k v fs) =
        let rest = sanitize_payload fs in
        field k (if is_sensitive k then redacted else sanitize_value v) rest
