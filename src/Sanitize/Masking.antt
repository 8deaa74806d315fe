-- ===== src/Sanitize/Masking.antt =====
-- What `sanitize_payload` guarantees of its result, at any depth.
use prefeitura_anti_hack.Prelude.{
  ℕ, ◌≡◌, refl, String, Bool, true, false, List, [], ◌∷◌, ap, Bool-cases, inl, inr,
}
use prefeitura_anti_hack.Sanitize.{
  Value, null, boolean, number, text, list, tuple, set, dict, Items, nil, cons, Fields, end, field,
  redacted, is_sensitive, sanitize_value, sanitize_items, sanitize_payload,
}

-- The keys of a dictionary, in order.
abbrev pub keys : Fields → List String
keys end = []
keys (field k v fs) = k ∷ keys fs

module _ (lower redact : String → String) where
  -- In a masked value every text is a result of `redact` or the mark, and every sensitive key, at
  -- any depth, holds the mark.
  mutual
    pub data MaskedValue : Value → Type 0 where
      null_masked : MaskedValue null
      boolean_masked : (b : Bool) → MaskedValue (boolean b)
      number_masked : (n : ℕ) → MaskedValue (number n)
      text_masked : (s : String) → MaskedValue (text (redact s))
      list_masked : {xs : Items} → MaskedItems xs → MaskedValue (list xs)
      dict_masked : {fs : Fields} → MaskedFields fs → MaskedValue (dict fs)

    pub data MaskedItems : Items → Type 0 where
      nil_masked : MaskedItems nil
      cons_masked :
          {x : Value} {xs : Items} → MaskedValue x → MaskedItems xs → MaskedItems (cons x xs)

    pub data MaskedFields : Fields → Type 0 where
      end_masked : MaskedFields end
      hidden :
          {k : String} {fs : Fields}
          → is_sensitive lower redact k ≡ true
          → MaskedFields fs
          → MaskedFields (field k redacted fs)
      shown :
          {k : String} {v : Value} {fs : Fields}
          → is_sensitive lower redact k ≡ false
          → MaskedValue v
          → MaskedFields fs
          → MaskedFields (field k v fs)

  mutual
    unfolding sanitize_value sanitize_items sanitize_payload

    value_is_masked : (v : Value) → MaskedValue (sanitize_value lower redact v)
    value_is_masked null = null_masked
    value_is_masked (boolean b) = boolean_masked b
    value_is_masked (number n) = number_masked n
    value_is_masked (text s) = text_masked s
    value_is_masked (list xs) = list_masked (items_are_masked xs)
    value_is_masked (tuple xs) = list_masked (items_are_masked xs)
    value_is_masked (set xs) = list_masked (items_are_masked xs)
    value_is_masked (dict fs) = dict_masked (fields_are_masked fs)

    items_are_masked : (xs : Items) → MaskedItems (sanitize_items lower redact xs)
    items_are_masked nil = nil_masked
    items_are_masked (cons x xs) = cons_masked (value_is_masked x) (items_are_masked xs)

    fields_are_masked : (fs : Fields) → MaskedFields (sanitize_payload lower redact fs)
    fields_are_masked end = end_masked
    fields_are_masked (field k v fs) = elim (Bool-cases (is_sensitive lower redact k)) [
      | inl p ↦ rw p (hidden p (fields_are_masked fs))
      | inr p ↦ rw p (shown p (value_is_masked v) (fields_are_masked fs))
    ]

  -- In the payload that sanitize_payload returns, at any depth through dictionaries, lists, tuples
  -- and sets: a sensitive key holds the mark, every other text has passed the substitution, and no
  -- tuple or set is left.
  pub sanitize_payload-masks : (fs : Fields) → MaskedFields (sanitize_payload lower redact fs)
  sanitize_payload-masks fs = fields_are_masked fs

  -- The result has the keys of the payload, in the same order.
  pub keys-sanitize_payload : (fs : Fields) → keys (sanitize_payload lower redact fs) ≡ keys fs
  unfolding sanitize_payload
  keys-sanitize_payload end = refl
  keys-sanitize_payload (field k v fs) = ap (◌∷◌ k) (keys-sanitize_payload fs)

  module _ (settles : (s : String) → redact (redact s) ≡ redact s) where
    mutual
      unfolding sanitize_value sanitize_items sanitize_payload

      value_settles :
          (v : Value)
          → sanitize_value lower redact (sanitize_value lower redact v)
            ≡ sanitize_value lower redact v
      value_settles null = refl
      value_settles (boolean b) = refl
      value_settles (number n) = refl
      value_settles (text s) = ap text (settles s)
      value_settles (list xs) = ap list (items_settle xs)
      value_settles (tuple xs) = ap list (items_settle xs)
      value_settles (set xs) = ap list (items_settle xs)
      value_settles (dict fs) = ap dict (fields_settle fs)

      items_settle :
          (xs : Items)
          → sanitize_items lower redact (sanitize_items lower redact xs)
            ≡ sanitize_items lower redact xs
      items_settle nil = refl
      items_settle (cons x xs) = cc (value_settles x, items_settle xs)

      fields_settle :
          (fs : Fields)
          → sanitize_payload lower redact (sanitize_payload lower redact fs)
            ≡ sanitize_payload lower redact fs
      fields_settle end = refl
      fields_settle (field k v fs) = elim (Bool-cases (is_sensitive lower redact k)) [
        | inl p ↦ rw p (ap (field k redacted) (fields_settle fs))
        | inr p ↦ rw p (cc (value_settles v, fields_settle fs))
      ]

    -- Where the substitution leaves alone what it has made, sanitising a payload twice is the same
    -- as sanitising it once.
    pub sanitize_payload_idem :
        (fs : Fields)
        → sanitize_payload lower redact (sanitize_payload lower redact fs)
          ≡ sanitize_payload lower redact fs
    sanitize_payload_idem fs = fields_settle fs
