-- ===== src/Outbox/Message/Redaction.antt =====
-- The error text that a failed event keeps.
use prefeitura_anti_hack.Prelude.{
  ℕ, zero, suc, ◌≤◌, ◌≡◌, refl, ◌⊎◌, inl, inr, String, Bool, false, any, List, [], ◌∷◌, All,
  Bool-cases, arith,
}
use prefeitura_anti_hack.Prelude.Text.{contains, prefix, length}
use prefeitura_anti_hack.Outbox.Message.{Outside, sanitize_error_message, secret_words}

length-prefix-le : (n : ℕ) (s : String) → length (prefix n s) ≤ n
unfolding prefix
length-prefix-le zero s = omega arith
length-prefix-le (suc n) String.[] = omega arith
length-prefix-le (suc n) (String.◌∷◌ c s) = omega (arith, length-prefix-le n s)

none_of_any-false :
    {A : Type 0} (p : A → Bool) (xs : List A) → any p xs ≡ false → All (λ x. p x ≡ false) xs
none_of_any-false p [] h = tt
none_of_any-false p (x ∷ xs) h = elim (Bool-cases (p x)) [
  | inl q ↦ absurd (ground (arith, q, h))
  | inr q ↦ (q, none_of_any-false p xs (ground (arith, q, h)))
]

-- The stored text has at most 1024 characters, and unless it is the fixed notice, no word for a
-- secret occurs in its lower-case form.
pub sanitize_error_message-hides :
    {P : Type 0} (outside : Outside P) (err_msg : String)
    → (length (sanitize_error_message outside err_msg) ≤ 1024)
      × ((sanitize_error_message outside err_msg ≡ "[REDACTED ERROR MESSAGE]")
          ⊎ All
              (λ w. contains w (outside.lower (sanitize_error_message outside err_msg)) ≡ false)
              secret_words)
unfolding sanitize_error_message
sanitize_error_message-hides outside err_msg =
    let cut = prefix 1024 err_msg in
    elim (Bool-cases (any (λ w. contains w (outside.lower cut)) secret_words)) [
      | inl p ↦ rw p (omega arith, inl refl)
      | inr p ↦ rw p (
        length-prefix-le 1024 err_msg,
        inr (none_of_any-false (λ w. contains w (outside.lower cut)) secret_words p),
      )
    ]
