-- ===== src/Outbox/Selection.antt =====
-- The events that a call of fetch_pending_and_claim selects, in the table that it leaves.
use prefeitura_anti_hack.Prelude.{
  ℕ, zero, suc, ◌≡◌, refl, false, some, List, [], ◌∷◌, find, All, All-imp, Bool-cases, inl, inr,
  ==-refl, arith,
}
use prefeitura_anti_hack.Prelude.Int.{ℤ}
use prefeitura_anti_hack.Outbox.{OutboxEvent, is_id, can_claim, claimed}
use prefeitura_anti_hack.Outbox.Claims.{
  IsValid, IsDistinct, claimed-IsValid, selection, selection-All, selection-skips, claim_first,
}

-- An event further down the table, under another identifier than the head.
found_later :
    (x : OutboxEvent) (s cs : List OutboxEvent)
    → All (λ c. is_id x.outbox_event_id c ≡ false) cs
    → All (λ c. find (is_id c.outbox_event_id) s ≡ some c) cs
    → All (λ c. find (is_id c.outbox_event_id) (x ∷ s) ≡ some c) cs
found_later x s [] h k = tt
found_later x s (c ∷ cs) (h, hs) (k, ks) =
    let p : is_id c.outbox_event_id x ≡ false = ground (arith, h) in
    (rw p k, found_later x s cs hs ks)

find_head :
    (e : OutboxEvent) (s : List OutboxEvent) → find (is_id e.outbox_event_id) (e ∷ s) ≡ some e
find_head e s = rw (==-refl e.outbox_event_id) refl

module _ (now : ℤ) (lease_seconds : ℕ) where
  pub selection-IsDistinct :
      (limit : ℕ) (es : List OutboxEvent)
      → IsDistinct es
      → IsDistinct (selection now lease_seconds limit es)
  selection-IsDistinct zero es d = tt
  selection-IsDistinct (suc n) [] d = tt
  selection-IsDistinct (suc n) (e ∷ es) (d, ds) = elim (Bool-cases (can_claim now e)) [
    | inl c ↦
        let k : All (λ f. is_id (claimed now lease_seconds e).outbox_event_id f ≡ false)
            (selection now lease_seconds n es) =
          unfold claimed in selection-skips now lease_seconds n e.outbox_event_id es d in
        rw c (k, selection-IsDistinct n es ds)
    | inr c ↦ rw c (selection-IsDistinct (suc n) es ds)
  ]

  pub selection-IsValid :
      (limit : ℕ) (es : List OutboxEvent)
      → All IsValid es
      → All IsValid (selection now lease_seconds limit es)
  selection-IsValid limit es h =
      selection-All now lease_seconds IsValid limit es
        (All-imp (claimed-IsValid now lease_seconds) es h)

  pub selection_found :
      (limit : ℕ) (es : List OutboxEvent)
      → IsDistinct es
      → All
          (λ c. find (is_id c.outbox_event_id) (claim_first now lease_seconds limit es) ≡ some c)
          (selection now lease_seconds limit es)
  selection_found zero es d = tt
  selection_found (suc n) [] d = tt
  selection_found (suc n) (e ∷ es) (d, ds) = elim (Bool-cases (can_claim now e)) [
    | inl c ↦
        let u = claimed now lease_seconds e in
        let k : All (λ f. is_id u.outbox_event_id f ≡ false) (selection now lease_seconds n es) =
          unfold claimed in selection-skips now lease_seconds n e.outbox_event_id es d in
        rw c (find_head u _, found_later u _ _ k (selection_found n es ds))
    | inr c ↦ rw c (
        found_later e _ _ (selection-skips now lease_seconds (suc n) e.outbox_event_id es d)
          (selection_found (suc n) es ds))
  ]
