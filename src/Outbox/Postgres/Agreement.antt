-- ===== src/Outbox/Postgres/Agreement.antt =====
-- Claiming in the Postgres repository, beside the in-memory one.
use prefeitura_anti_hack.Prelude.{
  ℕ, zero, suc, ◌≡◌, refl, sym, ◌∙◌, ap, inl, inr, true, false, any, none, List, [], ◌∷◌, map, take,
  filter, All, All-filter, any-false_of_All, Bool-cases, ==-refl, if◌then◌else◌, arith,
}
use prefeitura_anti_hack.Prelude.Int.{ℤ}
use prefeitura_anti_hack.Prelude.Python.{ok}
use prefeitura_anti_hack.Outbox.{OutboxEvent, is_id, can_claim, claimed, fetch_pending_and_claim}
use prefeitura_anti_hack.Outbox.Claims.{
  IsValid, IsValid-new_outbox_event, IsDistinct, All-take, selection, claim_first,
  fetch_pending_and_claim-exact,
}
use prefeitura_anti_hack.Outbox.Selection.{selection-IsValid}
use prefeitura_anti_hack.Outbox.Postgres.{to_entity, to_entities, claimed_row, fetch_and_claim}

module _ (now : ℤ) (lease_seconds : ℕ) where
  claimed_row-eq :
      (e : OutboxEvent)
      → can_claim now e ≡ true
      → claimed_row now lease_seconds e ≡ claimed now lease_seconds e
  unfolding can_claim claimed_row claimed
  claimed_row-eq e h = ground (arith, h)

  -- A row whose identifier is among the selected ones is claimed.
  abbrev claim_among : List OutboxEvent → OutboxEvent → OutboxEvent
  claim_among ms r = if any (is_id r.outbox_event_id) ms then claimed_row now lease_seconds r else r

  among_later :
      (e : OutboxEvent) (ms es : List OutboxEvent)
      → All (λ f. is_id e.outbox_event_id f ≡ false) es
      → map (claim_among (e ∷ ms)) es ≡ map (claim_among ms) es
  among_later e ms [] h = refl
  among_later e ms (f ∷ es) (h, hs) =
      let p : is_id f.outbox_event_id e ≡ false = ground (arith, h) in
      rw (p, among_later e ms es hs) refl

  map-claim_among :
      (n : ℕ) (es : List OutboxEvent)
      → IsDistinct es
      → map (claim_among (take n (filter (can_claim now) es))) es
        ≡ claim_first now lease_seconds n es
  map-claim_among zero [] d = refl
  map-claim_among zero (e ∷ es) (d, ds) = ap (◌∷◌ e) (map-claim_among zero es ds)
  map-claim_among (suc n) [] d = refl
  map-claim_among (suc n) (e ∷ es) (d, ds) = elim (Bool-cases (can_claim now e)) [
    | inl c ↦
        let ms = take (suc n) (filter (can_claim now) (e ∷ es)) in
        let below = take n (filter (can_claim now) es) in
        let first : ms ≡ e ∷ below = rw c refl in
        let head : claim_among (e ∷ below) e ≡ claimed now lease_seconds e =
          rw (==-refl e.outbox_event_id) (claimed_row-eq e c) in
        let whole : claim_first now lease_seconds (suc n) (e ∷ es)
            ≡ claimed now lease_seconds e ∷ claim_first now lease_seconds n es =
          rw c refl in
        ap (λ l. map (claim_among l) (e ∷ es)) first
        ∙ (ap (λ x. x ∷ map (claim_among (e ∷ below)) es) head
            ∙ (ap (◌∷◌ (claimed now lease_seconds e))
                  (among_later e below es d ∙ map-claim_among n es ds)
                ∙ sym whole))
    | inr c ↦
        let p : any (is_id e.outbox_event_id) (take (suc n) (filter (can_claim now) es)) ≡ false =
          any-false_of_All _ _ (All-take _ (suc n) _ (All-filter _ (can_claim now) es d)) in
        let ms = take (suc n) (filter (can_claim now) (e ∷ es)) in
        let below = take (suc n) (filter (can_claim now) es) in
        let same : ms ≡ below = rw c refl in
        let head : claim_among below e ≡ e = rw p refl in
        let whole : claim_first now lease_seconds (suc n) (e ∷ es)
            ≡ e ∷ claim_first now lease_seconds (suc n) es =
          rw c refl in
        ap (λ l. map (claim_among l) (e ∷ es)) same
        ∙ (ap (λ x. x ∷ map (claim_among below) es) head
            ∙ (ap (◌∷◌ e) (map-claim_among (suc n) es ds) ∙ sym whole))
  ]

  map-claimed_row :
      (n : ℕ) (es : List OutboxEvent)
      → map (claimed_row now lease_seconds) (take n (filter (can_claim now) es))
        ≡ selection now lease_seconds n es
  map-claimed_row zero es = refl
  map-claimed_row (suc n) [] = refl
  map-claimed_row (suc n) (e ∷ es) = elim (Bool-cases (can_claim now e)) [
    | inl c ↦
        rw (c, claimed_row-eq e c) (ap (◌∷◌ (claimed now lease_seconds e)) (map-claimed_row n es))
    | inr c ↦ rw c (map-claimed_row (suc n) es)
  ]

  -- what a caller sees of a claimed row
  abbrev pub without_claim : OutboxEvent → OutboxEvent
  without_claim e = record e { claimed_at = none; claim_expires_at = none }

  to_entity-eq : (e : OutboxEvent) → IsValid e → to_entity e ≡ ok (without_claim e)
  unfolding to_entity
  to_entity-eq e v = IsValid-new_outbox_event (without_claim e) (record {
    texts = v.texts;
    known = v.known;
    created = v.created;
    next_retry = v.next_retry;
    published_time = v.published_time;
    claimed_time = refl;
    claim_expires = refl;
  })

  to_entities-eq :
      (es : List OutboxEvent) → All IsValid es → to_entities es ≡ ok (map without_claim es)
  unfolding to_entities
  to_entities-eq [] h = refl
  to_entities-eq (e ∷ es) (v, h) = rw (to_entity-eq e v, to_entities-eq es h) refl

  -- On valid rows with distinct identifiers, of which those that can be claimed stand in the order
  -- of the query, both repositories claim the same events and leave the same table; the events that
  -- Postgres returns differ only in that the two times of the claim are not read back.
  pub fetch_and_claim-agrees :
      (order_by_created_at : List OutboxEvent → List OutboxEvent) (limit : ℕ)
      (rows : List OutboxEvent)
      → IsDistinct rows
      → All IsValid rows
      → order_by_created_at (filter (can_claim now) rows) ≡ filter (can_claim now) rows
      → (events after : List OutboxEvent) × (fetch_pending_and_claim now limit lease_seconds rows
          ≡ (ok events, after))
        × (fetch_and_claim now order_by_created_at limit lease_seconds rows
            ≡ (ok (map without_claim events), after))
  unfolding fetch_and_claim
  fetch_and_claim-agrees order_by_created_at limit rows d v h = (
    selection now lease_seconds limit rows,
    claim_first now lease_seconds limit rows,
    (fetch_pending_and_claim-exact now lease_seconds limit rows d v).0,
    rw
        (
          h,
          map-claimed_row limit rows,
          to_entities-eq (selection now lease_seconds limit rows)
              (selection-IsValid now lease_seconds limit rows v),
        )
        (ap (λ s. (ok (map without_claim (selection now lease_seconds limit rows)), s))
          (map-claim_among limit rows d)),
  )
