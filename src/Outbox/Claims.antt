-- ===== src/Outbox/Claims.antt =====
-- What InMemoryOutboxRepository.fetch_pending_and_claim does to the whole table.
use prefeitura_anti_hack.Prelude.{
  ℕ, zero, suc, ◌+◌, ◌≤◌, ◌≡◌, refl, ◌∙◌, ap, true, false, List, [], ◌∷◌, ◌++◌, map, take, filter,
  length, length-append, length-take-le, All, All-filter, Bool-cases, leb, if◌then◌else◌, arith,
  inl, inr, ==-refl,
}
use mathlib.Core.List.{append-nil, append_assoc}
use prefeitura_anti_hack.Prelude.Int.{ℤ}
use prefeitura_anti_hack.Prelude.Python.{ok}
use prefeitura_anti_hack.Domain.{validate_utc_datetime}
use prefeitura_anti_hack.Outbox.{
  OutboxEvent, new_outbox_event, validate_optional, lacks_text, is_unknown, is_id, put, can_claim,
  claimed, claim_loop, fetch_pending_and_claim,
}

-- What the constructor demands of an event.
pub record IsValid (e : OutboxEvent) : Type 0 where
  pub texts : lacks_text e ≡ false
  pub known : is_unknown e.status ≡ false
  pub created : validate_utc_datetime e.created_at ≡ ok tt
  pub next_retry : validate_optional e.next_retry_at ≡ ok tt
  pub published_time : validate_optional e.published_at ≡ ok tt
  pub claimed_time : validate_optional e.claimed_at ≡ ok tt
  pub claim_expires : validate_optional e.claim_expires_at ≡ ok tt

pub IsValid-new_outbox_event : (e : OutboxEvent) → IsValid e → new_outbox_event e ≡ ok e
unfolding new_outbox_event
IsValid-new_outbox_event e h =
    rw
      (h.texts, h.known, h.created, h.next_retry, h.published_time, h.claimed_time, h.claim_expires)
      refl

-- Each identifier occurs once.
abbrev pub IsDistinct : List OutboxEvent → Type 0
IsDistinct [] = Unit
IsDistinct (e ∷ es) = All (λ f. is_id e.outbox_event_id f ≡ false) es × IsDistinct es

module _ {ℓ κ} {A : Type ℓ} (P : A → Type κ) where
  pub All-take : (n : ℕ) (xs : List A) → All P xs → All P (take n xs)
  All-take zero xs h = tt
  All-take (suc n) [] h = tt
  All-take (suc n) (x ∷ xs) h = (h.0, All-take n xs h.1)

module _ {ℓ κ} {A B : Type ℓ} (P : B → Type κ) (f : A → B) where
  All-map : (xs : List A) → All (λ x. P (f x)) xs → All P (map f xs)
  All-map [] h = tt
  All-map (x ∷ xs) h = (h.0, All-map xs h.1)

length-map : (f : OutboxEvent → OutboxEvent) (xs : List OutboxEvent) → length (map f xs) ≡ length xs
length-map f [] = refl
length-map f (x ∷ xs) = ap suc (length-map f xs)

-- the assignments to the dictionary, in their order
abbrev pub put_all : List OutboxEvent → List OutboxEvent → List OutboxEvent
put_all [] s = s
put_all (u ∷ us) s = put_all us (put u s)

-- An event under none of the assigned identifiers is passed over.
pub put_all-skips :
    (us : List OutboxEvent) (e : OutboxEvent) (s : List OutboxEvent)
    → All (λ u. is_id e.outbox_event_id u ≡ false) us
    → put_all us (e ∷ s) ≡ e ∷ put_all us s
put_all-skips [] e s h = refl
put_all-skips (u ∷ us) e s h =
    let p : is_id u.outbox_event_id e ≡ false = ground (arith, h.0) in
    rw p (put_all-skips us e (put u s) h.1)

module _ (now : ℤ) (lease_seconds : ℕ) where
  pub claimed-IsValid : (e : OutboxEvent) → IsValid e → IsValid (claimed now lease_seconds e)
  unfolding claimed validate_utc_datetime
  claimed-IsValid e h = record {
    texts = h.texts;
    known = refl;
    created = h.created;
    next_retry = h.next_retry;
    published_time = h.published_time;
    claimed_time = refl;
    claim_expires = refl;
  }

  -- the events that a call claims, as they are afterwards
  abbrev pub selection : ℕ → List OutboxEvent → List OutboxEvent
  selection limit es = map (claimed now lease_seconds) (take limit (filter (can_claim now) es))

  -- The table after the first `limit` events that can be claimed are claimed.
  abbrev pub claim_first : ℕ → List OutboxEvent → List OutboxEvent
  claim_first zero es = es
  claim_first (suc n) [] = []
  claim_first (suc n) (e ∷ es) =
      let taken = claim_first n es in
      let passed = claim_first (suc n) es in
      if can_claim now e then claimed now lease_seconds e ∷ taken else e ∷ passed

  loop_claims :
      (limit n : ℕ) (es taken s : List OutboxEvent)
      → limit ≡ length taken + n
      → All IsValid es
      → claim_loop now limit lease_seconds es taken s
        ≡ (ok (taken ++ selection n es), put_all (selection n es) s)
  unfolding claim_loop
  loop_claims limit zero [] taken s l h = rw (append-nil taken) refl
  loop_claims limit (suc n) [] taken s l h = rw (append-nil taken) refl
  loop_claims limit zero (e ∷ es) taken s l h =
      let p : leb limit (length taken) ≡ true = ground (arith, l) in rw (p, append-nil taken) refl
  loop_claims limit (suc n) (e ∷ es) taken s l (v, h) =
      let p : leb limit (length taken) ≡ false = ground (arith, l) in
      elim (Bool-cases (can_claim now e)) [
        | inl c ↦
            let u = claimed now lease_seconds e in
            let k : limit ≡ length (taken ++ u ∷ []) + n =
              omega (arith, l, length-append taken (u ∷ [])) in
            rw
              (
                p,
                c,
                IsValid-new_outbox_event u (claimed-IsValid e v),
                ← append_assoc taken (u ∷ []) (selection n es),
              )
              (loop_claims limit n es (taken ++ u ∷ []) (put u s) k h)
        | inr c ↦ rw (p, c) (loop_claims limit (suc n) es taken s l h)
      ]

  pub selection-All :
      (P : OutboxEvent → Type 0) (limit : ℕ) (es : List OutboxEvent)
      → All (λ e. P (claimed now lease_seconds e)) es
      → All P (selection limit es)
  selection-All P limit es h =
      All-map P (claimed now lease_seconds) _
        (All-take _ limit _ (All-filter _ (can_claim now) es h))

  -- The identifiers of a selection are those of the table.
  pub selection-skips :
      (limit i : ℕ) (es : List OutboxEvent)
      → All (λ f. is_id i f ≡ false) es
      → All (λ f. is_id i f ≡ false) (selection limit es)
  unfolding claimed
  selection-skips limit i es h = selection-All (λ f. is_id i f ≡ false) limit es h

  put_first :
      (e : OutboxEvent) (es : List OutboxEvent)
      → put (claimed now lease_seconds e) (e ∷ es) ≡ claimed now lease_seconds e ∷ es
  unfolding claimed
  put_first e es = rw (==-refl e.outbox_event_id) refl

  put_all-selection :
      (n : ℕ) (es : List OutboxEvent)
      → IsDistinct es
      → put_all (selection n es) es ≡ claim_first n es
  put_all-selection zero es d = refl
  put_all-selection (suc n) [] d = refl
  put_all-selection (suc n) (e ∷ es) (d, ds) = elim (Bool-cases (can_claim now e)) [
    | inl c ↦
        let u = claimed now lease_seconds e in
        let k : All (λ f. is_id u.outbox_event_id f ≡ false) (selection n es) =
          unfold claimed in selection-skips n e.outbox_event_id es d in
        rw (c, put_first e es, put_all-skips (selection n es) u es k)
          (ap (◌∷◌ u) (put_all-selection n es ds))
    | inr c ↦
        rw
          (
            c,
            put_all-skips (selection (suc n) es) e es
                (selection-skips (suc n) e.outbox_event_id es d),
          )
          (ap (◌∷◌ e) (put_all-selection (suc n) es ds))
  ]

  -- On a table of valid events with distinct identifiers a call never raises. It returns the first
  -- `limit` events that can be claimed, so no more than the limit, in their order and as claimed,
  -- and the table afterwards has exactly these changed in their places.
  pub fetch_pending_and_claim-exact :
      (limit : ℕ) (es : List OutboxEvent)
      → IsDistinct es
      → All IsValid es
      → (fetch_pending_and_claim now limit lease_seconds es
          ≡ (ok (selection limit es), claim_first limit es))
        × (length (selection limit es) ≤ limit)
  unfolding fetch_pending_and_claim
  fetch_pending_and_claim-exact limit es d h = (
    loop_claims limit limit es [] es (omega arith) h
        ∙ ap (λ s. (ok (selection limit es), s)) (put_all-selection limit es d),
    rw (length-map (claimed now lease_seconds) (take limit (filter (can_claim now) es)))
        (length-take-le limit (filter (can_claim now) es)),
  )
