-- ===== src/Outbox/Marks.antt =====
-- What mark_published and mark_failed make of an event, and when it can be claimed again.
use prefeitura_anti_hack.Prelude.{
  ◌*◌, ◌^◌, ◌-◌, ℕ, suc, ◌≡◌, refl, inl, inr, false, some, List, [], ◌∷◌, find, Bool-cases,
  if◌then◌else◌, arith, String, leb,
}
use prefeitura_anti_hack.Prelude.Int.{ℤ, plus, leb_ℤ}
use prefeitura_anti_hack.Prelude.Python.{ok}
use prefeitura_anti_hack.Domain.{validate_utc_datetime}
use prefeitura_anti_hack.Outbox.{
  OutboxEvent, is_id, put, can_claim, claimed, as_published, as_failed, mark_published, mark_failed,
}
use prefeitura_anti_hack.Outbox.Claims.{IsValid, IsValid-new_outbox_event}

-- Storing one event does not change what is found under another identifier.
pub find-put_other :
    (u : OutboxEvent) (i : ℕ) (s : List OutboxEvent)
    → is_id i u ≡ false
    → find (is_id i) (put u s) ≡ find (is_id i) s
find-put_other u i [] h = rw h refl
find-put_other u i (e ∷ s) h = elim (Bool-cases (is_id u.outbox_event_id e)) [
  | inl p ↦ let q : is_id i e ≡ false = ground (arith, p, h) in rw (p, h, q) refl
  | inr p ↦ ground (arith, p, find-put_other u i s h)
]

module _ (now : ℤ) (max_retries backoff_seconds : ℕ) where
  pub as_published-IsValid : (e : OutboxEvent) → IsValid e → IsValid (as_published now e)
  unfolding as_published validate_utc_datetime
  as_published-IsValid e h = record {
    texts = h.texts;
    known = refl;
    created = h.created;
    next_retry = h.next_retry;
    published_time = refl;
    claimed_time = h.claimed_time;
    claim_expires = refl;
  }

  pub as_failed-IsValid :
      (m : String) (e : OutboxEvent)
      → IsValid e
      → IsValid (as_failed now max_retries backoff_seconds m e)
  unfolding as_failed validate_utc_datetime
  as_failed-IsValid m e h = record {
    texts = h.texts;
    known = refl;
    created = h.created;
    next_retry = elim (Bool-cases (leb max_retries (suc e.retry_count))) [
      | inl p ↦ rw p refl
      | inr p ↦ rw p refl
    ];
    published_time = h.published_time;
    claimed_time = h.claimed_time;
    claim_expires = refl;
  }

  pub mark_published-found :
      (c : OutboxEvent) (s : List OutboxEvent)
      → IsValid c
      → find (is_id c.outbox_event_id) s ≡ some c
      → mark_published now c.outbox_event_id s ≡ (ok tt, put (as_published now c) s)
  unfolding mark_published
  mark_published-found c s v h =
      rw (h, IsValid-new_outbox_event (as_published now c) (as_published-IsValid c v)) refl

  pub mark_failed-found :
      (m : String) (c : OutboxEvent) (s : List OutboxEvent)
      → IsValid c
      → find (is_id c.outbox_event_id) s ≡ some c
      → mark_failed now max_retries backoff_seconds c.outbox_event_id m s
        ≡ (ok tt, put (as_failed now max_retries backoff_seconds m c) s)
  unfolding mark_failed
  mark_failed-found m c s v h =
      rw
        (
          h,
          IsValid-new_outbox_event (as_failed now max_retries backoff_seconds m c)
              (as_failed-IsValid m c v),
        )
        refl

-- A published event can never be claimed again, and a claimed one not before its lease has ended.
-- A failed event that has used its retries can never be claimed again; one that has not can be
-- claimed exactly from the end of a delay on that doubles with every retry.
pub can_claim-marks :
    (now later : ℤ) (lease_seconds max_retries backoff_seconds : ℕ) (m : String) (e : OutboxEvent)
    → (can_claim later (as_published now e) ≡ false)
      × (can_claim later (claimed now lease_seconds e)
          ≡ leb_ℤ (plus now (lease_seconds * 1000000)) later)
      × (can_claim later (as_failed now max_retries backoff_seconds m e) ≡ (
          if leb max_retries (suc e.retry_count)
          then false
          else leb_ℤ (plus now (backoff_seconds * 2 ^ e.retry_count * 1000000)) later))
unfolding can_claim as_published claimed as_failed
can_claim-marks now later lease_seconds max_retries backoff_seconds m e =
    let q : suc e.retry_count - 1 ≡ e.retry_count = omega arith in
    (
      refl,
      refl,
      elim (Bool-cases (leb max_retries (suc e.retry_count))) [
        | inl p ↦ rw p refl
        | inr p ↦ rw (p, q) refl
      ],
    )
