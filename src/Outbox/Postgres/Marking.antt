-- ===== src/Outbox/Postgres/Marking.antt =====
-- Marking an event in the Postgres repository, beside the in-memory one.
use prefeitura_anti_hack.Prelude.{
  ℕ, ◌≡◌, refl, ap, ◌⊎◌, inl, inr, true, false, none, some, List, [], ◌∷◌, filter, find, All,
  All-imp, filter-nil_of_All, Bool-cases, String, arith,
}
use prefeitura_anti_hack.Prelude.Int.{ℤ}
use prefeitura_anti_hack.Prelude.Python.{ok}
use prefeitura_anti_hack.Outbox.{
  OutboxEvent, is_id, put, as_published, as_failed, mark_published, mark_failed, new_outbox_event,
}
use prefeitura_anti_hack.Outbox.Claims.{IsValid, IsValid-new_outbox_event, IsDistinct}
use prefeitura_anti_hack.Outbox.Marks.{as_published-IsValid, as_failed-IsValid}
use prefeitura_anti_hack.Outbox.Postgres.{publish_row, fail_row, update}

-- The one row of an identifier.
record Sole (i : ℕ) (rows : List OutboxEvent) : Type 0 where
  row : OutboxEvent
  named : is_id i row ≡ true
  selects : filter (is_id i) rows ≡ row ∷ []
  finds : find (is_id i) rows ≡ some row
  valid : IsValid row
  puts :
      (change : OutboxEvent → OutboxEvent)
      → (change row).outbox_event_id ≡ row.outbox_event_id
      → put (change row) rows ≡ update i change rows

update-other :
    (i : ℕ) (change : OutboxEvent → OutboxEvent) (rows : List OutboxEvent)
    → All (λ r. is_id i r ≡ false) rows
    → update i change rows ≡ rows
update-other i change [] h = refl
update-other i change (r ∷ rows) (h, hs) = rw h (ap (◌∷◌ r) (update-other i change rows hs))

row_here :
    (i : ℕ) (e : OutboxEvent) (es : List OutboxEvent)
    → is_id i e ≡ true
    → IsValid e
    → All (λ f. is_id e.outbox_event_id f ≡ false) es
    → Sole i (e ∷ es)
row_here i e es p v d =
    let others : All (λ f. is_id i f ≡ false) es = All-imp (λ f h. ground (arith, p, h)) es d in
    record {
      row = e;
      named = p;
      selects = rw (p, filter-nil_of_All (is_id i) es others) refl;
      finds = rw p refl;
      valid = v;
      puts = λ change h.
          let q : is_id (change e).outbox_event_id e ≡ true = ground (arith, h) in
          rw (p, q, update-other i change es others) refl;
    }

row_below :
    (i : ℕ) (e : OutboxEvent) (es : List OutboxEvent)
    → is_id i e ≡ false
    → Sole i es
    → Sole i (e ∷ es)
row_below i e es p s = record {
  row = s.row;
  named = s.named;
  selects = rw p s.selects;
  finds = rw p s.finds;
  valid = s.valid;
  puts = λ change h.
      let n = s.named in
      let q : is_id (change s.row).outbox_event_id e ≡ false = ground (arith, h, n, p) in
      rw (p, q) (ap (◌∷◌ e) (s.puts change h));
}

find_row :
    (i : ℕ) (rows : List OutboxEvent)
    → IsDistinct rows
    → All IsValid rows
    → ((filter (is_id i) rows ≡ []) × (find (is_id i) rows ≡ none)) ⊎ Sole i rows
find_row i [] d v = inl (refl, refl)
find_row i (e ∷ es) (d, ds) (v, vs) = elim (Bool-cases (is_id i e)) [
  | inl p ↦ inr (row_here i e es p v d)
  | inr p ↦ elim (find_row i es ds vs) [
    | inl (f, g) ↦ inl (rw p f, rw p g)
    | inr s ↦ inr (row_below i e es p s)
  ]
]

-- On valid rows with distinct identifiers, marking an identifier as published, or as failed, has in
-- Postgres the outcome and the table that it has in memory, also where there is no such row.
pub marks-agree :
    (now : ℤ) (max_retries backoff_seconds i : ℕ) (m : String) (rows : List OutboxEvent)
    → IsDistinct rows
    → All IsValid rows
    → (publish_row now i rows ≡ mark_published now i rows)
      × (fail_row now max_retries backoff_seconds i m rows
          ≡ mark_failed now max_retries backoff_seconds i m rows)
unfolding publish_row fail_row mark_published mark_failed
marks-agree now max_retries backoff_seconds i m rows d v = elim (find_row i rows d v) [
  | inl (f, g) ↦ (rw (f, g) refl, rw (f, g) refl)
  | inr s ↦
      let a = as_published now s.row in
      let b = as_failed now max_retries backoff_seconds m s.row in
      let p : new_outbox_event a ≡ ok a =
        IsValid-new_outbox_event a
          (as_published-IsValid now max_retries backoff_seconds s.row s.valid) in
      let q : new_outbox_event b ≡ ok b =
        IsValid-new_outbox_event b
          (as_failed-IsValid now max_retries backoff_seconds m s.row s.valid) in
      (
        rw (s.selects, s.finds, p, s.puts (as_published now) (unfold as_published in refl)) refl,
        rw
            (
              s.selects,
              s.finds,
              q,
              s.puts (as_failed now max_retries backoff_seconds m) (unfold as_failed in refl),
            )
            refl,
      )
]
