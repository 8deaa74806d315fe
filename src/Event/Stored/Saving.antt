-- ===== src/Event/Stored/Saving.antt =====
-- Both repositories of security events keep the contract of `save`.
use prefeitura_anti_hack.Prelude.{
  ℕ, ◌≡◌, refl, fun_ext, String, true, false, none, some, List, [], ◌∷◌, ◌++◌, All, All-append,
  All-filter, filter, arith, inl, inr, Bool-cases, Option-cases, filter-concat, one_of_length-le,
  filter-nil_of_any, find_of_filter, find_of_filter_nil, any_of_find-none, any-append_one,
  append_nil,
}
use prefeitura_anti_hack.Prelude.Python.{ok}
use prefeitura_anti_hack.Prelude.Runtime.{Runtime}
use prefeitura_anti_hack.Event.{SecurityEvent}
use prefeitura_anti_hack.Event.Stored.{
  has_key, same_key, same_id, find_by_key, save_in_memory, refusal, select_by_key, save_event,
  flush_new, insert_event,
}
use prefeitura_anti_hack.Event.Stored.Fixed.{IsFixed}
use prefeitura_anti_hack.Event.Stored.Abstract.{
  book, insert_new, keys_match, put_fresh, book-insert, IsSound, IsNew, Saved, Refines,
}

module _ (rt : Runtime) (redact : String → String) where
  -- On a sound table the query by key reads the book.
  pub select_by_key-book :
      (t : ℕ) (s k : String) (rows : List SecurityEvent)
      → IsSound rt redact rows
      → select_by_key rt redact t s k rows ≡ (ok (book rows t s k), rows)
  unfolding select_by_key
  select_by_key-book t s k rows h =
      elim (one_of_length-le (filter (has_key t s k) rows) (h.key_once t s k)) [
        | inl p ↦ ground (arith, p, find_of_filter_nil (has_key t s k) rows)
        | inr (x, p) ↦
            let fixed_x : All (IsFixed rt redact) (x ∷ []) =
              rw p at (All-filter (IsFixed rt redact) (has_key t s k) rows h.fixed) in
            ground (arith, p, fixed_x.0, find_of_filter (has_key t s k) rows x p)
      ]

  insert-IsSound :
      (e : SecurityEvent) (rows : List SecurityEvent)
      → IsSound rt redact rows
      → IsFixed rt redact e
      → book rows e.tenant_id e.source e.idempotency_key ≡ none
      → IsSound rt redact (rows ++ e ∷ [])
  insert-IsSound e rows h f n = record {
    fixed = All-append (IsFixed rt redact) rows (e ∷ []) h.fixed (f, tt);
    key_once = λ t s k. elim (Bool-cases (has_key t s k e)) [
      | inl p ↦
          let (a, b, c) = keys_match t s k e p in
          let unused = filter-nil_of_any (same_key e) rows (any_of_find-none (same_key e) rows n) in
          ground (arith, filter-concat (has_key t s k) rows e, p, a, b, c, unused)
      | inr p ↦ ground (arith, filter-concat (has_key t s k) rows e, p, h.key_once t s k)
    ];
  }

  -- the two outcomes of a save, as changes of the table
  pub new-Saved :
      (e : SecurityEvent) (rows : List SecurityEvent)
      → IsSound rt redact rows
      → IsNew rt redact e rows
      → book rows e.tenant_id e.source e.idempotency_key ≡ none
      → Saved rt redact e rows (ok (e, true), rows ++ e ∷ [])
  new-Saved e rows h new n = record {
    answered = rw n refl;
    booked = book-insert e rows n;
    sound = insert-IsSound e rows h new.is_fixed n;
    only_new = λ x. any-append_one (same_id x) rows e;
  }

  book-taken :
      (e x : SecurityEvent) (rows : List SecurityEvent)
      → book rows e.tenant_id e.source e.idempotency_key ≡ some x
      → book rows ≡ insert_new e (book rows)
  book-taken e x rows n = fun_ext λ t. fun_ext λ s. fun_ext λ k. ground (arith, n)

  again-Saved :
      (e x : SecurityEvent) (rows : List SecurityEvent)
      → IsSound rt redact rows
      → book rows e.tenant_id e.source e.idempotency_key ≡ some x
      → Saved rt redact e rows (ok (x, false), rows)
  again-Saved e x rows h n = record {
    answered = rw n refl;
    booked = book-taken e x rows n;
    sound = h;
    only_new = λ y p q. p;
  }

  -- The in-memory repository keeps the contract.
  pub save_in_memory-Refines : Refines rt redact save_in_memory
  unfolding save_in_memory find_by_key
  save_in_memory-Refines = record {
    saves = λ e rows h new. elim (Option-cases (book rows e.tenant_id e.source e.idempotency_key)) [
      | inl n ↦ rw (n, put_fresh e rows new.id_unused) (new-Saved e rows h new n)
      | inr (x, n) ↦ rw n (again-Saved e x rows h n)
    ];
  }

  accepted :
      (e : SecurityEvent) (rows : List SecurityEvent)
      → IsNew rt redact e rows
      → book rows e.tenant_id e.source e.idempotency_key ≡ none
      → refusal e rows ≡ none
  unfolding refusal
  accepted e rows new n = ground (
    arith,
    new.id_unused,
    new.source_fits,
    new.type_fits,
    new.key_fits,
    any_of_find-none (same_key e) rows n,
  )

  pub save_event-eq :
      (e : SecurityEvent) (rows : List SecurityEvent)
      → IsSound rt redact rows
      → IsNew rt redact e rows
      → save_event rt redact [] e rows ≡ elim (book rows e.tenant_id e.source e.idempotency_key) [
        | none ↦ (ok (e, true), rows ++ e ∷ [])
        | some x ↦ (ok (x, false), rows)
      ]
  unfolding save_event insert_event flush_new
  save_event-eq e rows h new =
      elim (Option-cases (book rows e.tenant_id e.source e.idempotency_key)) [
        | inl n ↦
            rw
              (
                select_by_key-book e.tenant_id e.source e.idempotency_key rows h,
                n,
                append_nil rows,
                accepted e rows new n,
                new.is_fixed,
              )
              refl
        | inr (x, n) ↦ rw (select_by_key-book e.tenant_id e.source e.idempotency_key rows h, n) refl
      ]

  -- The Postgres repository keeps the same contract.
  pub save_event-Refines : Refines rt redact (save_event rt redact [])
  save_event-Refines = record {
    saves = λ e rows h new. elim (Option-cases (book rows e.tenant_id e.source e.idempotency_key)) [
      | inl n ↦ rw (save_event-eq e rows h new, n) (new-Saved e rows h new n)
      | inr (x, n) ↦ rw (save_event-eq e rows h new, n) (again-Saved e x rows h n)
    ];
  }
