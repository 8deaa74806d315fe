-- ===== src/Event/Stored/Pages.antt =====
-- The pages of events that both repositories list.
use prefeitura_anti_hack.Prelude.{
  ℕ, ◌≤◌, ◌≡◌, refl, String, true, Option, List, [], ◌∷◌, All, All-filter, All-page, filter, length,
  length-take-le, drop, page, arith, inl, inr, Bool-cases, ◌==◌, ==→eq,
}
use prefeitura_anti_hack.Prelude.Python.{ok}
use prefeitura_anti_hack.Prelude.Runtime.{Runtime}
use prefeitura_anti_hack.Event.{SecurityEvent}
use prefeitura_anti_hack.Event.Stored.{has_asset, list_in_memory, to_entities, list_events}
use prefeitura_anti_hack.Event.Stored.Fixed.{IsFixed}

-- a property of an event of one tenant and, where an asset is asked for, of that asset
abbrev pub Belongs : ℕ → Option ℕ → SecurityEvent → Type 0
Belongs tenant asset e = (e.tenant_id ≡ tenant) × (has_asset asset e ≡ true)

abbrev pub asked : ℕ → Option ℕ → List SecurityEvent → List SecurityEvent
asked tenant asset rows =
    filter (has_asset asset) (filter (λ (e : SecurityEvent). e.tenant_id == tenant) rows)

asked-Belongs :
    (tenant : ℕ) (asset : Option ℕ) (rows : List SecurityEvent)
    → All (Belongs tenant asset) (asked tenant asset rows)
asked-Belongs tenant asset [] = tt
asked-Belongs tenant asset (e ∷ rows) = elim (Bool-cases (e.tenant_id == tenant)) [
  | inr p ↦ rw p (asked-Belongs tenant asset rows)
  | inl p ↦ elim (Bool-cases (has_asset asset e)) [
    | inr q ↦ ground (arith, p, q, asked-Belongs tenant asset rows)
    | inl q ↦ ground (arith, p, q, ==→eq e.tenant_id tenant p, asked-Belongs tenant asset rows)
  ]
]

module _ (rt : Runtime) (redact : String → String) where
  to_entities-IsFixed :
      (rows : List SecurityEvent)
      → All (IsFixed rt redact) rows
      → to_entities rt redact rows ≡ ok rows
  unfolding to_entities
  to_entities-IsFixed [] h = refl
  to_entities-IsFixed (e ∷ rows) h = ground (arith, h.0, to_entities-IsFixed rows h.1)

  module _ (order_by : List SecurityEvent → List SecurityEvent)
      (keeps : (P : SecurityEvent → Type 0) (xs : List SecurityEvent)
        → All P xs
        → All P (order_by xs)) where
    list_events-eq :
        (tenant skip limit : ℕ) (asset : Option ℕ) (rows : List SecurityEvent)
        → All (IsFixed rt redact) rows
        → list_events rt redact order_by tenant skip limit asset rows
          ≡ (ok (page skip limit (order_by (asked tenant asset rows))), rows)
    unfolding list_events
    list_events-eq tenant skip limit asset rows h =
        rw
          (to_entities-IsFixed (page skip limit (order_by (asked tenant asset rows))) (
            All-page (IsFixed rt redact) skip limit (order_by (asked tenant asset rows)) (
              keeps (IsFixed rt redact) (asked tenant asset rows) (
                All-filter (IsFixed rt redact) (has_asset asset) _
                  (All-filter (IsFixed rt redact) (λ e. e.tenant_id == tenant) rows h)))))
          refl

    -- Where the database orders rows without adding any, and the stored events are as the
    -- constructor leaves them, a page of events never raises and leaves the table as it is. Every
    -- event on it is the given tenant's and, where an asset is asked for, that asset's, and there
    -- are at most `limit`; so too for the page of the in-memory repository.
    pub list_events-Belongs :
        (tenant skip limit : ℕ) (asset : Option ℕ) (rows : List SecurityEvent)
        → All (IsFixed rt redact) rows
        → (es : List SecurityEvent) × (list_events rt redact order_by tenant skip limit asset rows
            ≡ (ok es, rows))
          × All (Belongs tenant asset) es
          × (length es ≤ limit)
          × All (Belongs tenant asset) (list_in_memory tenant skip limit asset rows)
          × (length (list_in_memory tenant skip limit asset rows) ≤ limit)
    unfolding list_in_memory
    list_events-Belongs tenant skip limit asset rows h =
        let mine = asked-Belongs tenant asset rows in
        (
          page skip limit (order_by (asked tenant asset rows)),
          list_events-eq tenant skip limit asset rows h,
          All-page (Belongs tenant asset) skip limit _ (keeps (Belongs tenant asset) _ mine),
          length-take-le limit (drop skip (order_by (asked tenant asset rows))),
          All-page (Belongs tenant asset) skip limit _ mine,
          length-take-le limit (drop skip (asked tenant asset rows)),
        )
