-- ===== src/Event/Stored/Sequences.antt =====
-- Sequences of saves, seen through the book.
use prefeitura_anti_hack.Prelude.{◌≡◌, refl, sym, String, Bool, false, List, [], ◌∷◌, All, any}
use prefeitura_anti_hack.Prelude.Exec.{Exec}
use prefeitura_anti_hack.Prelude.Runtime.{Runtime}
use prefeitura_anti_hack.Event.{SecurityEvent}
use prefeitura_anti_hack.Event.Stored.{same_id, save_in_memory, save_event}
use prefeitura_anti_hack.Event.Stored.Abstract.{book, insert_each, IsSound, IsNew, Refines}
use prefeitura_anti_hack.Event.Stored.Saving.{save_in_memory-Refines, save_event-Refines}

module _ (rt : Runtime) (redact : String → String) where
  -- the events of a sequence are new, each when its turn comes
  abbrev pub AllNew : List SecurityEvent → List SecurityEvent → Type 0
  AllNew [] rows = Unit
  AllNew (e ∷ es) rows =
      IsNew rt redact e rows × All (λ (x : SecurityEvent). same_id x e ≡ false) es × AllNew es rows

  module _ (save : SecurityEvent → Exec (List SecurityEvent) (SecurityEvent × Bool)) where
    -- the table after one save for each event
    unfoldable pub save_each : List SecurityEvent → List SecurityEvent → List SecurityEvent
    save_each [] rows = rows
    save_each (e ∷ es) rows = save_each es (save e rows).1

    AllNew-after :
        (e : SecurityEvent) (es rows after : List SecurityEvent)
        → ((x : SecurityEvent)
            → any (same_id x) rows ≡ false
            → same_id x e ≡ false
            → any (same_id x) after ≡ false)
        → All (λ (x : SecurityEvent). same_id x e ≡ false) es
        → AllNew es rows
        → AllNew es after
    AllNew-after e [] rows after only apart new = tt
    AllNew-after e (x ∷ es) rows after only apart (new, distinct, rest) = (
      record {
        is_fixed = new.is_fixed;
        id_unused = only x new.id_unused apart.0;
        source_fits = new.source_fits;
        type_fits = new.type_fits;
        key_fits = new.key_fits;
      },
      distinct,
      AllNew-after e es rows after only apart.1 rest,
    )

    save_each-book :
        Refines rt redact save
        → (es rows : List SecurityEvent) → IsSound rt redact rows
        → AllNew es rows
        → book (save_each es rows) ≡ insert_each es (book rows)
    unfolding save_each
    save_each-book r [] rows h new = refl
    save_each-book r (e ∷ es) rows h (new, apart, rest) =
        let saved = r.saves e rows h new in
        rw (sym saved.booked) (
          save_each-book r es (save e rows).1 saved.sound
            (AllNew-after e es rows (save e rows).1 saved.only_new apart rest))

  -- Take a table that keeps its constraints, and a sequence of events of the constructor with
  -- identifiers that are not in use and texts that fit their columns. When every one of them is
  -- saved in turn, the Postgres repository and the in-memory repository end with the same partial
  -- function from tenant, source and key to events: the one of the table that they start from,
  -- extended by each event whose key is free at its turn.
  pub save_each-refines :
      (es rows : List SecurityEvent)
      → IsSound rt redact rows
      → AllNew es rows
      → (book (save_each (save_event rt redact []) es rows) ≡ insert_each es (book rows))
        × (book (save_each save_in_memory es rows) ≡ insert_each es (book rows))
  save_each-refines es rows h new = (
    save_each-book (save_event rt redact []) (save_event-Refines rt redact) es rows h new,
    save_each-book save_in_memory (save_in_memory-Refines rt redact) es rows h new,
  )
