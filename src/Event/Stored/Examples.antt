-- ===== src/Event/Stored/Examples.antt =====
-- The repositories of security events at concrete tables.
use prefeitura_anti_hack.Prelude.{
  ◌≡◌, refl, false, none, some, List, [], ◌∷◌, ◌++◌, All, any, arith,
}
use prefeitura_anti_hack.Prelude.Text.{fstring}
use prefeitura_anti_hack.Prelude.Python.{ok}
use prefeitura_anti_hack.Domain.{validate_utc_datetime}
use prefeitura_anti_hack.Sanitize.{sanitize_payload}
use prefeitura_anti_hack.Event.{SecurityEvent, new_event, normalized}
use prefeitura_anti_hack.Correlation.Samples.{same, toy, login, ping}
use prefeitura_anti_hack.Event.Stored.{save_event, save_in_memory, same_id}
use prefeitura_anti_hack.Event.Stored.Abstract.{book, insert_each, IsSound}
use prefeitura_anti_hack.Event.Stored.Sequences.{AllNew, save_each, save_each-refines}
use prefeitura_anti_hack.Event.Stored.Races.{Fits, after_race, save_event-raced}

abbrev knock : SecurityEvent
knock = record ping { idempotency_key = "j" }

empty-IsSound : IsSound toy same []
empty-IsSound = record { fixed = tt; key_once = λ t s k. omega arith }

login-IsSound : IsSound toy same (login ∷ [])
unfolding new_event toy validate_utc_datetime normalized sanitize_payload fstring
login-IsSound = record { fixed = (refl, tt); key_once = λ t s k. ground arith }

-- an event with a key that is taken, and one whose key is free
both_new : AllNew toy same (ping ∷ record knock { event_id = 6 } ∷ []) (login ∷ [])
unfolding new_event toy validate_utc_datetime normalized sanitize_payload fstring
both_new = (
  record {
    is_fixed = refl;
    id_unused = refl;
    source_fits = refl;
    type_fits = refl;
    key_fits = refl;
  },
  (refl, tt),
  (
    record {
      is_fixed = refl;
      id_unused = refl;
      source_fits = refl;
      type_fits = refl;
      key_fits = refl;
    },
    tt,
    tt,
  ),
)

save_each-refines_example :
    (book (
        save_each toy same
          (save_event toy same [])
          (ping ∷ record knock { event_id = 6 } ∷ [])
          (login ∷ []))
      ≡ insert_each (ping ∷ record knock { event_id = 6 } ∷ []) (book (login ∷ [])))
    × (book (
          save_each toy same save_in_memory
            (ping ∷ record knock { event_id = 6 } ∷ [])
            (login ∷ []))
        ≡ insert_each (ping ∷ record knock { event_id = 6 } ∷ []) (book (login ∷ [])))
save_each-refines_example =
    save_each-refines toy same (ping ∷ record knock { event_id = 6 } ∷ []) (login ∷ [])
      login-IsSound both_new

ping-Fits : Fits ping
ping-Fits = record { source_fits = refl; type_fits = refl; key_fits = refl }

ping_is_fixed : new_event toy same ping ≡ ok ping
unfolding new_event toy validate_utc_datetime normalized sanitize_payload fstring
ping_is_fixed = refl

-- the key is taken between the look and the insertion
save_event-raced_example :
    save_event toy same (login ∷ []) ping []
    ≡ elim (book [] ping.tenant_id ping.source ping.idempotency_key) [
      | some x ↦ (ok (x, false), [])
      | none ↦
          after_race toy same ping []
            (login ∷ [])
            (book ([] ++ login ∷ []) ping.tenant_id ping.source ping.idempotency_key)
            (any (same_id ping) ([] ++ login ∷ []))
    ]
save_event-raced_example =
    save_event-raced toy same ping [] (login ∷ []) ping_is_fixed ping-Fits empty-IsSound
      login-IsSound

abbrev unsorted : List SecurityEvent → List SecurityEvent
unsorted xs = xs

unsorted_keeps :
    (P : SecurityEvent → Type 0) (xs : List SecurityEvent) → All P xs → All P (unsorted xs)
unsorted_keeps P xs h = h
