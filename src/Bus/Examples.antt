-- ===== src/Bus/Examples.antt =====
-- Both buses at concrete inputs.
use prefeitura_anti_hack.Prelude.{ℕ, ◌≡◌, refl, true, false, none, List, [], ◌∷◌, ◌++◌}
use prefeitura_anti_hack.Prelude.Python.{ok, err, runtime_error, value_error}
use prefeitura_anti_hack.Prelude.Exec.{Exec, raise, modify}
use prefeitura_anti_hack.Bus.{
  Bus, Sent, AnyEvent, domain, subscribe, publish, publish_event, is_duplicate, start_event_bus,
  start_kafka_event_bus,
}
use prefeitura_anti_hack.Bus.Skipping.{publish-skips}

-- the outside world is what was handed out
abbrev refusing : Sent ℕ → Exec (List ℕ) (Unit {0})
refusing s = raise value_error

abbrev hears : ℕ → Exec (List ℕ) (Unit {0})
hears n = modify (λ seen. seen ++ n ∷ [])

abbrev on_kafka : Bus ℕ (List ℕ)
on_kafka = record {
  use_kafka = true;
  has_producer = true;
  allow_fallback = false;
  listeners = [];
  processed_events = [];
}

abbrev in_process : Bus ℕ (List ℕ)
in_process = subscribe "t" hears (record on_kafka { use_kafka = false; allow_fallback = true })

abbrev event : AnyEvent ℕ
event = domain (record { event_type = "t"; event_id = "e1"; tenant_id = none; value = 8 })

not_sent :
    publish refusing "dev" "g" event (on_kafka, [])
    ≡ (err runtime_error, (record on_kafka { processed_events = "e1" ∷ [] }, []))
unfolding publish is_duplicate
not_sent = refl

publish-skips_example :
    publish refusing "dev" "h" event (publish refusing "dev" "g" event (on_kafka, [])).1
    ≡ (ok tt, (publish refusing "dev" "g" event (on_kafka, [])).1)
publish-skips_example = publish-skips refusing "dev" "g" "h" event event (on_kafka, []) refl

heard_once : (publish refusing "dev" "g" event (in_process, [])).1.1 ≡ 8 ∷ []
unfolding publish is_duplicate
heard_once = refl

not_in_production : (publish refusing "production" "g" event (in_process, [])).0 ≡ err runtime_error
unfolding publish is_duplicate
not_in_production = refl

-- the first bus keeps no identifiers
heard_twice :
    (publish_event refusing "dev"
      (record { event_type = "t"; event_id = "e1"; tenant_id = none; value = 8 })
      (in_process, 8 ∷ [])).1.1
    ≡ 8 ∷ 8 ∷ []
unfolding publish_event
heard_twice = refl

-- without Kafka, only the first bus falls back where no fallback is allowed
falls_back :
    start_event_bus (raise value_error) "dev" (on_kafka, [])
    ≡ (ok tt, (record on_kafka { use_kafka = false }, []))
unfolding start_event_bus
falls_back = refl

stays : (start_kafka_event_bus (raise value_error) "dev" (on_kafka, [])).0 ≡ err runtime_error
unfolding start_kafka_event_bus
stays = refl
