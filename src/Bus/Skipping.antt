-- ===== src/Bus/Skipping.antt =====
-- What KafkaEventBus does with an event whose identifier it has seen.
use prefeitura_anti_hack.Prelude.{
  ◌≡◌, String, true, some, ◌||◌, not, ◌∷◌, any, str_eq, arith, inl, inr, Bool-cases, str_eq_refl,
}
use prefeitura_anti_hack.Prelude.Python.{ok, Result-cases}
use prefeitura_anti_hack.Prelude.Exec.{Exec}
use prefeitura_anti_hack.Token.{is_secure}
use prefeitura_anti_hack.Bus.{
  Bus, Sent, AnyEvent, tenant_key, value_of, is_duplicate, correlation_of, publish, hand_over,
}

module _ {V W : Type 0} (send : Sent V → Exec W (Unit {0})) (env : String) where
  -- the bus once an identifier is noted
  abbrev noted : String → Bus V W → Bus V W
  noted k bus = record bus { processed_events = k ∷ bus.processed_events }

  seen_skips :
      (generated : String) (event : AnyEvent V) (bus : Bus V W) (w : W)
      → any (str_eq (correlation_of generated event)) bus.processed_events ≡ true
      → publish send env generated event (bus, w) ≡ (ok tt, (bus, w))
  unfolding publish is_duplicate
  seen_skips generated event bus w h = ground (arith, h)

  -- a delivery leaves the bus as it is
  hand_over-keeps :
      (event : AnyEvent V) (bus b : Bus V W) (w : W) → (hand_over send env event bus (b, w)).1.0 ≡ b
  hand_over-keeps event bus b w =
      let forbidden = is_secure env || not bus.allow_fallback in
      let sent = send (record { key = some (tenant_key event); value = value_of event }) w in
      elim (Bool-cases bus.use_kafka) [
        | inl u ↦ elim (Bool-cases bus.has_producer) [
          | inl v ↦ elim (Result-cases sent.0) [
            | inl (x, e) ↦ ground (arith, u, v, e)
            | inr (x, e) ↦ ground (arith, u, v, e)
          ]
          | inr v ↦ ground (arith, u, v)
        ]
        | inr u ↦ elim (Bool-cases forbidden) [
          | inl v ↦ ground (arith, u, v)
          | inr v ↦ ground (arith, u, v)
        ]
      ]

  -- the identifier is noted, however the call ends
  publish-noted :
      (generated : String) (event : AnyEvent V) (bus : Bus V W) (w : W)
      → any
          (str_eq (correlation_of generated event))
          (publish send env generated event (bus, w)).1.0.processed_events
        ≡ true
  unfolding publish is_duplicate
  publish-noted generated event bus w =
      let k = correlation_of generated event in
      elim (Bool-cases (any (str_eq k) bus.processed_events)) [
        | inl seen ↦ ground (arith, seen)
        | inr new ↦
            ground (arith, new, hand_over-keeps event (noted k bus) (noted k bus) w, str_eq_refl k)
      ]

  -- Whatever publishing an event comes to, returned or raised, publishing an event with the same
  -- identifier next returns without an exception, hands it to nobody and changes nothing.
  pub publish-skips :
      (generated later : String) (event again : AnyEvent V) (s : Bus V W × W)
      → correlation_of later again ≡ correlation_of generated event
      → publish send env later again (publish send env generated event s).1
        ≡ (ok tt, (publish send env generated event s).1)
  publish-skips generated later event again s same =
      let z = (publish send env generated event s).1 in
      seen_skips later again z.0 z.1 (rw same (publish-noted generated event s.0 s.1))
