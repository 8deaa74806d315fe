-- ===== src/Bus.antt =====
-- EventBus of src/core/infrastructure/messaging/event_bus.py and KafkaEventBus of
-- kafka_event_bus.py beside it. The Kafka producer and the listeners are parameters that change an
-- outside world and may raise; the settings are read from arguments. A value in an event is a text,
-- and an empty text is false, as in the source; the logs are left out.
pub mod Skipping
mod Examples
use prefeitura_anti_hack.Prelude.{
  ℕ, String, Bool, true, false, not, ◌&&◌, ◌||◌, Option, none, some, List, [], ◌∷◌, ◌++◌, any,
  str_eq, if◌then◌else◌,
}
use prefeitura_anti_hack.Prelude.Text.{is_empty}
use prefeitura_anti_hack.Prelude.Python.{Exception, Result, ok, err, runtime_error}
use prefeitura_anti_hack.Prelude.Exec.{
  Exec, pure, raise, gets, recover, modify, raise_when, in_store, on_publisher, ◌>>=◌, ◌>>◌,
}
use prefeitura_anti_hack.Token.{is_secure}

pub record DomainEvent (V : Type 0) : Type 0 where
  pub event_type : String
  pub event_id : String
  pub tenant_id : Option String
  pub value : V

-- an event that is a dictionary, with what `publish` looks up in it
pub record PlainEvent (V : Type 0) : Type 0 where
  pub type_ : Option String
  pub event_type : Option String
  pub correlation_id : Option String
  pub id : Option String
  pub tenant : Option String
  pub tenant_id : Option String
  pub value : V

pub data AnyEvent (V : Type 0) : Type 0 where
  domain : DomainEvent V → AnyEvent V
  plain : PlainEvent V → AnyEvent V

-- a or b
abbrev pub or_else : Option String → String → String
or_else none other = other
or_else (some s) other = if is_empty s then other else s

-- what is handed to the producer: the topic is the same for all events
pub record Sent (V : Type 0) : Type 0 where
  pub key : Option String
  pub value : V

-- the fields that the two methods `publish` read
pub record Bus (V W : Type 0) : Type 0 where
  pub use_kafka : Bool
  pub has_producer : Bool
  pub allow_fallback : Bool
  pub listeners : List (String × List (V → Exec W (Unit {0})))
  pub processed_events : List String

module _ {V : Type 0} where
  abbrev pub type_of : AnyEvent V → String
  type_of (domain e) = e.event_type
  type_of (plain e) = or_else e.type_ (or_else e.event_type "GenericEvent")

  -- the generated text is used when a dictionary has no identifier
  abbrev pub correlation_of : String → AnyEvent V → String
  correlation_of generated (domain e) = e.event_id
  correlation_of generated (plain e) = or_else e.correlation_id (or_else e.id generated)

  abbrev pub tenant_key : AnyEvent V → String
  tenant_key (domain e) = or_else e.tenant_id "global"
  tenant_key (plain e) = or_else e.tenant (or_else e.tenant_id "global")

  abbrev pub value_of : AnyEvent V → V
  value_of (domain e) = e.value
  value_of (plain e) = e.value

module _ {V W : Type 0} where
  -- self._listeners.get(event_type, [])
  abbrev pub listeners_of :
      String → List (String × List (V → Exec W (Unit {0}))) → List (V → Exec W (Unit {0}))
  listeners_of k [] = []
  listeners_of k ((name, handlers) ∷ rest) = if str_eq name k then handlers else listeners_of k rest

  abbrev pub with_listener :
      String
      → (V → Exec W (Unit {0}))
      → List (String × List (V → Exec W (Unit {0})))
      → List (String × List (V → Exec W (Unit {0})))
  with_listener k handler [] = (k, handler ∷ []) ∷ []
  with_listener k handler ((name, handlers) ∷ rest) =
      let others = with_listener k handler rest in
      if str_eq name k then (name, handlers ++ handler ∷ []) ∷ rest else (name, handlers) ∷ others

  -- EventBus.subscribe
  abbrev pub subscribe : String → (V → Exec W (Unit {0})) → Bus V W → Bus V W
  subscribe k handler bus = record bus { listeners = with_listener k handler bus.listeners }

  -- the loop over the listeners: what one raises is logged
  abbrev pub notify : V → List (V → Exec W (Unit {0})) → Exec W (Unit {0})
  notify v [] = pure tt
  notify v (listener ∷ rest) = do recover (listener v) (λ exc. pure tt); notify v rest

  -- what `start` does when the producer does not: the first bus allows it outside the secure
  -- environments, the second where the fallback is allowed too
  abbrev pub fall_back : Bool → Exception → Exec (Bus V W × W) (Unit {0})
  fall_back forbidden exc = do
    raise_when forbidden runtime_error
    in_store (modify (λ bus. record bus { use_kafka = false }))

  module _ (start_producer : Exec W (Unit {0})) (env : String) where
    abbrev pub connected : Bool → Exec (Bus V W × W) (Unit {0})
    connected refuses =
        recover
          (do
            in_store (modify (λ bus. record bus { has_producer = true }))
            on_publisher start_producer)
          (fall_back refuses)

    abbrev pub started : (Bus V W → Bool) → Exec (Bus V W × W) (Unit {0})
    started forbidden = do
      uses ← in_store (gets (λ bus. bus.use_kafka))
      refuses ← in_store (gets forbidden)
      if uses then connected refuses else pure tt

    -- EventBus.start
    unfoldable pub start_event_bus : Exec (Bus V W × W) (Unit {0})
    start_event_bus = started (λ bus. is_secure env)

    -- KafkaEventBus.start
    unfoldable pub start_kafka_event_bus : Exec (Bus V W × W) (Unit {0})
    start_kafka_event_bus = started (λ bus. is_secure env || not bus.allow_fallback)

  -- EventBus.stop, with which KafkaEventBus.stop ends
  abbrev pub stop : Exec W (Unit {0}) → Exec (Bus V W × W) (Unit {0})
  stop stop_producer = do
    active ← in_store (gets (λ bus. bus.has_producer))
    if active then on_publisher stop_producer else pure tt

  -- KafkaEventBus.is_duplicate
  unfoldable pub is_duplicate : String → Exec (Bus V W) Bool
  is_duplicate correlation_id bus =
      if any (str_eq correlation_id) bus.processed_events
      then (ok true, bus)
      else (ok false, record bus { processed_events = correlation_id ∷ bus.processed_events })

  module _ (send : Sent V → Exec W (Unit {0})) (env : String) where
    -- what both methods `publish` do with an event that is not skipped
    abbrev pub deliver : Bool → String → Option String → V → Bus V W → Exec (Bus V W × W) (Unit {0})
    deliver forbidden event_type key v bus =
        if bus.use_kafka
        then (do
          raise_when (not bus.has_producer) runtime_error
          recover (on_publisher (send (record { key = key; value = v })))
              (λ exc. raise runtime_error))
        else (do
          raise_when forbidden runtime_error
          on_publisher (notify v (listeners_of event_type bus.listeners)))

    -- EventBus.publish
    unfoldable pub publish_event : DomainEvent V → Exec (Bus V W × W) (Unit {0})
    publish_event event = do
      bus ← in_store (gets (λ b. b))
      deliver (is_secure env) event.event_type event.tenant_id event.value bus

    abbrev pub hand_over : AnyEvent V → Bus V W → Exec (Bus V W × W) (Unit {0})
    hand_over event bus =
        deliver (is_secure env || not bus.allow_fallback) (type_of event) (some (tenant_key event))
          (value_of event) bus

    -- KafkaEventBus.publish
    unfoldable pub publish : String → AnyEvent V → Exec (Bus V W × W) (Unit {0})
    publish generated event = do
      skipped ← in_store (is_duplicate (correlation_of generated event))
      bus ← in_store (gets (λ b. b))
      if skipped then pure tt else hand_over event bus
