-- ===== src/CommandBus.antt =====
-- CommandBus and CircuitBreakerMiddleware of
-- src/core/infrastructure/messaging/command_bus.py, DeadLetterQueue of
-- src/core/infrastructure/messaging/dlq.py and OPAClient of
-- src/core/infrastructure/policies/opa_client.py. A handler acts on the state `P` of the
-- application. Times are in microseconds. The answer of the policy engine and the text of an
-- exception are parameters.
pub mod Breaking
pub mod Retrying
pub mod Policy
mod Examples
use prefeitura_anti_hack.Prelude.{
  ℕ, zero, suc, ◌+◌, ◌==◌, ltb, leb, String, Bool, true, false, not, ◌&&◌, Option, none, some, List,
  [], ◌∷◌, ◌++◌, if◌then◌else◌, str_eq,
}
use prefeitura_anti_hack.Prelude.Python.{
  Exception, circuit_breaker_open, permission_error, value_error, runtime_error, Result, ok, err,
}
use prefeitura_anti_hack.Prelude.Exec.{
  Exec, pure, raise, gets, modify, recover, raise_when, ◌>>=◌, ◌>>◌,
}

-- dict[str, int]: `none` is a missing key
abbrev pub Table : Type 0
Table = String → Option ℕ

-- table.get(key, default)
abbrev pub get_or : ℕ → Table → String → ℕ
get_or default table key = elim (table key) [ none ↦ default | some n ↦ n ]

-- table[key] = n
abbrev pub set_key : String → ℕ → Table → Table
set_key key n table k = if str_eq key k then some n else table k

pub record CircuitBreaker : Type 0 where
  pub failure_threshold : ℕ
  pub recovery_time : ℕ
  pub failures : Table
  pub last_failure_time : Table

pub record DeadLetter : Type 0 where
  pub dlq_id : ℕ
  pub command_name : String
  pub command_id : String
  pub tenant : String
  pub error : String
  pub failed_at : ℕ
  pub status : String

-- DeadLetterQueue.requeue_message, of the entries; the bus that it is given is not used
abbrev pub requeue_message : ℕ → List DeadLetter → Bool × List DeadLetter
requeue_message dlq_id [] = (false, [])
requeue_message dlq_id (entry ∷ queue) =
    let rest = requeue_message dlq_id queue in
    if entry.dlq_id == dlq_id && not (str_eq entry.status "RESOLVED")
    then (true, record entry { status = "REQUEUED" } ∷ queue)
    else (rest.0, entry ∷ rest.1)

pub record Command : Type 0 where
  pub name : String
  pub command_id : String
  pub metadata_tenant : Option String

-- command.metadata.tenant or "global"
abbrev pub tenant_of : Command → String
tenant_of c = elim c.metadata_tenant [
  | none ↦ "global"
  | some t ↦ if str_eq t "" then "global" else t
]

-- OPAClient.__init__: mock_mode only in the environment "dev"
unfoldable pub mock_mode : String → Option Bool → Bool
mock_mode env mock =
    if not (str_eq env "dev") then false else elim mock [ none ↦ true | some b ↦ b ]

-- OPAClient.evaluate_policy: the answer of the engine is a status and the field `result`
unfoldable pub evaluate_policy : Bool → Result (ℕ × Bool) → Bool
evaluate_policy mock answer = if mock then true else elim answer [
  | ok (status, result) ↦ if status == 200 then result else false
  | err e ↦ false
]

pub record BusState (P : Type 0) : Type 0 where
  pub breaker : CircuitBreaker
  pub dlq : List DeadLetter
  pub app : P

abbrev pub set_failures : {P : Type 0} → String → ℕ → BusState P → BusState P
set_failures name n w = record w {
  breaker = record w.breaker { failures = set_key name n w.breaker.failures };
}

abbrev pub set_last_failure : {P : Type 0} → String → ℕ → BusState P → BusState P
set_last_failure name now w = record w {
  breaker = record w.breaker { last_failure_time = set_key name now w.breaker.last_failure_time };
}

-- last_exception or Exception(...); without one the loop made no attempt
abbrev pub last_or : Option Exception → Exception
last_or none = runtime_error
last_or (some e) = e

module _ {P : Type 0} (now : ℕ) where
  -- the guard of CircuitBreakerMiddleware.execute, with its reset
  abbrev pub guard_circuit : String → Exec (BusState P) (Unit {0})
  guard_circuit name w =
      if leb w.breaker.failure_threshold (get_or 0 w.breaker.failures name)
      then if ltb now (get_or 0 w.breaker.last_failure_time name + w.breaker.recovery_time)
        then (err circuit_breaker_open, w)
        else (ok tt, set_failures name 0 w)
      else (ok tt, w)

  -- DeadLetterQueue.send_to_dlq, of the message that the bus makes
  abbrev pub send_to_dlq :
      (Exception → String) → ℕ → Command → Exception → Exec (BusState P) (Unit {0})
  send_to_dlq message dlq_id command error = modify (λ w. record w {
    dlq =
        w.dlq
        ++ record {
          dlq_id = dlq_id;
          command_name = command.name;
          command_id = command.command_id;
          tenant = tenant_of command;
          error = message error;
          failed_at = now;
          status = "PENDING_RETRY";
        }
          ∷ [];
  })

abbrev pub on_app : {P A : Type 0} → Exec P A → Exec (BusState P) A
on_app m w = ((m w.app).0, record w { app = (m w.app).1 })

module _ {P A : Type 0} (now : ℕ) where
  -- CircuitBreakerMiddleware.execute
  unfoldable pub execute : String → Exec (BusState P) A → Exec (BusState P) A
  execute command_name next_func = do
    guard_circuit now command_name
    recover (do result ← next_func; modify (set_failures command_name 0); pure result)
        (λ exc. do
          failed ← gets (λ w. get_or 0 w.breaker.failures command_name)
          modify (set_failures command_name (suc failed))
          modify (set_last_failure command_name now)
          raise exc)

  module _ (message : Exception → String) (dlq_id : ℕ) where
    -- _run_handler of CommandBus.send, with the attempts that are left
    unfoldable pub run_handler :
        (Command → Exec P A) → Command → ℕ → Option Exception → Exec (BusState P) A
    run_handler handler command zero last_exception = do
      send_to_dlq now message dlq_id command (last_or last_exception)
      raise (last_or last_exception)
    run_handler handler command (suc attempts) last_exception =
        recover (on_app (handler command)) (λ exc. run_handler handler command attempts (some exc))

    module _ (handlers : String → Option (Command → Exec P A)) (max_retries : ℕ) where
      abbrev pub dispatch_to : Option (Command → Exec P A) → Command → Exec (BusState P) A
      dispatch_to none command = raise value_error
      dispatch_to (some handler) command =
          execute command.name (run_handler handler command max_retries none)

      -- CommandBus.send, given the environment and what the policy engine answers
      unfoldable pub send : String → Option Bool → Result (ℕ × Bool) → Command → Exec (BusState P) A
      send env mock answer command = do
        raise_when (not (evaluate_policy (mock_mode env mock) answer)) permission_error
        dispatch_to (handlers command.name) command
