-- ===== src/CommandBus/Examples.antt =====
-- The theorems on the command bus at concrete commands.
use prefeitura_anti_hack.Prelude.{
  ℕ, suc, ◌≤◌, ◌≡◌, ◌≢◌, refl, String, Bool, true, Option, none, some, [], ◌∷◌, arith,
}
use prefeitura_anti_hack.Prelude.Python.{
  Exception, runtime_error, value_error, permission_error, Result, ok, err,
}
use prefeitura_anti_hack.Prelude.Exec.{Exec}
use prefeitura_anti_hack.CommandBus.{Command, BusState, send}
use prefeitura_anti_hack.CommandBus.Breaking.{calls_at, ran, execute-bounds}
use prefeitura_anti_hack.CommandBus.Retrying.{Ran, run_handler-Attempts}
use prefeitura_anti_hack.CommandBus.Policy.{send-fails_closed}

abbrev start : BusState ℕ
start = record {
  breaker = record {
    failure_threshold = 3;
    recovery_time = 10000000;
    failures = λ k. none;
    last_failure_time = λ k. none;
  };
  dlq = [];
  app = 0;
}

-- a handler that counts its runs and fails
abbrev count : Exec ℕ String
count n = (err runtime_error, suc n)

count_fails : (p : ℕ) → (x : Exception) × ((count p).0 ≡ err x)
count_fails p = (runtime_error, refl)

execute-bounds_example :
    (n : ℕ) × (n ≤ 3)
    × ((calls_at "Block" count (1 ∷ 2 ∷ 3 ∷ 4 ∷ 5 ∷ []) start).app ≡ ran "Block" count n 0)
execute-bounds_example =
    execute-bounds "Block" count 1 (1 ∷ 2 ∷ 3 ∷ 4 ∷ 5 ∷ []) start count_fails refl (omega arith)
      (ground arith)

abbrev block : Command
block = record { name = "Block"; command_id = "c1"; metadata_tenant = none }

abbrev text : Exception → String
text e = "failed"

run_handler-Attempts_example : Ran 5 text 9 block count 3 none start
run_handler-Attempts_example = run_handler-Attempts 5 text 9 block count 2 none start

abbrev handlers : String → Option (Command → Exec ℕ String)
handlers name = some (λ c. count)

abbrev engine_down : Result (ℕ × Bool)
engine_down = err value_error

not_allowed : engine_down ≢ ok (200, true)
not_allowed h = absurd (ground (arith, h))

send-fails_closed_example :
    send 5 text 9 handlers 3 "production" (some true) engine_down block start
    ≡ (err permission_error, start)
send-fails_closed_example =
    send-fails_closed 5 text 9 handlers 3 "production" (some true) engine_down block start refl
      not_allowed
