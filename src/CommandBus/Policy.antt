-- ===== src/CommandBus/Policy.antt =====
-- The policy check before a command (CommandBus.send and OPAClient.evaluate_policy).
use prefeitura_anti_hack.Prelude.{
  ℕ, ◌≡◌, ◌≢◌, refl, inl, inr, String, Bool, true, false, Option, ◌==◌, ==→eq, Bool-cases, str_eq,
  arith,
}
use prefeitura_anti_hack.Prelude.Python.{Exception, permission_error, Result, ok, err}
use prefeitura_anti_hack.Prelude.Exec.{Exec}
use prefeitura_anti_hack.CommandBus.{Command, BusState, mock_mode, evaluate_policy, send}

denied :
    (env : String) (mock : Option Bool) (answer : Result (ℕ × Bool))
    → str_eq env "dev" ≡ false
    → answer ≢ ok (200, true)
    → evaluate_policy (mock_mode env mock) answer ≡ false
unfolding mock_mode evaluate_policy
denied env mock (err x) d h = rw d refl
denied env mock (ok (status, false)) d h = ground (arith, d)
denied env mock (ok (status, true)) d h = elim (Bool-cases (status == 200)) [
  | inl p ↦ let q : status ≡ 200 = ==→eq status 200 p in absurd (h (rw q refl))
  | inr p ↦ ground (arith, d, p)
]

-- Outside the environment "dev", whatever mock mode was asked for, a command is refused with a
-- permission error unless the policy engine answers 200 with a true result: also where the engine
-- is down or answers anything else. A refused command changes nothing and runs no handler.
pub send-fails_closed :
    {P A : Type 0} (now : ℕ) (message : Exception → String) (dlq_id : ℕ)
    (handlers : String → Option (Command → Exec P A)) (max_retries : ℕ) (env : String)
    (mock : Option Bool) (answer : Result (ℕ × Bool)) (command : Command) (w : BusState P)
    → str_eq env "dev" ≡ false
    → answer ≢ ok (200, true)
    → send now message dlq_id handlers max_retries env mock answer command w
      ≡ (err permission_error, w)
unfolding send
send-fails_closed now message dlq_id handlers max_retries env mock answer command w d h =
    rw (denied env mock answer d h) refl
