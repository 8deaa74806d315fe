-- ===== src/CommandBus/Retrying.antt =====
-- The attempts of a command and the dead letter queue.
use prefeitura_anti_hack.Prelude.{
  ℕ, zero, suc, ◌≡◌, refl, ap, inl, inr, String, Option, some, List, [], ◌∷◌, ◌++◌,
}
use mathlib.Core.List.{append-nil}
use prefeitura_anti_hack.Prelude.Python.{Exception, Result, Result-cases, ok, err}
use prefeitura_anti_hack.Prelude.Exec.{Exec}
use prefeitura_anti_hack.CommandBus.{Command, DeadLetter, BusState, tenant_of, run_handler}

module _ (now : ℕ) (message : Exception → String) (dlq_id : ℕ) (command : Command) where
  abbrev pub letter : Exception → DeadLetter
  letter x = record {
    dlq_id = dlq_id;
    command_name = command.name;
    command_id = command.command_id;
    tenant = tenant_of command;
    error = message x;
    failed_at = now;
    status = "PENDING_RETRY";
  }

module _ {P A : Type 0} (now : ℕ) (message : Exception → String) (dlq_id : ℕ)
    (command : Command) where
  -- The attempts at a handler, of at least one: the first that succeeds ends them, and the last
  -- failure of all of them leaves a dead letter.
  pub data Attempts (handler : Exec P A) : ℕ → P → Result A → P → List DeadLetter → Type 0 where
    success :
        {n : ℕ} {p q : P} (a : A) → handler p ≡ (ok a, q) → Attempts handler (suc n) p (ok a) q []
    exhausted :
        {p q : P} (x : Exception)
        → handler p ≡ (err x, q)
        → Attempts handler 1 p (err x) q (letter now message dlq_id command x ∷ [])
    again :
        {n : ℕ} {p q s : P} {r : Result A} {ls : List DeadLetter} (x : Exception)
        → handler p ≡ (err x, q)
        → Attempts handler (suc n) q r s ls
        → Attempts handler (suc (suc n)) p r s ls

  pub record Ran (handler : Exec P A) (attempts : ℕ) (last : Option Exception) (w : BusState P)
      : Type 0 where
    pub result : Result A
    pub app : P
    pub letters : List DeadLetter
    pub runs :
        run_handler now message dlq_id (λ c. handler) command attempts last w
        ≡ (result, record w { app = app; dlq = w.dlq ++ letters })
    pub attempted : Attempts handler attempts w.app result app letters

  first_success :
      (handler : Exec P A) (n : ℕ) (last : Option Exception) (w : BusState P) (a : A)
      → (handler w.app).0 ≡ ok a
      → Ran handler (suc n) last w
  unfolding run_handler
  first_success handler n last w a h = record {
    result = ok a;
    app = (handler w.app).1;
    letters = [];
    runs = rw (h, append-nil w.dlq) refl;
    attempted = success a (ap (λ r. (r, (handler w.app).1)) h);
  }

  -- Running a handler with at least one attempt calls it until it succeeds, at most so many times,
  -- each time on the state that the attempt before left. On a success the result is returned and no
  -- dead letter is added; when every attempt fails, the last exception is raised and exactly one
  -- dead letter with its text is added.
  pub run_handler-Attempts :
      (handler : Exec P A) (n : ℕ) (last : Option Exception) (w : BusState P)
      → Ran handler (suc n) last w
  unfolding run_handler
  run_handler-Attempts handler zero last w = elim (Result-cases (handler w.app).0) [
    | inl (a, h) ↦ first_success handler zero last w a h
    | inr (x, h) ↦ record {
      result = err x;
      app = (handler w.app).1;
      letters = letter now message dlq_id command x ∷ [];
      runs = rw h refl;
      attempted = exhausted x (ap (λ r. (r, (handler w.app).1)) h);
    }
  ]
  run_handler-Attempts handler (suc n) last w = elim (Result-cases (handler w.app).0) [
    | inl (a, h) ↦ first_success handler (suc n) last w a h
    | inr (x, h) ↦
        let rest = run_handler-Attempts handler n (some x) (record w { app = (handler w.app).1 }) in
        record {
          result = rest.result;
          app = rest.app;
          letters = rest.letters;
          runs = rw h rest.runs;
          attempted = again x (ap (λ r. (r, (handler w.app).1)) h) rest.attempted;
        }
  ]
