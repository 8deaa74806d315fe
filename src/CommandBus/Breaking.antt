-- ===== src/CommandBus/Breaking.antt =====
-- CircuitBreakerMiddleware.execute over a sequence of calls.
use prefeitura_anti_hack.Prelude.{
  ℕ, zero, suc, ◌+◌, ◌≤◌, ◌<◌, ◌≡◌, refl, ◌∙◌, ap, inl, inr, String, true, false, List, [], ◌∷◌,
  All, Bool-cases, ltb, leb, str_eq_refl, arith,
}
use prefeitura_anti_hack.Prelude.Python.{Exception, err}
use prefeitura_anti_hack.Prelude.Exec.{Exec}
use prefeitura_anti_hack.CommandBus.{
  BusState, Table, get_or, set_key, set_failures, set_last_failure, on_app, execute,
}

get_or-set_key : (name : String) (n : ℕ) (table : Table) → get_or 0 (set_key name n table) name ≡ n
get_or-set_key name n table = let p = str_eq_refl name in ground (arith, p)

module _ {P A : Type 0} (name : String) (m : Exec P A) where
  -- the calls of one command at the given times
  abbrev pub calls_at : List ℕ → BusState P → BusState P
  calls_at [] w = w
  calls_at (t ∷ ts) w = calls_at ts (execute t name (on_app m) w).1

  -- the state of the application after the handler has run `n` times
  abbrev pub ran : ℕ → P → P
  ran zero p = p
  ran (suc n) p = ran n (m p).1

  abbrev pub failures_of : BusState P → ℕ
  failures_of w = get_or 0 w.breaker.failures name

  -- the failure count is within the threshold, and a failure that counts is not before `start`
  record Within (start threshold recovery : ℕ) (w : BusState P) : Type 0 where
    same_threshold : w.breaker.failure_threshold ≡ threshold
    same_recovery : w.breaker.recovery_time ≡ recovery
    bounded : failures_of w ≤ threshold
    recent : 0 < failures_of w → start ≤ get_or 0 w.breaker.last_failure_time name

  failed_at : ℕ → BusState P → BusState P
  failed_at t w =
      set_last_failure name t
        (set_failures name (suc (failures_of w)) (record w { app = (m w.app).1 }))

  module _ (fails : (p : P) → (x : Exception) × ((m p).0 ≡ err x))
      (start threshold recovery : ℕ) where
    rejected :
        (t : ℕ) (w : BusState P)
        → 0 < threshold
        → t < start + recovery
        → Within start threshold recovery w
        → failures_of w ≡ threshold
        → (execute t name (on_app m) w).1 ≡ w
    unfolding execute
    rejected t w z l h e =
        let r = h.recent (omega (arith, z, e)) in
        let a = h.same_threshold in
        let b = h.same_recovery in
        let p : leb w.breaker.failure_threshold (failures_of w) ≡ true = ground (arith, a, e) in
        let q : ltb t (get_or 0 w.breaker.last_failure_time name + w.breaker.recovery_time) ≡ true =
          ground (arith, b, r, l) in
        rw (p, q) refl

    attempted-eq :
        (t : ℕ) (w : BusState P)
        → Within start threshold recovery w
        → failures_of w < threshold
        → (execute t name (on_app m) w).1 ≡ failed_at t w
    unfolding execute failed_at
    attempted-eq t w h e =
        let a = h.same_threshold in
        let p : leb w.breaker.failure_threshold (failures_of w) ≡ false = ground (arith, a, e) in
        let (x, k) = fails w.app in rw (p, k) refl

    failed_at-Within :
        (t : ℕ) (w : BusState P)
        → start ≤ t
        → Within start threshold recovery w
        → failures_of w < threshold
        → Within start threshold recovery (failed_at t w)
          × (failures_of (failed_at t w) ≡ suc (failures_of w))
    unfolding failed_at
    failed_at-Within t w z h e =
        let f = get_or-set_key name (suc (failures_of w)) w.breaker.failures in
        let g = get_or-set_key name t w.breaker.last_failure_time in
        (
          record {
            same_threshold = h.same_threshold;
            same_recovery = h.same_recovery;
            bounded = omega (arith, f, e);
            recent = λ k. omega (arith, g, z);
          },
          f,
        )

    -- A handler that always fails, called at times of one recovery period from a circuit that is
    -- within its threshold, runs at most as often as the threshold still allows.
    window :
        (ts : List ℕ) (w : BusState P)
        → 0 < threshold
        → All (λ t. (start ≤ t) × (t < start + recovery)) ts
        → Within start threshold recovery w
        → (n : ℕ) × (n + failures_of w ≤ threshold) × ((calls_at ts w).app ≡ ran n w.app)
    unfolding failed_at
    window [] w z ts_in h = let b = h.bounded in (0, omega (arith, b), refl)
    window (t ∷ ts) w z ((a, b), rest) h = elim (Bool-cases (leb threshold (failures_of w))) [
      | inl p ↦
          let bounded = h.bounded in
          let e : failures_of w ≡ threshold = ground (arith, p, bounded) in
          let (n, l, q) = window ts w z rest h in
          (n, l, ap (λ v. (calls_at ts v).app) (rejected t w z b h e) ∙ q)
      | inr p ↦
          let e : failures_of w < threshold = ground (arith, p) in
          let (k, f) = failed_at-Within t w a h e in
          let (n, l, q) = window ts (failed_at t w) z rest k in
          (suc n, omega (arith, l, f), ap (λ v. (calls_at ts v).app) (attempted-eq t w h e) ∙ q)
    ]

-- A circuit with a positive threshold whose command has no failure yet, called again and again
-- within one recovery period on a handler that always fails, lets the handler run at most as often
-- as the threshold says, however many calls there are.
pub execute-bounds :
    {P A : Type 0} (name : String) (m : Exec P A) (start : ℕ) (ts : List ℕ) (w : BusState P)
    → ((p : P) → (x : Exception) × ((m p).0 ≡ err x))
    → get_or 0 w.breaker.failures name ≡ 0
    → 0 < w.breaker.failure_threshold
    → All (λ t. (start ≤ t) × (t < start + w.breaker.recovery_time)) ts
    → (n : ℕ) × (n ≤ w.breaker.failure_threshold)
      × ((calls_at name m ts w).app ≡ ran name m n w.app)
execute-bounds name m start ts w fails e z ts_in =
    let (n, l, q) =
      window name m fails start w.breaker.failure_threshold w.breaker.recovery_time ts w z ts_in
        (record {
          same_threshold = refl;
          same_recovery = refl;
          bounded = omega (arith, e);
          recent = λ k. absurd (omega (arith, e, k));
        }) in
    (n, omega (arith, l), q)
