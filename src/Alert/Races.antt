-- ===== src/Alert/Races.antt =====
-- Two acknowledgements of one alert at a time: both look it up before either is saved.
use mathlib.Core.Path.{subst}
use prefeitura_anti_hack.Prelude.{
  ℕ, ◌≡◌, refl, sym, Bool, true, String, Option, none, some, List, [], ◌∷◌, ◌++◌, ◌⊎◌, any, filter,
  Bool-cases, arith, inl, inr, filter-concat,
}
use prefeitura_anti_hack.Prelude.Int.{ℤ}
use prefeitura_anti_hack.Prelude.Python.{ok, err, multiple_results_found, Result-cases}
use prefeitura_anti_hack.Prelude.Exec.{Exec}
use prefeitura_anti_hack.Alert.{
  AlertAcknowledgement, AcknowledgeAlert, AlertAcknowledgedEvent, new_ack, acknowledges,
  acknowledged_event, ack_of, same_ack, insert_ack, select_ack, postgres_acks, parsed_tenant,
  acknowledge_new, acknowledge,
}
use prefeitura_anti_hack.Alert.Once.{Finds, new_ack-same}
use prefeitura_anti_hack.Alert.Kept.{
  acknowledges_self, insert_ack-eq, select_ack-none, select_ack-reads,
}

module _ {P : Type 0} (publish : AlertAcknowledgedEvent → Exec P (Unit {0})) where
  -- what a call that found nothing has saved
  saved_row :
      (a u : AlertAcknowledgement) (s s' : List AlertAcknowledgement) (p p' : P)
      → acknowledge_new postgres_acks publish a none (s, p) ≡ (ok u, (s', p'))
      → s ++ a ∷ [] ≡ s'
  saved_row a u s s' p p' h = elim (Result-cases (new_ack a)) [
    | inr (x, f) ↦ absurd (ground (arith, f, h))
    | inl (v, f) ↦
        let f' : new_ack a ≡ ok a = rw (new_ack-same a v f) at f in
        elim (Result-cases (insert_ack a s).0) [
          | inr (x, g) ↦ absurd (ground (arith, f', g, h))
          | inl (w, g) ↦ elim (Result-cases (publish (acknowledged_event w) p).0) [
            | inr (x, k) ↦ absurd (ground (arith, f', g, k, h))
            | inl (x, k) ↦
                let q : insert_ack a s ≡ (ok w, s') = ground (arith, f', g, k, h) in
                (insert_ack-eq a w s s' q).1
          ]
        ]
  ]

  -- the rows that a call leaves: those before, and at most one more
  Appends : List AlertAcknowledgement → List AlertAcknowledgement → Type 0
  Appends rows after = (after ≡ rows) ⊎ ((x : AlertAcknowledgement) × (after ≡ rows ++ x ∷ []))

  insert_ack-Appends :
      (x : AlertAcknowledgement) (rows : List AlertAcknowledgement)
      → Appends rows (insert_ack x rows).1
  unfolding insert_ack Appends
  insert_ack-Appends x rows = elim (Bool-cases (any (same_ack x) rows)) [
    | inl c ↦ inl (ground (arith, c))
    | inr c ↦ inr (x, ground (arith, c))
  ]

  acknowledge_new-Appends :
      (x : AlertAcknowledgement) (o : Option AlertAcknowledgement)
      (rows : List AlertAcknowledgement) (p : P)
      → Appends rows (acknowledge_new postgres_acks publish x o (rows, p)).1.0
  unfolding Appends
  acknowledge_new-Appends x (some found) rows p = inl refl
  acknowledge_new-Appends x none rows p = elim (Result-cases (new_ack x)) [
    | inr (e, f) ↦ inl (ground (arith, f))
    | inl (v, f) ↦
        let kept : (acknowledge_new postgres_acks publish x none (rows, p)).1.0
            ≡ (insert_ack v rows).1 =
          elim (Result-cases (insert_ack v rows).0) [
            | inr (e, g) ↦ ground (arith, f, g)
            | inl (w, g) ↦ elim (Result-cases (publish (acknowledged_event w) p).0) [
              | inr (e, k) ↦ ground (arith, f, g, k)
              | inl (e, k) ↦ ground (arith, f, g, k)
            ]
          ] in
        subst (Appends rows) (sym kept) (insert_ack-Appends v rows)
  ]

  acknowledge-Appends :
      (parse_uuid : String → Option ℕ) (i : ℕ) (now : ℤ) (c : AcknowledgeAlert)
      (rows : List AlertAcknowledgement) (p : P)
      → Appends rows (acknowledge postgres_acks publish parse_uuid i now c (rows, p)).1.0
  unfolding acknowledge Appends
  acknowledge-Appends parse_uuid i now c rows p =
      elim (Result-cases (parsed_tenant parse_uuid c.tenant_id)) [
        | inr (e, q) ↦ inl (ground (arith, q))
        | inl (t, q) ↦
            let same = select_ack-reads c.fingerprint t rows in
            elim (Result-cases (select_ack c.fingerprint t rows).0) [
              | inr (e, f) ↦ inl (ground (arith, q, f, same))
              | inl (o, f) ↦
                  let kept : (acknowledge postgres_acks publish parse_uuid i now c (rows, p)).1.0
                      ≡ (acknowledge_new postgres_acks publish (ack_of i now t c) o (rows, p)).1.0 =
                    ground (arith, q, f, same) in
                  subst (Appends rows) (sym kept)
                    (acknowledge_new-Appends (ack_of i now t c) o rows p)
            ]
      ]

  -- any calls, whether they return or raise
  pub data AnyCalls (parse_uuid : String → Option ℕ)
      : List AlertAcknowledgement × P → List AlertAcknowledgement × P → Type 0 where
    no_call : {s : List AlertAcknowledgement × P} → AnyCalls parse_uuid s s
    a_call :
        {s z : List AlertAcknowledgement × P} (i : ℕ) (now : ℤ) (c : AcknowledgeAlert)
        → AnyCalls parse_uuid (acknowledge postgres_acks publish parse_uuid i now c s).1 z
        → AnyCalls parse_uuid s z

  -- at least two rows of an alert
  Twice : (AlertAcknowledgement → Bool) → List AlertAcknowledgement → Type 0
  Twice t rows =
      (a b : AlertAcknowledgement) × (rest : List AlertAcknowledgement) × (filter t rows
        ≡ a ∷ b ∷ rest)

  Appends-Twice :
      (t : AlertAcknowledgement → Bool) (rows after : List AlertAcknowledgement)
      → Appends rows after
      → Twice t rows
      → Twice t after
  unfolding Appends Twice
  Appends-Twice t rows after (inl e) w = subst (Twice t) (sym e) w
  Appends-Twice t rows after (inr (x, e)) (a, b, rest, w) =
      subst (Twice t) (sym e) (elim (Bool-cases (t x)) [
        | inl h ↦ (a, b, rest ++ x ∷ [], rw (filter-concat t rows x, h, w) refl)
        | inr h ↦ (a, b, rest, rw (filter-concat t rows x, h, w) refl)
      ])

  calls-Twice :
      (parse_uuid : String → Option ℕ) (t : AlertAcknowledgement → Bool)
      (s z : List AlertAcknowledgement × P)
      → AnyCalls parse_uuid s z
      → Twice t s.0
      → Twice t z.0
  calls-Twice parse_uuid t s z no_call w = w
  calls-Twice parse_uuid t s z (a_call i now c rest) w =
      calls-Twice parse_uuid t _ z rest
        (Appends-Twice t s.0 _ (acknowledge-Appends parse_uuid i now c s.0 s.1) w)

  -- When two acknowledgements of one alert of a tenant both find none before either is saved, and
  -- both are saved and return, then after any further acknowledgements, whether they return or
  -- raise, an acknowledgement of that alert raises MultipleResultsFound and changes nothing.
  pub acknowledge-raced :
      (a b u v : AlertAcknowledgement) (s s' z : List AlertAcknowledgement) (p p' y : P)
      → Finds postgres_acks a.fingerprint a.tenant_id s none
      → b.fingerprint ≡ a.fingerprint
      → b.tenant_id ≡ a.tenant_id
      → acknowledge_new postgres_acks publish a none (s, p) ≡ (ok u, (s', p'))
      → acknowledge_new postgres_acks publish b none (s', p') ≡ (ok v, (z, y))
      → (parse_uuid : String → Option ℕ) (later : List AlertAcknowledgement × P)
      → AnyCalls parse_uuid (z, y) later
      → (i : ℕ) (now : ℤ) (c : AcknowledgeAlert) → c.fingerprint ≡ a.fingerprint
      → parsed_tenant parse_uuid c.tenant_id ≡ ok a.tenant_id
      → acknowledge postgres_acks publish parse_uuid i now c later
        ≡ (err multiple_results_found, later)
  unfolding acknowledge select_ack Twice
  acknowledge-raced a b u v s s' z p p' y free e f h k parse_uuid later calls i now c g q =
      let t = acknowledges a.fingerprint a.tenant_id in
      let n = select_ack-none a.fingerprint a.tenant_id s free in
      let one = saved_row a u s s' p p' h in
      let two = saved_row b v s' z p' y k in
      let b_is : t b ≡ true =
        subst (λ x. acknowledges x a.tenant_id b ≡ true) e
          (subst (λ x. acknowledges b.fingerprint x b ≡ true) f (acknowledges_self b)) in
      let r : filter t s' ≡ a ∷ [] =
        subst (λ x. filter t x ≡ a ∷ []) one
          (ground (arith, filter-concat t s a, n, acknowledges_self a)) in
      let both : filter t z ≡ a ∷ b ∷ [] =
        subst (λ x. filter t x ≡ a ∷ b ∷ []) two (ground (arith, filter-concat t s' b, r, b_is)) in
      let (x, w, rest, kept) = calls-Twice parse_uuid t (z, y) later calls (a, b, [], both) in
      ground (arith, q, g, kept)
