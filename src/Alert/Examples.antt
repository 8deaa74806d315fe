-- ===== src/Alert/Examples.antt =====
-- Acknowledgements of alerts at concrete inputs.
use prefeitura_anti_hack.Prelude.{ℕ, ◌≡◌, refl, String, Option, none, List, [], ◌∷◌, ◌++◌}
use prefeitura_anti_hack.Prelude.Int.{pos}
use prefeitura_anti_hack.Prelude.Python.{ok, err, value_error, multiple_results_found}
use prefeitura_anti_hack.Prelude.Exec.{Exec, modify}
use prefeitura_anti_hack.Alert.{
  AlertAcknowledgement, AcknowledgeAlert, AlertAcknowledgedEvent, uuid, missing, text, new_ack,
  insert_ack, keep_ack, select_ack, ack_of, acknowledged_event, in_memory_acks, postgres_acks,
  acknowledge_new, acknowledge,
}
use prefeitura_anti_hack.Alert.Once.{Finds, done, next, acknowledge_twice}
use prefeitura_anti_hack.Alert.Kept.{postgres_acks-Remembers}
use prefeitura_anti_hack.Alert.Races.{AnyCalls, no_call, a_call, acknowledge-raced}

abbrev keep_event : AlertAcknowledgedEvent → Exec (List AlertAcknowledgedEvent) (Unit {0})
keep_event e = modify (λ events. events ++ e ∷ [])

abbrev parse : String → Option ℕ
parse s = none

abbrev by_ana : AcknowledgeAlert
by_ana = record {
  alert_id = "a1";
  fingerprint = "f1";
  reason = "test";
  acknowledged_by = "ana";
  tenant_id = uuid 7;
}

abbrev by_rui : AcknowledgeAlert
by_rui = record by_ana { acknowledged_by = "rui" }

abbrev of_other : AcknowledgeAlert
of_other = record by_ana { fingerprint = "f2" }

abbrev first : AlertAcknowledgement
first = ack_of 1 (pos 5) 7 by_ana

abbrev second : AlertAcknowledgement
second = ack_of 2 (pos 6) 7 of_other

abbrev rival : AlertAcknowledgement
rival = ack_of 3 (pos 5) 7 by_rui

first_acknowledged :
    acknowledge postgres_acks keep_event parse 1 (pos 5) by_ana ([], [])
    ≡ (ok first, (first ∷ [], acknowledged_event first ∷ []))
unfolding acknowledge select_ack insert_ack new_ack
first_acknowledged = refl

second_acknowledged :
    acknowledge postgres_acks keep_event parse 2
      (pos 6)
      of_other
      (first ∷ [], acknowledged_event first ∷ [])
    ≡ (ok second, (first ∷ second ∷ [], acknowledged_event first ∷ acknowledged_event second ∷ []))
unfolding acknowledge select_ack insert_ack new_ack
second_acknowledged = refl

acknowledge_twice_example :
    acknowledge postgres_acks keep_event parse 4
      (pos 9)
      by_rui
      (first ∷ second ∷ [], acknowledged_event first ∷ acknowledged_event second ∷ [])
    ≡ (ok first, (first ∷ second ∷ [], acknowledged_event first ∷ acknowledged_event second ∷ []))
acknowledge_twice_example =
    acknowledge_twice postgres_acks postgres_acks-Remembers keep_event parse 1 (pos 5) by_ana 7
      first [] (first ∷ []) (first ∷ second ∷ []) [] (acknowledged_event first ∷ [])
      (acknowledged_event first ∷ acknowledged_event second ∷ []) refl first_acknowledged
      (next 2 (pos 6) of_other second second_acknowledged done) 4 (pos 9) by_rui refl refl

nothing_found : Finds postgres_acks "f1" 7 [] none
unfolding select_ack
nothing_found = refl

first_saved :
    acknowledge_new postgres_acks keep_event first none ([], [])
    ≡ (ok first, (first ∷ [], acknowledged_event first ∷ []))
unfolding insert_ack new_ack
first_saved = refl

rival_saved :
    acknowledge_new postgres_acks keep_event rival none (first ∷ [], acknowledged_event first ∷ [])
    ≡ (ok rival, (first ∷ rival ∷ [], acknowledged_event first ∷ acknowledged_event rival ∷ []))
unfolding insert_ack new_ack
rival_saved = refl

-- the alert is acknowledged once more, which raises, before the call of the theorem
raced_calls :
    AnyCalls keep_event parse
      (first ∷ rival ∷ [], acknowledged_event first ∷ acknowledged_event rival ∷ [])
      (first ∷ rival ∷ [], acknowledged_event first ∷ acknowledged_event rival ∷ [])
unfolding acknowledge select_ack
raced_calls = a_call 5 (pos 8) by_rui no_call

acknowledge-raced_example :
    acknowledge postgres_acks keep_event parse 4
      (pos 9)
      by_ana
      (first ∷ rival ∷ [], acknowledged_event first ∷ acknowledged_event rival ∷ [])
    ≡ (
      err multiple_results_found,
      (first ∷ rival ∷ [], acknowledged_event first ∷ acknowledged_event rival ∷ []),
    )
acknowledge-raced_example =
    acknowledge-raced keep_event first rival first rival [] (first ∷ []) (first ∷ rival ∷ []) []
      (acknowledged_event first ∷ []) (acknowledged_event first ∷ acknowledged_event rival ∷ [])
      nothing_found refl refl first_saved rival_saved parse
      (first ∷ rival ∷ [], acknowledged_event first ∷ acknowledged_event rival ∷ []) raced_calls 4
      (pos 9) by_ana refl refl

-- the in-memory repository returns the first to the second caller
rival_in_memory :
    acknowledge_new in_memory_acks keep_event rival none (first ∷ [], acknowledged_event first ∷ [])
    ≡ (ok first, (first ∷ [], acknowledged_event first ∷ acknowledged_event first ∷ []))
unfolding keep_ack new_ack
rival_in_memory = refl

without_tenant :
    acknowledge postgres_acks keep_event parse 1
      (pos 5)
      (record by_ana { tenant_id = missing })
      ([], [])
    ≡ (err value_error, ([], []))
unfolding acknowledge
without_tenant = refl

bad_tenant :
    acknowledge postgres_acks keep_event parse 1
      (pos 5)
      (record by_ana { tenant_id = text "x" })
      ([], [])
    ≡ (err value_error, ([], []))
unfolding acknowledge
bad_tenant = refl
