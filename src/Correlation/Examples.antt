-- ===== src/Correlation/Examples.antt =====
-- Runs of the correlation engine, and its theorems at a concrete store.
use prefeitura_anti_hack.Prelude.{ℕ, ◌+◌, ◌*◌, ◌≤◌, ◌<◌, ◌≡◌, refl, true, false, any, arith}
use prefeitura_anti_hack.Prelude.Int.{pos}
use prefeitura_anti_hack.Prelude.Text.{contains}
use prefeitura_anti_hack.Prelude.Python.{ok}
use prefeitura_anti_hack.Domain.{validate_utc_datetime}
use prefeitura_anti_hack.Event.{new_event, normalized}
use prefeitura_anti_hack.Correlation.Key.{bucket_start}
use prefeitura_anti_hack.Correlation.Key.Buckets.{bucket_start-holds}
use prefeitura_anti_hack.Correlation.Rules.{is_eligible}
use prefeitura_anti_hack.Correlation.Samples.{
  same, toy, login, ping, start, start-IsConsistent, start-IsReadable, rules,
}
use prefeitura_anti_hack.Correlation.Handler.Replay.{Handled, Replayed, handle-reaches}
use prefeitura_anti_hack.Correlation.Handler.Redelivery.{at_once, time_passes, handle-replay}

-- Both rules open an incident for the failed login.
handle-reaches_example : Handled toy same 3600 rules 7 4 start
handle-reaches_example =
    handle-reaches toy same 3600 rules 7 4 (omega arith) start start-IsConsistent start-IsReadable

-- The login is delivered again at a later time.
handle-replay_example :
    Replayed toy same 3600 rules 7 4
      (record (handle-reaches toy same 3600 rules 7 4
        (omega arith)
        start
        start-IsConsistent
        start-IsReadable).after { now = pos 99 })
handle-replay_example =
    handle-replay toy same 3600 rules 7 4 start start-IsConsistent
      (handle-reaches toy same 3600 rules 7 4 (omega arith) start start-IsConsistent
        start-IsReadable).runs
      (record (handle-reaches toy same 3600 rules 7 4 (omega arith) start start-IsConsistent
        start-IsReadable).after { now = pos 99 })
      (time_passes (pos 99) at_once)

nothing_eligible : any (λ r. is_eligible toy r ping) rules ≡ false
unfolding is_eligible contains toy
nothing_eligible = refl

bucket_start-holds_example :
    (s : ℕ) × (bucket_start (pos 5000000) 3600 ≡ pos (s * 3600))
    × (s * 3600 * 1000000 ≤ 5000000)
    × (5000000 < (s * 3600 + 3600) * 1000000)
bucket_start-holds_example = bucket_start-holds 5000000 3600 (omega arith)

login_mentions : contains "auth_failure" "auth_failure" ≡ true
unfolding contains
login_mentions = refl

accepted : new_event toy same login ≡ ok (normalized toy same login)
unfolding new_event validate_utc_datetime
accepted = refl
