-- ===== src/Coordination/Gate/Examples.antt =====
-- Runs of the mutation gate: a holder, a barrier that waits for it, and a reconciliation behind the
-- barrier whose callback takes the gate again.
use scaleway_file_storage_su.Prelude.{◌≤◌, true, false, none, some, List, [], ◌∷◌, ◌≡◌, refl}
use scaleway_file_storage_su.Prelude.Texts.{Text, text, text_eq}
use scaleway_file_storage_su.Prelude.Results.{ok}
use scaleway_file_storage_su.Coordination.Gate.{
  Gate, Admission, new_gate, is_open, enter, take_token, admit, return_token, release,
  begin_quiesce, start_reconciliation, finish_reconciliation, is_refused, admission_allowed,
  same_admission,
}
use scaleway_file_storage_su.Volume.Identifiers.{validate_operation_id}
use scaleway_file_storage_su.Coordination.Gate.Threads.{
  Action, calls, moves, quiesces, drains, starts, takes, checks, releases, returns, finishes, run,
  start, act, move_at, moved, move,
}
use scaleway_file_storage_su.Coordination.Gate.Counts.{
  Exact, new_gate-run-Exact, new_gate-run-within,
}
use scaleway_file_storage_su.Coordination.Gate.Admitted.{IsGuarded}
use scaleway_file_storage_su.Coordination.Gate.Barrier.{new_gate-run-IsGuarded}
use scaleway_file_storage_su.Coordination.Gate.Quiet.{new_gate-run-quiet, new_gate-run-expired}

abbrev gate_of_two : Gate
gate_of_two = record {
  limit = 2;
  tokens = 0;
  quiesce_id = [];
  admission = none;
  inflight = 0;
  queued = 0;
  next_serial = 0;
}

abbrev barrier : Text
barrier = text "0b0e2f6c-3a58-4f6e-9d53-6f4f8c7a1b20"

abbrev callback : Admission
callback = record { serial = 0; request_id = barrier }

abbrev schedule : List Action
schedule =
    calls false none
    ∷ moves 0 takes
    ∷ moves 0 checks
    ∷ quiesces barrier
    ∷ drains
    ∷ moves 0 releases
    ∷ moves 0 returns
    ∷ drains
    ∷ starts barrier
    ∷ calls false (some callback)
    ∷ moves 0 takes
    ∷ moves 0 checks
    ∷ []

new_gate_of_two : new_gate 2 ≡ ok gate_of_two
unfolding new_gate
new_gate_of_two = refl

new_gate-run-Exact_example : Exact (run (start gate_of_two) schedule)
new_gate-run-Exact_example = new_gate-run-Exact 2 schedule new_gate_of_two

new_gate-run-within_example :
    (run (start gate_of_two) schedule).gate.inflight ≤ (run (start gate_of_two) schedule).gate.limit
new_gate-run-within_example = new_gate-run-within 2 schedule new_gate_of_two

new_gate-run-IsGuarded_example : IsGuarded (run (start gate_of_two) schedule)
new_gate-run-IsGuarded_example = new_gate-run-IsGuarded 2 schedule new_gate_of_two

-- The callback returns its holder and ends; then a call comes with the admission that it kept.
abbrev after_callback : List Action
after_callback =
    calls false none
    ∷ moves 0 takes
    ∷ quiesces barrier
    ∷ moves 0 checks
    ∷ moves 0 returns
    ∷ drains
    ∷ starts barrier
    ∷ calls false (some callback)
    ∷ moves 0 takes
    ∷ moves 0 checks
    ∷ finishes callback
    ∷ []

abbrev retained : List Action
retained =
    calls false (some callback) ∷ moves 0 takes ∷ moves 0 checks ∷ moves 1 releases ∷ drains ∷ []

barrier_completed : (run (start gate_of_two) after_callback).drained ≡ true
unfolding run act move_at moved move enter take_token admit return_token release begin_quiesce
    start_reconciliation finish_reconciliation is_refused admission_allowed same_admission
    validate_operation_id text_eq
barrier_completed = refl

callback_ended : (run (start gate_of_two) after_callback).gate.admission ≡ none
unfolding run act move_at moved move enter take_token admit return_token release begin_quiesce
    start_reconciliation finish_reconciliation is_refused admission_allowed same_admission
    validate_operation_id text_eq
callback_ended = refl

new_gate-run-quiet_example :
    (is_open (run (run (start gate_of_two) after_callback) retained).gate.quiesce_id ≡ false)
    × ((run (run (start gate_of_two) after_callback) retained).gate.inflight
        ≤ (run (start gate_of_two) after_callback).gate.inflight)
new_gate-run-quiet_example =
    new_gate-run-quiet 2 after_callback retained new_gate_of_two barrier_completed callback_ended
      (tt, (tt, (tt, (tt, (tt, tt)))))

-- The same point before the callback returns.
abbrev in_callback : List Action
in_callback =
    calls false none
    ∷ moves 0 takes
    ∷ quiesces barrier
    ∷ moves 0 checks
    ∷ moves 0 returns
    ∷ drains
    ∷ starts barrier
    ∷ calls false (some callback)
    ∷ moves 0 takes
    ∷ moves 0 checks
    ∷ []

callback_runs : (run (start gate_of_two) in_callback).drained ≡ true
unfolding run act move_at moved move enter take_token admit return_token release begin_quiesce
    start_reconciliation finish_reconciliation is_refused admission_allowed same_admission
    validate_operation_id text_eq
callback_runs = refl

callback_latest : (run (start gate_of_two) in_callback).latest ≡ some callback
unfolding run act move_at moved move enter take_token admit return_token release begin_quiesce
    start_reconciliation finish_reconciliation is_refused admission_allowed same_admission
    validate_operation_id text_eq
callback_latest = refl

new_gate-run-expired_example :
    (is_open
        (run
          (act (run (start gate_of_two) in_callback) (finishes callback))
          retained).gate.quiesce_id
      ≡ false)
    × ((run (act (run (start gate_of_two) in_callback) (finishes callback)) retained).gate.inflight
        ≤ (run (start gate_of_two) in_callback).gate.inflight)
new_gate-run-expired_example =
    new_gate-run-expired 2 in_callback retained callback new_gate_of_two callback_runs
      callback_latest (tt, (tt, (tt, (tt, (tt, tt)))))
