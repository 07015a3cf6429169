-- ===== src/Coordination/Gate/Threads.antt =====
-- Interleaved calls of the mutation gate. Each thread of `threads` is one call of Acquire; the
-- barrier calls act on the gate as a whole. `drained` records that a BeginQuiesce has returned for
-- the barrier that is up, and `latest` the admission that the last RunQuiescedReconciliation of this
-- barrier has granted.
use scaleway_file_storage_su.Prelude.{
  ℕ, Bool, false, not, ◌&&◌, Option, none, some, List, [], ◌∷◌, ◌==◌, if◌then◌else◌, get_elem?, set,
}
use scaleway_file_storage_su.Prelude.Results.{ok, err, on_ok}
use scaleway_file_storage_su.Prelude.Texts.{Text}
use scaleway_file_storage_su.Coordination.Gate.{
  Gate, Admission, enter, give_up, take_token, return_token, admit, release, begin_quiesce,
  start_reconciliation, finish_reconciliation, resume, is_open,
}

-- Where a call of Acquire stands, with the admission that its context carries.
pub data Phase : Type 0 where
  waiting granted holding : Option Admission → Phase
  -- the token is still to be returned
  returning : Phase
  finished : Phase

-- The next operation of one thread. A release function that runs again does nothing.
pub data Move : Type 0 where
  gives_up takes checks releases returns : Move

pub record System : Type 0 where
  pub gate : Gate
  pub threads : List Phase
  pub drained : Bool
  pub latest : Option Admission

unfoldable pub move : Gate → Phase → Move → Option (Gate × Phase)
move gate (waiting c) gives_up = some (give_up gate, finished)
move gate (waiting c) takes = elim (take_token gate) [
  | some gate' ↦ some (gate', granted c)
  | none ↦ none
]
move gate (granted c) checks = elim (admit gate c) [
  | ok gate' ↦ some (gate', holding c)
  | err e ↦ some (gate, returning)
]
move gate (holding c) releases = some (release gate, returning)
move gate returning returns = some (return_token gate, finished)
move gate _ _ = none

pub data Action : Type 0 where
  -- a new call of Acquire, with its cancellation and the admission of its context
  calls : Bool → Option Admission → Action
  -- a move of the thread at an index
  moves : ℕ → Move → Action
  -- BeginQuiesce up to its wait, and its return
  quiesces : Text → Action
  drains : Action
  -- RunQuiescedReconciliation before and after its callback, and Resume
  starts : Text → Action
  finishes : Admission → Action
  resumes : Text → Action

unfoldable pub moved : System → ℕ → Option (Gate × Phase) → System
moved s i none = s
moved s i (some (gate', phase)) = record s { gate = gate'; threads = set s.threads i phase }

unfoldable pub move_at : System → ℕ → Move → Option Phase → System
unfolding moved move
move_at s i m none = s
move_at s i m (some phase) = moved s i (move s.gate phase m)

-- A refused call changes nothing.
unfoldable pub act : System → Action → System
unfolding move_at
act s (calls is_cancelled carried) =
    on_ok (enter s.gate is_cancelled carried) s
      (λ gate'. record s { gate = gate'; threads = waiting carried ∷ s.threads })
act s (moves i m) = move_at s i m (get_elem? s.threads i)
act s (quiesces id) = on_ok (begin_quiesce s.gate id) s (λ gate'. record s { gate = gate' })
act s drains =
    if s.gate.inflight == 0 then record s { drained = not (is_open s.gate.quiesce_id) } else s
act s (starts id) =
    on_ok (start_reconciliation s.gate false id) s
      (λ started. record s { gate = started.0; latest = some started.1 })
act s (finishes admission) = record s { gate = finish_reconciliation s.gate admission }
act s (resumes id) = on_ok (resume s.gate id) s (λ gate'. record s {
  gate = gate';
  drained = s.drained && not (is_open gate'.quiesce_id);
  latest = none;
})

unfoldable pub run : System → List Action → System
run s [] = s
run s (a ∷ as') = run (act s a) as'

abbrev pub start : Gate → System
start gate = record { gate = gate; threads = []; drained = false; latest = none }
