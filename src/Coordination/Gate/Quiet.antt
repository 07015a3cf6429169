-- ===== src/Coordination/Gate/Quiet.antt =====
-- The mutation gate behind a completed barrier while no reconciliation is active.
use scaleway_file_storage_su.Prelude.{
  ℕ, ◌≤◌, ◌≡◌, refl, true, false, Option, none, some, List, [], ◌∷◌, All, get_elem?, arith,
  Option-cases, inl, inr, ◌==◌, ==_iff, ap,
}
use scaleway_file_storage_su.Prelude.Results.{ok}
use scaleway_file_storage_su.Coordination.Gate.{
  Gate, Admission, new_gate, enter, take_token, admit, release, begin_quiesce, give_up,
  return_token, finish_reconciliation, is_open, is_refused, admission_allowed, same_admission,
}
use scaleway_file_storage_su.Coordination.Gate.Threads.{
  Phase, Move, System, Action, waiting, granted, holding, returning, finished, calls, moves,
  quiesces, drains, starts, finishes, resumes, move, act, run, start, moved, move_at,
}
use scaleway_file_storage_su.Coordination.Gate.Admitted.{IsLatest}
use scaleway_file_storage_su.Coordination.Gate.Barrier.{new_gate-run-IsGuarded, new_gate-run-Barred}

-- The action neither starts a reconciliation nor opens the gate.
abbrev pub IsQuiet : Action → Type 0
IsQuiet (starts id) = ⊥
IsQuiet (resumes id) = ⊥
IsQuiet _ = Unit

abbrev Shut : Gate → Type 0
Shut gate = (is_open gate.quiesce_id ≡ false) × (gate.admission ≡ none)

-- The gate is still shut and has no new holder.
abbrev Calmer : Gate → Gate → Type 0
Calmer gate gate' = Shut gate' × (gate'.inflight ≤ gate.inflight)

Shut-refuses : (gate : Gate) (c : Option Admission) → Shut gate → is_refused gate c ≡ true
unfolding is_refused admission_allowed same_admission
Shut-refuses gate none (closed, absent) = ground arith
Shut-refuses gate (some a) (closed, absent) = rw (absent, closed)

move-Calmer :
    (gate : Gate) (phase : Phase) (m : Move) (gate' : Gate) (phase' : Phase)
    → Shut gate
    → move gate phase m ≡ some (gate', phase')
    → Calmer gate gate'
unfolding move give_up take_token admit release return_token
move-Calmer gate (waiting c) m gate' phase' shut h = ground arith
move-Calmer gate (granted c) m gate' phase' shut h = ground (arith, Shut-refuses gate c shut)
move-Calmer gate (holding c) m gate' phase' shut h = ground arith
move-Calmer gate returning m gate' phase' shut h = ground arith
move-Calmer gate finished m gate' phase' shut h = ground arith

moved-Calmer :
    (s : System) (i : ℕ) (phase : Phase) (m : Move) (o : Option (Gate × Phase))
    → move s.gate phase m ≡ o
    → Shut s.gate
    → Calmer s.gate (moved s i o).gate
unfolding moved
moved-Calmer s i phase m none e shut = (shut, omega arith)
moved-Calmer s i phase m (some (gate', phase')) e shut =
    move-Calmer s.gate phase m gate' phase' shut e

move_at-Calmer :
    (s : System) (i : ℕ) (m : Move) (o : Option Phase)
    → Shut s.gate
    → Calmer s.gate (move_at s i m o).gate
unfolding move_at
move_at-Calmer s i m none shut = (shut, omega arith)
move_at-Calmer s i m (some phase) shut = moved-Calmer s i phase m (move s.gate phase m) refl shut

finish-Calmer :
    (gate : Gate) (a : Admission) → Shut gate → Calmer gate (finish_reconciliation gate a)
unfolding finish_reconciliation same_admission
finish-Calmer gate a shut = ground arith

act-Calmer : (s : System) (a : Action) → IsQuiet a → Shut s.gate → Calmer s.gate (act s a).gate
unfolding act enter begin_quiesce
act-Calmer s (calls is_cancelled carried) quiet shut = ground arith
act-Calmer s (moves i m) quiet shut = move_at-Calmer s i m (get_elem? s.threads i) shut
act-Calmer s (quiesces id) quiet shut = ground arith
act-Calmer s drains quiet shut = ground arith
act-Calmer s (starts id) quiet shut = absurd quiet
act-Calmer s (finishes admission) quiet shut = finish-Calmer s.gate admission shut
act-Calmer s (resumes id) quiet shut = absurd quiet

run-Calmer :
    (s : System) (later : List Action)
    → All IsQuiet later
    → Shut s.gate
    → Calmer s.gate (run s later).gate
unfolding run
run-Calmer s [] quiet shut = (shut, omega arith)
run-Calmer s (a ∷ later) (now, quiet) shut =
    let (still, fewer) = act-Calmer s a now shut in
    let (after, fewest) = run-Calmer (act s a) later quiet still in (after, omega arith)

-- In every interleaving of calls on a new gate, from a point at which a BeginQuiesce has returned
-- behind a closed gate and no reconciliation is active, through any further actions that neither
-- start a reconciliation nor resume, the gate stays closed and the mutations in flight never grow,
-- with any admissions that the calls carry: a context that outlives its callback admits nothing.
pub new_gate-run-quiet :
    (limit : ℕ) (schedule later : List Action) {gate : Gate}
    → new_gate limit ≡ ok gate
    → (run (start gate) schedule).drained ≡ true
    → (run (start gate) schedule).gate.admission ≡ none
    → All IsQuiet later
    → (is_open (run (run (start gate) schedule) later).gate.quiesce_id ≡ false)
      × ((run (run (start gate) schedule) later).gate.inflight
          ≤ (run (start gate) schedule).gate.inflight)
new_gate-run-quiet limit schedule later {gate} new drained idle quiet =
    let s = run (start gate) schedule in
    let (closed, admitted) = new_gate-run-IsGuarded limit schedule {gate = gate} new drained in
    let (shut, fewer) = run-Calmer s later quiet (closed, idle) in (shut.0, fewer)

-- The end of the latest reconciliation clears its admission.
finish-Shut :
    (gate : Gate) (latest : Option Admission) (a : Admission)
    → is_open gate.quiesce_id ≡ false
    → IsLatest gate latest
    → latest ≡ some a
    → Calmer gate (finish_reconciliation gate a)
unfolding finish_reconciliation same_admission
finish-Shut gate latest a closed active known = elim (Option-cases gate.admission) [
  | inl absent ↦ finish-Calmer gate a (closed, absent)
  | inr (b, stands) ↦
      let same : b ≡ a = ground (arith, active b stands) in
      let serial : (b.serial == a.serial) ≡ true =
        (==_iff b.serial a.serial).1 (ap (λ (x : Admission). x.serial) same) in
      ground arith
]

-- In every interleaving of calls on a new gate, from a point at which a BeginQuiesce has returned
-- behind a closed gate and the callback of the latest reconciliation of the barrier returns, through
-- any further actions that neither start a reconciliation nor resume, the gate stays closed and the
-- mutations in flight never exceed those at the return, with any admissions that the calls carry.
pub new_gate-run-expired :
    (limit : ℕ) (schedule later : List Action) (ended : Admission) {gate : Gate}
    → new_gate limit ≡ ok gate
    → (run (start gate) schedule).drained ≡ true
    → (run (start gate) schedule).latest ≡ some ended
    → All IsQuiet later
    → (is_open (run (act (run (start gate) schedule) (finishes ended)) later).gate.quiesce_id
        ≡ false)
      × ((run (act (run (start gate) schedule) (finishes ended)) later).gate.inflight
          ≤ (run (start gate) schedule).gate.inflight)
unfolding act
new_gate-run-expired limit schedule later ended {gate} new drained known quiet =
    let s = run (start gate) schedule in
    let (guarded, active) = new_gate-run-Barred limit schedule {gate = gate} new in
    let (shut, calmer) = finish-Shut s.gate s.latest ended (guarded drained).0 active known in
    let (after, fewer) = run-Calmer (act s (finishes ended)) later quiet shut in
    (after.0, omega arith)
