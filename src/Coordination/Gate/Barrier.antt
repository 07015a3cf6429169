-- ===== src/Coordination/Gate/Barrier.antt =====
-- The holders of the mutation gate behind a completed barrier.
use scaleway_file_storage_su.Prelude.{
  ℕ, ◌≡◌, refl, sym, subst, ◌∙◌, inl, inr, Bool, true, false, not, ◌&&◌, Option, none, some, List,
  [], ◌∷◌, All, All-set, get_elem?, total, Bool-cases, arith, ◌==◌, ==_iff, &&-true,
}
use scaleway_file_storage_su.Prelude.Results.{ok, on_ok-elim}
use scaleway_file_storage_su.Prelude.Texts.{Text}
use scaleway_file_storage_su.Coordination.Gate.{
  Gate, Admission, new_gate, enter, begin_quiesce, start_reconciliation, finish_reconciliation,
  resume, is_open,
}
use scaleway_file_storage_su.Coordination.Gate.Threads.{
  Phase, Move, System, Action, waiting, granted, holding, returning, finished, calls, moves,
  quiesces, drains, starts, finishes, resumes, move, act, run, start, moved, move_at,
}
use scaleway_file_storage_su.Coordination.Gate.Counts.{Exact, holds, act-Exact, new_gate-Exact}
use scaleway_file_storage_su.Coordination.Gate.Admitted.{
  IsAdmitted, IsGuarded, Barred, move-IsAdmitted, SameBarrier, same-IsLatest, move-SameBarrier,
  enter-SameBarrier, finish-fewer, begin-barrier, start-granted, resume-opens,
}

-- With no holder, any predicate that only constrains holders is met.
no-holders :
    (id : Text) (latest : Option Admission) (xs : List Phase)
    → total holds xs ≡ 0
    → All (IsAdmitted id latest) xs
no-holders id latest [] h = tt
no-holders id latest (waiting c ∷ xs) h = (tt, no-holders id latest xs (omega arith))
no-holders id latest (granted c ∷ xs) h = (tt, no-holders id latest xs (omega arith))
no-holders id latest (holding c ∷ xs) h = absurd (omega arith)
no-holders id latest (returning ∷ xs) h = (tt, no-holders id latest xs (omega arith))
no-holders id latest (finished ∷ xs) h = (tt, no-holders id latest xs (omega arith))

moved-Barred :
    (s : System) (i : ℕ) (phase : Phase) (m : Move) (o : Option (Gate × Phase))
    → move s.gate phase m ≡ o
    → Barred s
    → Barred (moved s i o)
unfolding moved
moved-Barred s i phase m none e g = g
moved-Barred s i phase m (some (gate', phase')) e (g, active) =
    let same = move-SameBarrier s.gate phase m gate' phase' e in
    (
      (λ d.
          let (closed, admitted) = g d in
          rw same.0 (
            closed,
            All-set (IsAdmitted s.gate.quiesce_id s.latest) s.threads i phase' admitted
                (move-IsAdmitted s.gate s.latest phase m gate' phase' closed active e),
          )),
      same-IsLatest s.gate gate' s.latest same active,
    )

move_at-Barred :
    (s : System) (i : ℕ) (m : Move) (o : Option Phase) → Barred s → Barred (move_at s i m o)
unfolding move_at
move_at-Barred s i m none g = g
move_at-Barred s i m (some phase) g = moved-Barred s i phase m (move s.gate phase m) refl g

drained-Barred :
    (s : System)
    → total holds s.threads ≡ 0
    → Barred s
    → Barred (record s { drained = not (is_open s.gate.quiesce_id) })
drained-Barred s empty g =
    ((λ d. (ground arith, no-holders s.gate.quiesce_id s.latest s.threads empty)), g.1)

drains-Barred : (s : System) → Exact s → Barred s → Barred (act s drains)
unfolding act
drains-Barred s v g = elim (Bool-cases (s.gate.inflight == 0)) [
  | inl empty ↦
      rw empty (drained-Barred s (omega (arith, v.inflight_exact, (==_iff _ _).0 empty)) g)
  | inr busy ↦ rw busy g
]

-- Nothing of the guard is touched if the barrier, the threads and the flag stay.
same-Barred :
    (s : System) (gate' : Gate)
    → SameBarrier s.gate gate'
    → Barred s
    → Barred (record s { gate = gate' })
same-Barred s gate' same (g, active) =
    ((λ d. rw same.0 (g d)), same-IsLatest s.gate gate' s.latest same active)

none-some : {a : Admission} → ¬ (none ≡ some a)
none-some e = cc

open-closed : {b : Bool} → b ≡ true → ¬ (b ≡ false)
open-closed e f = cc

not-true : {b : Bool} → not b ≡ true → b ≡ false
not-true h = ground arith

called-Barred :
    (s : System) (gate' : Gate) (carried : Option Admission)
    → SameBarrier s.gate gate'
    → Barred s
    → Barred (record s { gate = gate'; threads = waiting carried ∷ s.threads })
called-Barred s gate' carried same (g, active) = (
  (λ d. (
    rw same.0 (g d).0,
    (tt, subst (λ (q : Text). All (IsAdmitted q s.latest) s.threads) (sym same.0) (g d).1),
  )),
  same-IsLatest s.gate gate' s.latest same active,
)

begun-Barred :
    (s : System) (gate' : Gate) (id : Text)
    → begin_quiesce s.gate id ≡ ok gate'
    → Barred s
    → Barred (record s { gate = gate' })
begun-Barred s gate' id e (g, active) =
    let (admission, kept) = begin-barrier s.gate gate' id e in
    (
      (λ d. rw (kept (g d).0) (g d)),
      λ a stands.
          let (known, request, closed) = active a (sym admission ∙ stands) in
          rw (kept closed) (known, request, closed),
    )

started-Barred :
    (s : System) (id : Text) (started : Gate × Admission)
    → start_reconciliation s.gate false id ≡ ok started
    → Exact s
    → Barred s
    → Barred (record s { gate = started.0; latest = some started.1 })
started-Barred s id (gate', fresh) e v (g, active) =
    let (barrier, stands, request, closed, empty) =
      start-granted s.gate false id (gate', fresh) e in
    (
      (λ d. rw barrier (
        closed,
        no-holders s.gate.quiesce_id (some fresh) s.threads (omega (arith, v.inflight_exact)),
      )),
      λ a stands'.
          let same : some fresh ≡ some a = sym stands ∙ stands' in
          let same' : fresh ≡ a = ground arith in
          rw barrier (
            same,
            (subst (λ (x : Admission). x.request_id ≡ s.gate.quiesce_id) same' request),
            closed,
          ),
    )

finished-Barred :
    (s : System) (a : Admission)
    → Barred s
    → Barred (record s { gate = finish_reconciliation s.gate a })
finished-Barred s a (g, active) =
    let (barrier, admission) = finish-fewer s.gate a in
    elim admission [
      | inl kept ↦ same-Barred s (finish_reconciliation s.gate a) (barrier, kept) (g, active)
      | inr cleared ↦
          ((λ d. rw barrier (g d)), λ b stands. absurd (none-some (sym cleared ∙ stands)))
    ]

resumed-Barred :
    (s : System) (gate' : Gate) (id : Text)
    → resume s.gate id ≡ ok gate'
    → Barred s
    → Barred (record s {
      gate = gate';
      drained = s.drained && not (is_open gate'.quiesce_id);
      latest = none;
    })
resumed-Barred s gate' id e (g, active) =
    let (opened, admission) = resume-opens s.gate gate' id e in
    (
      (λ d. absurd (open-closed opened (not-true (&&-true d).1))),
      λ b stands. elim admission [
        | inl cleared ↦ absurd (none-some (sym cleared ∙ stands))
        | inr (kept, was_open) ↦ absurd (open-closed was_open (active b (sym kept ∙ stands)).2)
      ],
    )

act-Barred : (s : System) (a : Action) → Exact s → Barred s → Barred (act s a)
unfolding act
act-Barred s (calls is_cancelled carried) v g =
    on_ok-elim Barred (enter s.gate is_cancelled carried) s
      (λ gate'. record s { gate = gate'; threads = waiting carried ∷ s.threads }) g
      λ gate' e.
        called-Barred s gate' carried (enter-SameBarrier s.gate gate' is_cancelled carried e) g
act-Barred s (moves i m) v g = move_at-Barred s i m (get_elem? s.threads i) g
act-Barred s (quiesces id) v g =
    on_ok-elim Barred (begin_quiesce s.gate id) s (λ gate'. record s { gate = gate' }) g
      λ gate' e. begun-Barred s gate' id e g
act-Barred s drains v g = drains-Barred s v g
act-Barred s (starts id) v g =
    on_ok-elim Barred (start_reconciliation s.gate false id) s
      (λ started. record s { gate = started.0; latest = some started.1 }) g
      λ started e. started-Barred s id started e v g
act-Barred s (finishes admission) v g = finished-Barred s admission g
act-Barred s (resumes id) v g =
    on_ok-elim Barred (resume s.gate id) s
      (λ gate'. record s {
        gate = gate';
        drained = s.drained && not (is_open gate'.quiesce_id);
        latest = none;
      })
      g λ gate' e. resumed-Barred s gate' id e g

run-Barred : (s : System) (as' : List Action) → Exact s → Barred s → Barred (run s as')
unfolding run
run-Barred s [] v g = g
run-Barred s (a ∷ as') v g = run-Barred (act s a) as' (act-Exact s a v) (act-Barred s a v g)

new_gate-Barred : (limit : ℕ) {gate : Gate} → new_gate limit ≡ ok gate → Barred (start gate)
unfolding new_gate
new_gate-Barred limit {gate} h = ((λ d. absurd (cc)), λ a stands. absurd (ground arith))

pub new_gate-run-Barred :
    (limit : ℕ) (schedule : List Action) {gate : Gate}
    → new_gate limit ≡ ok gate
    → Barred (run (start gate) schedule)
new_gate-run-Barred limit schedule {gate} h =
    run-Barred (start gate) schedule (new_gate-Exact limit {gate = gate} h)
      (new_gate-Barred limit {gate = gate} h)

-- In every interleaving of calls on a new gate, once a BeginQuiesce has returned behind a closed gate
-- and until a Resume opens it, the gate is closed and every call that holds it carries the very
-- admission that the latest RunQuiescedReconciliation of this barrier has granted, of the request of
-- the barrier; no other admission, forged or retained from an earlier reconciliation, and no call
-- without one holds the gate.
pub new_gate-run-IsGuarded :
    (limit : ℕ) (schedule : List Action) {gate : Gate}
    → new_gate limit ≡ ok gate
    → IsGuarded (run (start gate) schedule)
new_gate-run-IsGuarded limit schedule {gate} h =
    (new_gate-run-Barred limit schedule {gate = gate} h).0
