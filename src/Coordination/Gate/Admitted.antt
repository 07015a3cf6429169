-- ===== src/Coordination/Gate/Admitted.antt =====
-- Which calls the gate lets through behind a closed barrier, and what each operation leaves of the
-- barrier and of its admission.
use scaleway_file_storage_su.Prelude.{
  ◌≡◌, refl, sym, subst, ap, ◌∙◌, ◌⊎◌, inl, inr, Bool, true, false, Option, none, some, [], ◌∷◌,
  All, Option-cases, arith,
}
use scaleway_file_storage_su.Prelude.Results.{Result, ok, err}
use scaleway_file_storage_su.Prelude.Texts.{Text, text_eq_iff}
use scaleway_file_storage_su.Volume.Identifiers.{validate_operation_id}
use scaleway_file_storage_su.Coordination.Gate.{
  Gate, Admission, enter, take_token, admit, release, begin_quiesce, give_up, return_token,
  start_reconciliation, finish_reconciliation, resume, is_open, is_refused, GateError,
  admission_allowed, same_admission,
}
use scaleway_file_storage_su.Coordination.Gate.Threads.{
  Phase, Move, System, waiting, granted, holding, returning, finished, move, gives_up, takes,
  checks, releases, returns,
}

-- The call does not hold the gate, or it carries the given admission, of the given barrier request.
abbrev pub IsAdmitted : Text → Option Admission → Phase → Type 0
IsAdmitted id latest (holding none) = ⊥
IsAdmitted id latest (holding (some a)) = (a.request_id ≡ id) × (latest ≡ some a)
IsAdmitted id latest _ = Unit

-- After a BeginQuiesce has returned, until Resume: the gate is closed, and every holder carries the
-- admission that the latest reconciliation of the barrier has granted.
abbrev pub IsGuarded : System → Type 0
IsGuarded s =
    s.drained ≡ true
    → (is_open s.gate.quiesce_id ≡ false) × All (IsAdmitted s.gate.quiesce_id s.latest) s.threads

-- The admission of the gate is the latest one of the barrier.
abbrev pub IsLatest : Gate → Option Admission → Type 0
IsLatest gate latest =
    (a : Admission)
    → gate.admission ≡ some a
    → (latest ≡ some a) × (a.request_id ≡ gate.quiesce_id) × (is_open gate.quiesce_id ≡ false)

abbrev pub Barred : System → Type 0
Barred s = IsGuarded s × IsLatest s.gate s.latest

same-Admission : (a b : Admission) → a.serial ≡ b.serial → a.request_id ≡ b.request_id → a ≡ b
same-Admission a b serial request = cc

allowed-some :
    (gate : Gate) (a b : Admission)
    → gate.admission ≡ some b
    → admission_allowed gate (some a) ≡ true
    → (a.serial ≡ b.serial) × (a.request_id ≡ gate.quiesce_id)
unfolding admission_allowed same_admission
allowed-some gate a b stands h = ground (arith, text_eq_iff a.request_id gate.quiesce_id)

allowed-none :
    (gate : Gate) (a : Admission) → gate.admission ≡ none → admission_allowed gate (some a) ≡ false
unfolding admission_allowed same_admission
allowed-none gate a none_stands = rw none_stands

-- Only the latest admission is let through a closed gate.
allowed-latest :
    (gate : Gate) (a : Admission) (latest : Option Admission)
    → IsLatest gate latest
    → admission_allowed gate (some a) ≡ true
    → IsAdmitted gate.quiesce_id latest (holding (some a))
allowed-latest gate a latest active h = elim (Option-cases gate.admission) [
  | inl absent ↦ absurd (ground (arith, allowed-none gate a absent))
  | inr (b, stands) ↦
      let (serial, request) = allowed-some gate a b stands h in
      let (known, request', closed) = active b stands in
      (request, known ∙ ap (λ x. some x) (sym (same-Admission a b serial (request ∙ sym request'))))
]

checked-allowed :
    (gate : Gate) (carried : Option Admission) (gate' : Gate)
    → is_open gate.quiesce_id ≡ false
    → admit gate carried ≡ ok gate'
    → admission_allowed gate carried ≡ true
unfolding admit is_refused
checked-allowed gate carried gate' closed h = ground arith

none-refused : (gate : Gate) → admission_allowed gate none ≡ false
unfolding admission_allowed same_admission
none-refused gate = refl

check-IsAdmitted :
    (gate : Gate) (carried : Option Admission) (latest : Option Admission)
    → IsLatest gate latest
    → admission_allowed gate carried ≡ true
    → IsAdmitted gate.quiesce_id latest (holding carried)
check-IsAdmitted gate none latest active h = absurd (ground (arith, none-refused gate))
check-IsAdmitted gate (some a) latest active h = allowed-latest gate a latest active h

-- The second check of a call behind a closed gate.
granted-IsAdmitted :
    (gate : Gate) (c : Option Admission) (latest : Option Admission) (gate' : Gate) (phase' : Phase)
    (r : Result GateError Gate)
    → admit gate c ≡ r
    → is_open gate.quiesce_id ≡ false
    → IsLatest gate latest
    → (elim r as (λ x. Option (Gate × Phase)) [
      | ok g ↦ some (g, holding c)
      | err e ↦ some (gate, returning)
    ])
      ≡ some (gate', phase')
    → IsAdmitted gate.quiesce_id latest phase'
granted-IsAdmitted gate c latest gate' phase' (ok g) e closed active h =
    let held : holding c ≡ phase' = ground arith in
    subst (IsAdmitted gate.quiesce_id latest) held
      (check-IsAdmitted gate c latest active (checked-allowed gate c g closed e))
granted-IsAdmitted gate c latest gate' phase' (err e') e closed active h =
    let left : returning ≡ phase' = ground arith in
    subst (IsAdmitted gate.quiesce_id latest) left tt

pub move-IsAdmitted :
    (gate : Gate) (latest : Option Admission) (phase : Phase) (m : Move) (gate' : Gate)
    (phase' : Phase)
    → is_open gate.quiesce_id ≡ false
    → IsLatest gate latest
    → move gate phase m ≡ some (gate', phase')
    → IsAdmitted gate.quiesce_id latest phase'
unfolding move
move-IsAdmitted gate latest (waiting c) m gate' phase' closed active h = ground arith
move-IsAdmitted gate latest (granted c) checks gate' phase' closed active h =
    granted-IsAdmitted gate c latest gate' phase' (admit gate c) refl closed active h
move-IsAdmitted gate latest (granted c) gives_up gate' phase' closed active h = absurd (cc)
move-IsAdmitted gate latest (granted c) takes gate' phase' closed active h = absurd (cc)
move-IsAdmitted gate latest (granted c) releases gate' phase' closed active h = absurd (cc)
move-IsAdmitted gate latest (granted c) returns gate' phase' closed active h = absurd (cc)
move-IsAdmitted gate latest (holding c) m gate' phase' closed active h = ground arith
move-IsAdmitted gate latest returning m gate' phase' closed active h = ground arith
move-IsAdmitted gate latest finished m gate' phase' closed active h = ground arith

-- The barrier and its admission stay.
abbrev pub SameBarrier : Gate → Gate → Type 0
SameBarrier gate gate' = (gate'.quiesce_id ≡ gate.quiesce_id) × (gate'.admission ≡ gate.admission)

pub same-IsLatest :
    (gate gate' : Gate) (latest : Option Admission)
    → SameBarrier gate gate'
    → IsLatest gate latest
    → IsLatest gate' latest
same-IsLatest gate gate' latest same active a stands = rw same.0 (active a (sym same.1 ∙ stands))

pub move-SameBarrier :
    (gate : Gate) (phase : Phase) (m : Move) (gate' : Gate) (phase' : Phase)
    → move gate phase m ≡ some (gate', phase')
    → SameBarrier gate gate'
unfolding move give_up take_token admit release return_token
move-SameBarrier gate phase m gate' phase' h = ground arith

pub enter-SameBarrier :
    (gate gate' : Gate) (b : Bool) (c : Option Admission)
    → enter gate b c ≡ ok gate'
    → SameBarrier gate gate'
unfolding enter
enter-SameBarrier gate gate' b c h = ground arith

pub finish-fewer :
    (gate : Gate) (a : Admission)
    → ((finish_reconciliation gate a).quiesce_id ≡ gate.quiesce_id)
      × (((finish_reconciliation gate a).admission ≡ gate.admission)
          ⊎ ((finish_reconciliation gate a).admission ≡ none))
unfolding finish_reconciliation
finish-fewer gate a = ground arith

pub begin-barrier :
    (gate gate' : Gate) (id : Text)
    → begin_quiesce gate id ≡ ok gate'
    → (gate'.admission ≡ gate.admission)
      × (is_open gate.quiesce_id ≡ false → gate'.quiesce_id ≡ gate.quiesce_id)
unfolding begin_quiesce
begin-barrier gate gate' id h = ground arith

validate_operation_id-nonempty : (id : Text) → validate_operation_id id ≡ ok tt → is_open id ≡ false
unfolding validate_operation_id
validate_operation_id-nonempty [] h = absurd (cc)
validate_operation_id-nonempty (b ∷ bs) h = refl

-- A reconciliation starts behind a closed gate without holders.
pub start-granted :
    (gate : Gate) (b : Bool) (id : Text) (r : Gate × Admission)
    → start_reconciliation gate b id ≡ ok r
    → (r.0.quiesce_id ≡ gate.quiesce_id)
      × (r.0.admission ≡ some r.1)
      × (r.1.request_id ≡ gate.quiesce_id)
      × (is_open gate.quiesce_id ≡ false)
      × (gate.inflight ≡ 0)
unfolding start_reconciliation
start-granted gate b id r h =
    ground (arith, text_eq_iff gate.quiesce_id id, validate_operation_id-nonempty id)

pub resume-opens :
    (gate gate' : Gate) (id : Text)
    → resume gate id ≡ ok gate'
    → (is_open gate'.quiesce_id ≡ true)
      × ((gate'.admission ≡ none)
          ⊎ ((gate'.admission ≡ gate.admission) × (is_open gate.quiesce_id ≡ true)))
unfolding resume
resume-opens gate gate' id h = ground arith
