-- ===== src/Coordination/Gate.antt =====
-- pkg/coordination/gate.go: the mutation gate. Each function is one critical section of the source,
-- or one operation on the channel `tokens`; Gate.Threads composes them into interleaved calls.
pub mod Threads
pub mod Counts
pub mod Admitted
pub mod Barrier
pub mod Quiet
mod Examples
use scaleway_file_storage_su.Prelude.{
  ℕ, suc, ◌+◌, ◌-◌, Bool, true, false, not, ◌&&◌, ◌||◌, Option, none, some, [], ◌∷◌, ltb, ◌==◌,
  if◌then◌else◌,
}
use scaleway_file_storage_su.Prelude.Results.{Result, ok, err, reject, map_err, ◌>>=◌, ◌>>◌}
use scaleway_file_storage_su.Prelude.Texts.{Text, text_eq}
use scaleway_file_storage_su.Volume.Errors.{VolumeError}
use scaleway_file_storage_su.Volume.Identifiers.{validate_operation_id}

-- quiescedAdmission. The source compares pointers; `serial` is the identity of the allocation.
pub record Admission : Type 0 where
  pub serial : ℕ
  pub request_id : Text

-- MutationGate: `tokens` counts the items in the channel, whose capacity is `limit`. The empty text
-- is no barrier.
pub record Gate : Type 0 where
  pub limit : ℕ
  pub tokens : ℕ
  pub quiesce_id : Text
  pub admission : Option Admission
  pub inflight : ℕ
  pub queued : ℕ
  -- the next identity of an allocated admission
  pub next_serial : ℕ

pub data GateError : Type 0 where
  zero_limit cancelled : GateError
  -- ErrMutationQuiesced, ErrQuiesceConflict
  mutation_quiesced quiesce_conflict : GateError
  invalid_request : VolumeError → GateError
  reconciliation_active active_holders during_reconciliation : GateError

-- NewMutationGate
unfoldable pub new_gate : ℕ → Result GateError Gate
new_gate limit =
    if limit == 0
    then err zero_limit
    else ok (record {
      limit = limit;
      tokens = 0;
      quiesce_id = [];
      admission = none;
      inflight = 0;
      queued = 0;
      next_serial = 0;
    })

abbrev pub is_some : Option Admission → Bool
is_some none = false
is_some (some a) = true

abbrev pub is_open : Text → Bool
is_open [] = true
is_open (b ∷ bs) = false

unfoldable pub same_admission : Option Admission → Option Admission → Bool
same_admission (some a) (some b) = a.serial == b.serial
same_admission _ _ = false

abbrev pub for_request : Option Admission → Text → Bool
for_request none id = false
for_request (some a) id = text_eq a.request_id id

-- quiescedAdmissionAllowed, for the admission that the context carries. There is one gate, so
-- `admission.gate == gate` holds.
unfoldable pub admission_allowed : Gate → Option Admission → Bool
unfolding same_admission
admission_allowed gate carried =
    same_admission carried gate.admission && for_request carried gate.quiesce_id

-- `gate.quiesceID != "" && !gate.quiescedAdmissionAllowed(ctx)`
unfoldable pub is_refused : Gate → Option Admission → Bool
unfolding admission_allowed
is_refused gate carried = not (is_open gate.quiesce_id) && not (admission_allowed gate carried)

-- Acquire up to the wait: the context, the first check, and the count of waiting calls, which
-- nothing in the gate reads.
unfoldable pub enter : Gate → Bool → Option Admission → Result GateError Gate
enter gate is_cancelled carried = do
  reject is_cancelled cancelled
  reject (is_refused gate carried) mutation_quiesced
  ok (record gate { queued = suc gate.queued })

-- The branch `<-ctx.Done()` of the wait.
unfoldable pub give_up : Gate → Gate
give_up gate = record gate { queued = gate.queued - 1 }

-- The branch `gate.tokens <- struct{}{}`, which blocks while the channel is full.
unfoldable pub take_token : Gate → Option Gate
take_token gate =
    if ltb gate.tokens gate.limit
    then some (record gate { tokens = suc gate.tokens; queued = gate.queued - 1 })
    else none

-- `<-gate.tokens`
unfoldable pub return_token : Gate → Gate
return_token gate = record gate { tokens = gate.tokens - 1 }

-- The second check of Acquire: a refused call still holds its token, and returns it next.
unfoldable pub admit : Gate → Option Admission → Result GateError Gate
admit gate carried = do
  reject (is_refused gate carried) mutation_quiesced
  ok (record gate { inflight = suc gate.inflight })

-- The critical section of the release function.
unfoldable pub release : Gate → Gate
release gate = record gate { inflight = gate.inflight - 1 }

-- BeginQuiesce up to the wait.
unfoldable pub begin_quiesce : Gate → Text → Result GateError Gate
begin_quiesce gate request_id = do
  map_err invalid_request (validate_operation_id request_id)
  reject (not (is_open gate.quiesce_id) && not (text_eq gate.quiesce_id request_id))
      quiesce_conflict
  ok (if is_open gate.quiesce_id then record gate { quiesce_id = request_id } else gate)

-- RunQuiescedReconciliation up to the callback: the gate and the admission of the callback.
unfoldable pub start_reconciliation : Gate → Bool → Text → Result GateError (Gate × Admission)
start_reconciliation gate is_cancelled request_id = do
  reject is_cancelled cancelled
  map_err invalid_request (validate_operation_id request_id)
  reject (not (text_eq gate.quiesce_id request_id)) quiesce_conflict
  reject (is_some gate.admission || not (gate.inflight == 0)) reconciliation_active
  let granted : Admission = record { serial = gate.next_serial; request_id = request_id }
  ok (record gate { admission = some granted; next_serial = suc gate.next_serial }, granted)

-- The first critical section after the callback.
unfoldable pub finish_reconciliation : Gate → Admission → Gate
unfolding same_admission
finish_reconciliation gate granted =
    if same_admission gate.admission (some granted) then record gate { admission = none } else gate

-- Resume
unfoldable pub resume : Gate → Text → Result GateError Gate
resume gate request_id = do
  map_err invalid_request (validate_operation_id request_id)
  if is_open gate.quiesce_id then ok gate else (do
    reject (not (text_eq gate.quiesce_id request_id)) quiesce_conflict
    reject (not (gate.inflight == 0)) active_holders
    reject (is_some gate.admission) during_reconciliation
    ok (record gate { quiesce_id = [] }))
