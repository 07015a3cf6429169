-- ===== src/Volume/State.antt =====
-- AllocationState of pkg/volume/allocation.go, and the transition relation of
-- allocation_transition.go and ownership_transition.go.
use scaleway_file_storage_su.Prelude.{Bool, true, false, ◌||◌, ◌↔◌, ◌≡◌, arith}
use scaleway_file_storage_su.Prelude.Results.{Result, ok, err}
use scaleway_file_storage_su.Prelude.Texts.{Text, text_eq, text_eq_iff}
use scaleway_file_storage_su.Prelude.Equality.{Eq}
use scaleway_file_storage_su.Volume.Errors.{VolumeError, bad_state}

-- `unsupported` holds the texts other than the seven states.
pub data AllocationState : Type 0 where
  reserved creating_directory ready deleting archived deleted retained : AllocationState
  unsupported : Text → AllocationState

unfoldable pub state_eq : AllocationState → AllocationState → Bool
state_eq reserved reserved = true
state_eq creating_directory creating_directory = true
state_eq ready ready = true
state_eq deleting deleting = true
state_eq archived archived = true
state_eq deleted deleted = true
state_eq retained retained = true
state_eq (unsupported s) (unsupported t) = text_eq s t
state_eq _ _ = false

pub state_eq_iff : (a b : AllocationState) → (state_eq a b ≡ true) ↔ (a ≡ b)
unfolding state_eq
state_eq_iff (unsupported s) (unsupported t) = ground (arith, text_eq_iff s t)
state_eq_iff a b = ground arith

instance abbrev pub state_Eq : Eq AllocationState
state_Eq = record { beq = state_eq; beq_iff = state_eq_iff }

-- AllocationState.Reserves
unfoldable pub reserves : AllocationState → Result VolumeError Bool
reserves reserved = ok true
reserves creating_directory = ok true
reserves ready = ok true
reserves deleting = ok true
reserves archived = ok true
reserves retained = ok true
reserves deleted = ok false
reserves (unsupported s) = err bad_state

abbrev step_allowed : AllocationState → AllocationState → Bool
step_allowed reserved next = state_eq next creating_directory
step_allowed creating_directory next = state_eq next ready
step_allowed ready next = state_eq next deleting
step_allowed deleting next =
    state_eq next archived || state_eq next retained || state_eq next deleted
step_allowed archived next = state_eq next deleted
step_allowed retained next = state_eq next deleted
step_allowed deleted next = false
step_allowed (unsupported s) next = false

-- allowedAllocationStateTransition
unfoldable pub allocation_transition : AllocationState → AllocationState → Bool
unfolding state_eq
allocation_transition current next = state_eq current next || step_allowed current next

abbrev ownership_step : AllocationState → AllocationState → Bool
ownership_step ready next = state_eq next deleting
ownership_step deleting next = state_eq next archived || state_eq next retained
ownership_step _ next = false

-- allowedDetailedOwnershipTransition
unfoldable pub ownership_transition : AllocationState → AllocationState → Bool
unfolding state_eq
ownership_transition current next = state_eq current next || ownership_step current next
