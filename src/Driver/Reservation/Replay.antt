-- ===== src/Driver/Reservation/Replay.antt =====
-- A repeated create request against the record that the first one reserved.
use scaleway_file_storage_su.Prelude.{ℕ, true, not, ◌≡◌, arith}
use scaleway_file_storage_su.Prelude.Results.{Result, ok, err, reject, ◌>>=◌, ◌>>◌, >>-eq-ok}
use scaleway_file_storage_su.Volume.Errors.{VolumeError, identity_mismatch, not_canonical}
use scaleway_file_storage_su.Prelude.Texts.{Text, text_eq_iff}
use scaleway_file_storage_su.Prelude.Equality.{◌=?◌, text_Eq}
use scaleway_file_storage_su.Volume.Request.{
  CreateParameters, normalize, equal_create_parameters, equal_create_parameters_iff,
  capacity_compatible,
}
use scaleway_file_storage_su.Volume.Handle.{Codec, logical_volume_id_of}
use scaleway_file_storage_su.Volume.State.{reserved}
use scaleway_file_storage_su.Volume.Records.{DetailedAllocation}
use scaleway_file_storage_su.Volume.Replay.{validate_create_replay}
use scaleway_file_storage_su.Volume.Validation.{
  validate_detailed, validate_logical_identity, validate_request_identity,
}
use scaleway_file_storage_su.Driver.World.{Controller}
use scaleway_file_storage_su.Driver.Reservation.{CreateRequest, Placement, new_reserved_record}

-- A computed value that passes the test against a stored one is the stored one.
logical-step :
    (computed : Result VolumeError Text) (stored : Text)
    → (computed >>= λ wanted. reject (not (stored =? wanted)) identity_mismatch) ≡ ok tt
    → computed ≡ ok stored
logical-step (ok wanted) stored h = ground (arith, text_eq_iff stored wanted)
logical-step (err e) stored h = cc

parameters-step :
    (computed : Result VolumeError CreateParameters) (stored : CreateParameters)
    (rest : CreateParameters → Result VolumeError (Unit {0}))
    → (computed >>= λ p. reject (not (equal_create_parameters p stored)) not_canonical >> rest p)
      ≡ ok tt
    → computed ≡ ok stored
parameters-step (ok p) stored rest h = ground (arith, equal_create_parameters_iff p stored)
parameters-step (err e) stored rest h = cc

-- The parts of the validation that a replay computes again.
valid-parts :
    (codec : Codec) (r : DetailedAllocation)
    → validate_detailed codec r ≡ ok tt
    → (validate_logical_identity codec r ≡ ok tt) × (validate_request_identity codec r ≡ ok tt)
unfolding validate_detailed
valid-parts codec r h = ground arith

logical-part :
    (codec : Codec) (r : DetailedAllocation)
    → validate_detailed codec r ≡ ok tt
    → logical_volume_id_of codec r.driver_name r.create_volume_request_name ≡ ok r.logical_volume_id
unfolding validate_logical_identity
logical-part codec r h =
    logical-step (logical_volume_id_of codec r.driver_name r.create_volume_request_name)
      r.logical_volume_id (>>-eq-ok _ _ (valid-parts codec r h).0).1

parameters-part :
    (codec : Codec) (r : DetailedAllocation)
    → validate_detailed codec r ≡ ok tt
    → normalize r.normalized_create_parameters ≡ ok r.normalized_create_parameters
unfolding validate_request_identity
parameters-part codec r h =
    parameters-step (normalize r.normalized_create_parameters) r.normalized_create_parameters _
      (>>-eq-ok _ _ (>>-eq-ok _ _ (valid-parts codec r h).1).1).1

-- A valid record accepts a replay of its own request with every range that holds its capacity.
pub own_request-replay :
    (codec : Codec) (r : DetailedAllocation) (required limit : ℕ)
    → validate_detailed codec r ≡ ok tt
    → capacity_compatible r.selected_capacity_bytes required limit ≡ true
    → validate_create_replay codec r r.create_volume_request_name required limit
        r.normalized_create_parameters
      ≡ ok tt
unfolding validate_create_replay
own_request-replay codec r required limit valid range = ground (
  arith,
  logical-part codec r valid,
  parameters-part codec r valid,
  text_eq_iff r.logical_volume_id r.logical_volume_id,
  text_eq_iff r.create_volume_request_name r.create_volume_request_name,
  equal_create_parameters_iff r.normalized_create_parameters r.normalized_create_parameters,
)

new-record :
    (controller : Controller) (request : CreateRequest) (selected : ℕ) (logical_id : Text)
    (placement : Placement) (time : Text) {r : DetailedAllocation}
    → new_reserved_record controller request selected logical_id placement time ≡ ok r
    → (validate_detailed controller.sealer.codec r ≡ ok tt)
      × (r.create_volume_request_name ≡ request.name)
      × (r.normalized_create_parameters ≡ request.parameters)
      × (r.selected_capacity_bytes ≡ selected)
      × (r.state ≡ reserved)
      × (r.reserves_capacity ≡ true)
unfolding new_reserved_record
new-record controller request selected logical_id placement time h = ground arith

replay_along :
    (codec : Codec) (r : DetailedAllocation) (required limit : ℕ) {name : Text}
    {parameters : CreateParameters}
    → r.create_volume_request_name ≡ name
    → r.normalized_create_parameters ≡ parameters
    → validate_create_replay codec r r.create_volume_request_name required limit
        r.normalized_create_parameters
      ≡ ok tt
    → validate_create_replay codec r name required limit parameters ≡ ok tt
replay_along codec r required limit name parameters replay = cc

-- A new reserved record holds its capacity and accepts a replay of the request that made it, with
-- every capacity range that holds the selected capacity.
pub new_reserved_record-replay :
    (controller : Controller) (request : CreateRequest) (selected required limit : ℕ)
    (logical_id : Text) (placement : Placement) (time : Text) {r : DetailedAllocation}
    → new_reserved_record controller request selected logical_id placement time ≡ ok r
    → capacity_compatible selected required limit ≡ true
    → (validate_create_replay controller.sealer.codec r request.name required limit
          request.parameters
        ≡ ok tt)
      × (r.state ≡ reserved)
      × (r.reserves_capacity ≡ true)
new_reserved_record-replay controller request selected required limit logical_id placement time {r}
      made range =
    let (valid, name, parameters, capacity, state, holds) =
      new-record controller request selected logical_id placement time made in
    let replay =
      own_request-replay controller.sealer.codec r required limit valid (rw capacity range) in
    (replay_along controller.sealer.codec r required limit name parameters replay, state, holds)
