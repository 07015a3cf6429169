-- ===== src/Driver/World.antt =====
-- What the controllers perform on: the two durable records of one logical volume and the directory
-- operations on its data. The Kubernetes client, the parent filesystem, the clock and the generator of
-- operation IDs answer each call; their answers are a parameter of the model.
use scaleway_file_storage_su.Prelude.{ℕ, Bool, List, Option}
use scaleway_file_storage_su.Prelude.Texts.{Text}
use scaleway_file_storage_su.Volume.OwnershipRecords.{OwnershipRecord}
use scaleway_file_storage_su.Volume.Records.{DetailedAllocation, AllocationRecord}
use scaleway_file_storage_su.Volume.Ownership.{Sealer}
use scaleway_file_storage_su.Driver.Errors.{DriverError}

-- k8s.StoredAllocation: a decoded record at a resource version.
pub record Stored : Type 0 where
  pub version : ℕ
  pub value : AllocationRecord

-- One whose record is detailed, as after the type assertion of the source.
pub record StoredDetailed : Type 0 where
  pub version : ℕ
  pub allocation : DetailedAllocation

-- The directory operations of DataLifecycle with their paths.
pub data DirectoryAction : Type 0 where
  archive_directory : (base_path directory_name archived_path : Text) → DirectoryAction
  quarantine_directory : (base_path directory_name quarantine_path : Text) → DirectoryAction
  remove_directory : (base_path quarantine_path : Text) → DirectoryAction
  sync_deleted_directory : (base_path : Text) → DirectoryAction

-- A directory operation with the durable records that stood when it was called.
pub record Effect : Type 0 where
  pub action : DirectoryAction
  pub durable_allocation : Option Stored
  pub durable_ownership : Option OwnershipRecord

-- The newest effect is first, and `calls` counts the calls to the outside.
pub record World : Type 0 where
  pub allocation : Option Stored
  pub ownership : Option OwnershipRecord
  pub effects : List Effect
  pub calls : ℕ

-- A call is answered, refused without an effect, or its effect stands and the answer is lost.
pub data Reply : Type 0 where
  answered : Reply
  refused lost : DriverError → Reply

-- The answer to one call: its outcome and the value that a successful call returns. `word` is the
-- time of a clock, a new operation ID or the reason of an absence, and `yes` answers a question.
pub record Answer : Type 0 where
  pub reply : Reply
  pub word : Text
  pub yes : Bool
  pub recovered : Option AllocationRecord

-- A controller with its surroundings: the checksums of ownership records, their durable encoding, the
-- answer to every call, and the installation that the controller runs for.
pub record Controller : Type 0 where
  pub sealer : Sealer
  pub encode : OwnershipRecord → Text
  pub answer : ℕ → Answer
  pub driver_name : Text
  pub installation_id : Text
  pub cluster_uid : Text
