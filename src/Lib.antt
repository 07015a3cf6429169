-- ===== src/Lib.antt =====
-- A model of the decision core of the driver that serves Kubernetes volumes as subdirectories of
-- Scaleway file systems. Paths are from the root of the repository.
--
-- The driver keeps a durable allocation record for each volume, places new volumes on the parent
-- file systems of a pool, keeps an ownership record with the data on the parent, deletes a volume by
-- steps that are written to both records before the data is touched, and admits every mutation through
-- one gate that a checkpoint can close.
--
-- * Volume models pkg/volume. Identifiers, Paths and CleanPath are identifiers.go and path.go with
--   path.Clean and path.Join; Timestamps holds the RFC 3339 checks of allocation.go; Request is
--   request.go (Normalize, CapacityCompatible, SelectCapacity, EqualCreateParameters); Handle is
--   handle.go (LogicalVolumeID, MappingHash, ParseHandle, String, RequestHash); State, Records, Validation and
--   Lifecycle are allocation.go (Reserves, the three Validate methods, validateLifecycle,
--   validatePreparedDelete, validateGCFields); OwnershipRecords and Ownership are ownership.go (the two
--   records, validatePayload, Seal, Validate); Transition is allocation_transition.go
--   (ValidateAllocationUpdate), and Transition.History chains its updates; OwnershipTransition is
--   ownership_transition.go; Pairing is pairing.go; Context and WireContext are context.go (the record,
--   Map, ValidateWireContext) with context_match.go; Replay is ValidateCreateReplay of request.go;
--   Recovery is recovery.go. Samples holds the records of the examples.
-- * Driver models the deletion of a volume, and the reservation of a new one: Reservation is
--   newReservedRecord and createResponse of pkg/driver/create.go. World holds the two durable records of one volume and the
--   directory operations so far; Program is a method that runs on a world and may fail, with its rules;
--   Stores is Create, Get and Update of pkg/k8s/allocation_store.go and the ownership store of
--   pkg/parentfs/backend.go over UpdateOwnership of pkg/safety/durable.go; Disposition is
--   pkg/driver/delete_filesystem.go with Observe of path_observer.go; Pair, Delete and DeleteVolume are
--   pkg/driver/delete.go (reconcileDeletePair and reconcileDeleteFenceUnion, prepareDelete and the
--   completions, Delete and ReconcileExistingDeletion).
-- * Pool models pkg/pool. Arithmetic, Ratio, Capacity and StatFs are accounting.go (ceilPercent,
--   floorMultiplyRatio, CalculateCapacity, CheckPhysicalSpace); Config is config.go (Validate,
--   ValidateConfigs); Selection is selection.go (Select); Refresh is refresh.go (Observe,
--   PlacementAllowed).
-- * Coordination models pkg/coordination/gate.go. Gate has one function for each critical section of
--   Acquire, BeginQuiesce, RunQuiescedReconciliation and Resume; Gate.Threads interleaves calls.
-- * Prelude has the shared types and lemmas: results for Go's error returns, byte texts for Go's
--   strings, the strings functions that the source calls, equality, and 64-bit words.
--
-- Select takes capacities as CalculateCapacity makes them and checks them against it, reads the
-- physical space by CheckPhysicalSpace and the pool by Config.Validate, which uses the validators of
-- Volume; the gate takes its request identifiers through Volume.Identifiers. The controllers of Driver
-- write through Stores, which accepts only the updates of Volume.Transition and
-- Volume.OwnershipTransition, and compare records by Volume.Pairing.
--
-- Every call of a controller to the outside takes its answer from a parameter: the call is answered,
-- refused before its effect, or its effect stands and the answer is lost. The volume lock and the gate
-- leave one controller at a time with a volume, so nothing else changes the world between its calls. A
-- directory operation is noted with the durable records that stand when it is called.
--
-- Integers are natural numbers. Where the source computes on uint64 the model reduces modulo 2^64,
-- and a theorem that needs an argument to be such an integer says so. Loops over slices are structural
-- recursion, maps used as sets are lists of keys, and Euclid's loop is recursion on accessibility.
-- Only the decimal text of a directory owner has fuel, the 20 digits that the largest uint64 has. A text is the list of its bytes. An enumeration of texts has a constructor
-- for each constant of the source and one for any other text.
--
-- SHA-256, the canonical JSON encoder and the durable encoding of ownership records are parameters of
-- the definitions that use them; what a theorem assumes of them stands in its hypotheses. Not modelled
-- are the JSON decoding of records, the labels and names of Kubernetes objects, the file operations
-- and the path conversions under pkg/safety, the parent's claim record, the garbage collection, create and publish controllers
-- except for the parts named above, ParseRatio, the locks and leases of pkg/coordination, and the
-- packages around these: Kubernetes and provider clients, mounts and tools. Nil pointers are not values
-- of the model.
pub mod Prelude
pub mod Volume
pub mod Pool
pub mod Coordination
pub mod Driver
