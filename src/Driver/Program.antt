-- ===== src/Driver/Program.antt =====
-- A method of a controller: it runs on a world and returns the next world with a value or an error.
pub mod Rules
use scaleway_file_storage_su.Prelude.{ℕ, ◌+◌, Bool, true, false}
use scaleway_file_storage_su.Prelude.Results.{Result, ok, err}
use scaleway_file_storage_su.Volume.Errors.{VolumeError}
use scaleway_file_storage_su.Driver.Errors.{DriverError, volume_error}
use scaleway_file_storage_su.Driver.World.{World}

abbrev pub Program {ℓ} : Type ℓ → Type ℓ
Program A = World → World × Result DriverError A

unfoldable pub proceed {ℓ κ} :
    {A : Type ℓ} {B : Type κ}
    → World × Result DriverError A
    → (A → Program B)
    → World × Result DriverError B
proceed (w, ok a) rest = rest a w
proceed (w, err e) rest = (w, err e)

-- The rest of a block runs on the value and on the world so far, and an error ends it.
infixl 5 ◌>>=◌ ◌>>◌
abbrev pub ◌>>=◌ {ℓ κ} : {A : Type ℓ} {B : Type κ} → Program A → (A → Program B) → Program B
(first >>= rest) w = proceed (first w) rest

abbrev pub ◌>>◌ {κ} : {B : Type κ} → Program (Unit {0}) → Program B → Program B
first >> rest = first >>= λ done. rest

abbrev pub done {ℓ} : {A : Type ℓ} → A → Program A
done a w = (w, ok a)

abbrev pub fail {ℓ} : {A : Type ℓ} → DriverError → Program A
fail e w = (w, err e)

-- `if test { return err }`
unfoldable pub refuse_if : Bool → DriverError → Program (Unit {0})
refuse_if true e = fail e
refuse_if false e = done tt

-- A call of pkg/volume, whose error is passed on.
unfoldable pub lift {ℓ} : {A : Type ℓ} → Result VolumeError A → Program A
lift (ok a) = done a
lift (err e) = fail (volume_error e)
