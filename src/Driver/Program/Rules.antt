-- ===== src/Driver/Program/Rules.antt =====
-- Rules for what holds before and after a method.
use scaleway_file_storage_su.Prelude.{if◌then◌else◌, Bool, true, false, ◌≡◌, refl}
use scaleway_file_storage_su.Prelude.Results.{Result, ok, err}
use scaleway_file_storage_su.Volume.Errors.{VolumeError}
use scaleway_file_storage_su.Driver.Errors.{DriverError}
use scaleway_file_storage_su.Driver.World.{World}
use scaleway_file_storage_su.Driver.Program.{Program, proceed, refuse_if, lift, done, fail}

-- The outcome of a method: `good` of a value and its world, `bad` of the world that an error leaves.
unfoldable pub Outcome {ℓ} :
    {A : Type ℓ} (good : A → World → Type 0) (bad : World → Type 0)
    → World × Result DriverError A
    → Type 0
Outcome good bad (w, ok a) = good a w
Outcome good bad (w, err e) = bad w

-- From the two possible results of a method.
pub Outcome-intro {ℓ} :
    {A : Type ℓ} (good : A → World → Type 0) (bad : World → Type 0)
    (r : World × Result DriverError A)
    → ((a : A) (w : World) → r ≡ (w, ok a) → good a w)
    → ((e : DriverError) (w : World) → r ≡ (w, err e) → bad w)
    → Outcome good bad r
unfolding Outcome
Outcome-intro good bad (w, ok a) g b = g a w refl
Outcome-intro good bad (w, err e) g b = b e w refl

pub Outcome-done {ℓ} :
    {A : Type ℓ} (good : A → World → Type 0) (bad : World → Type 0) (a : A) (w : World)
    → good a w
    → Outcome good bad (done a w)
unfolding Outcome
Outcome-done good bad a w h = h

pub Outcome-fail {ℓ} :
    {A : Type ℓ} (good : A → World → Type 0) (bad : World → Type 0) (e : DriverError) (w : World)
    → bad w
    → Outcome good bad (fail e w)
unfolding Outcome
Outcome-fail good bad e w h = h

pub check-Outcome :
    (good : Unit {0} → World → Type 0) (bad : World → Type 0) (test : Bool) (e : DriverError)
    (w : World)
    → good tt w
    → bad w
    → Outcome good bad (refuse_if test e w)
unfolding Outcome refuse_if
check-Outcome good bad true e w g b = b
check-Outcome good bad false e w g b = g

pub give-Outcome {ℓ} :
    {A : Type ℓ} (good : A → World → Type 0) (bad : World → Type 0) (r : Result VolumeError A)
    (w : World)
    → ((a : A) → good a w)
    → bad w
    → Outcome good bad (lift r w)
unfolding Outcome lift
give-Outcome good bad (ok a) w g b = g a
give-Outcome good bad (err e) w g b = b

pub proceed-Outcome {ℓ κ} :
    {A : Type ℓ} {B : Type κ} (before : A → World → Type 0) (good : B → World → Type 0)
    (bad : World → Type 0) (r : World × Result DriverError A) (rest : A → Program B)
    → Outcome before bad r
    → ((a : A) (w : World) → before a w → Outcome good bad (rest a w))
    → Outcome good bad (proceed r rest)
unfolding proceed Outcome
proceed-Outcome before good bad (w, ok a) rest h k = k a w h
proceed-Outcome before good bad (w, err e) rest h k = h

module _ {κ} {B : Type κ} (good : B → World → Type 0) (bad : World → Type 0) (w : World) where
  pub lift-Outcome {ℓ} :
      {A : Type ℓ} (r : Result VolumeError A) (rest : A → Program B)
      → bad w
      → ((a : A) → r ≡ ok a → Outcome good bad (rest a w))
      → Outcome good bad (proceed (lift r w) rest)
  unfolding proceed Outcome lift
  lift-Outcome (ok a) rest b k = k a refl
  lift-Outcome (err e) rest b k = b

  pub refuse_if-Outcome :
      (test : Bool) (e : DriverError) (rest : Unit {0} → Program B)
      → bad w
      → (test ≡ false → Outcome good bad (rest tt w))
      → Outcome good bad (proceed (refuse_if test e w) rest)
  unfolding proceed Outcome refuse_if
  refuse_if-Outcome true e rest b k = b
  refuse_if-Outcome false e rest b k = k refl

  pub if-Outcome :
      (test : Bool) (left right : Program B)
      → (test ≡ true → Outcome good bad (left w))
      → (test ≡ false → Outcome good bad (right w))
      → Outcome good bad ((if test then left else right) w)
  if-Outcome true left right l r = l refl
  if-Outcome false left right l r = r refl
