-- ===== src/Base/Failure.antt =====
-- The errors that the program tells apart, and results. A nil `error` is `none`.
use Prim.Native.Nat.{ℕ}
use Prim.Native.String.{String}
use mathlib.Core.Path.{◌≡◌, refl, ap}
use mathlib.Core.Bool.{Bool, true, false}
use mathlib.Core.List.{List, [], ◌∷◌}
use mathlib.Core.Option.{Option, none, some}

-- Why the API server refused a call.
pub data Reason : Type 0 where
  not_found already_exists conflict other_reason : Reason

mutual
  pub data Error : Type 0 where
    -- a message of its own
    message : String → Error
    -- a message that prints another error, which `errors.Is` does not see
    described : String → Error → Error
    -- `fs.ErrNotExist`
    not_exist : Error
    -- `storage.BackupKeyNotFound` and `storage.BackupNotFound`
    backup_key_not_found backup_not_found : Error
    -- `driver.ErrNoDeployedReleases` and `driver.ErrReleaseNotFound`
    no_deployed_releases release_not_found : Error
    -- a `StatusError` of the API server, with the causes that its details list, if it has any
    status : Reason → Option (List String) → Error
    -- a request that the object store answered with this status and error code
    request_failure : ℕ → String → Error
    -- the API server has no such kind
    no_match : Error
    -- several errors in one
    aggregate : Errors → Error

  pub data Errors : Type 0 where
    nil : Errors
    cons : Error → Errors → Errors

-- `apierrors.IsNotFound`
abbrev pub is_not_found : Error → Bool
is_not_found (status not_found causes) = true
is_not_found _ = false

-- `apierrors.IsAlreadyExists`
abbrev pub is_already_exists : Error → Bool
is_already_exists (status already_exists causes) = true
is_already_exists _ = false

-- `errors.Is(err, driver.ErrReleaseNotFound)`
abbrev pub is_release_not_found : Error → Bool
is_release_not_found release_not_found = true
is_release_not_found _ = false

-- `metaerrors.IsNoMatchError`
abbrev pub is_no_match : Error → Bool
is_no_match no_match = true
is_no_match _ = false

-- `errors.Is(err, storage.BackupKeyNotFound)`
abbrev pub is_backup_key_not_found : Error → Bool
is_backup_key_not_found backup_key_not_found = true
is_backup_key_not_found _ = false

abbrev pub is_backup_not_found : Error → Bool
is_backup_not_found backup_not_found = true
is_backup_not_found _ = false

abbrev pub is_not_exist : Error → Bool
is_not_exist not_exist = true
is_not_exist _ = false

abbrev pub collect : List Error → Errors
collect [] = nil
collect (e ∷ es) = cons e (collect es)

-- `errors.NewAggregate`: no errors at all are no error.
abbrev pub new_aggregate : List Error → Option Error
new_aggregate [] = none
new_aggregate (e ∷ es) = some (aggregate (collect (e ∷ es)))

-- `panic` is a run-time panic, such as an index out of range or a write to a nil map.
pub data Result {ℓ} (A : Type ℓ) : Type ℓ where
  ok : A → Result A
  err : Error → Result A
  panic : Result A

-- A function whose only result is an `error`.
abbrev pub of_error : Option Error → Result (Unit {0})
of_error none = ok tt
of_error (some e) = err e

-- A result, and what goes on with its value.
abbrev pub and_then {ℓ κ} : {A : Type ℓ} {B : Type κ} → Result A → (A → Result B) → Result B
and_then (ok a) f = f a
and_then (err e) f = err e
and_then panic f = panic

-- A split on a computed result that keeps the equation.
pub data ResultView {ℓ} {A : Type ℓ} (r : Result A) : Type ℓ where
  is_ok : (a : A) → r ≡ ok a → ResultView r
  is_err : (e : Error) → r ≡ err e → ResultView r
  is_panic : r ≡ panic → ResultView r

pub Result-view {ℓ} : {A : Type ℓ} (r : Result A) → ResultView r
Result-view (ok a) = is_ok a refl
Result-view (err e) = is_err e refl
Result-view panic = is_panic refl

pub ok-injective {ℓ} : {A : Type ℓ} {a b : A} → ok a ≡ ok b → a ≡ b
ok-injective h = cc

pub and_then-ok {ℓ κ} :
    {A : Type ℓ} {B : Type κ} (r : Result A) (f : A → Result B) {b : B}
    → and_then r f ≡ ok b
    → (a : A) × (r ≡ ok a) × (f a ≡ ok b)
and_then-ok (ok a) f h = (a, refl, h)
and_then-ok (err e) f h = cc
and_then-ok panic f h = cc

pub and_then_of_ok {ℓ κ} :
    {A : Type ℓ} {B : Type κ} (r : Result A) (f : A → Result B) {a : A}
    → r ≡ ok a
    → and_then r f ≡ f a
and_then_of_ok r f h = ap (λ x. and_then x f) h
