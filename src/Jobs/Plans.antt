-- ===== src/Jobs/Plans.antt =====
-- What the jobs that build an install plan share (here after pkg/jobs/events/events.go).
use ks_upgrade.Base.{
  String, Bool, if◌then◌else◌, Option, none, some, Result, ok, panic, is_already_exists,
}
use ks_upgrade.Base.Action.{Action, pure, raise, attempt}
use ks_upgrade.Core.{ExtensionRef}

-- The flags of the configuration of a cluster, as `NestedBool` reads them.
abbrev pub Flags : Type 0
Flags = String → Result Bool

-- The log of the plan reads the name of the extension, also where there is none.
abbrev pub logged_extension :
    {W Raw : Type 0} → Option (ExtensionRef Raw) → Action W (ExtensionRef Raw)
logged_extension none w = (panic, w)
logged_extension (some extension) w = (ok extension, w)

-- A plan that exists is left as it is.
abbrev pub unless_exists : {W : Type 0} → Action W (Unit {0}) → Action W (Unit {0})
unless_exists create = attempt create pure (λ e. if is_already_exists e then pure tt else raise e)
