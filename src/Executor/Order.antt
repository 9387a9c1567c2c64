-- ===== src/Executor/Order.antt =====
-- The order of the jobs: `sort.SliceStable` in `NewExecutor`, by priority and then by name.
pub mod Laws
use mathlib.Core.List.{Permᴰ}
use ks_upgrade.Base.{
  String, ℤ, lt_int, eq_int, eq_int→eq, Bool, true, false, if◌then◌else◌, List, [], ◌∷◌, ◌≡◌, refl,
  ◌∙◌, ap, ◌≢◌, ◌⊎◌, inl, inr, Bool-cases, arith, All, DistinctBy, has_key, eq_iff, ◌==◌,
}
use ks_upgrade.Base.Text.{text_lt, text_lt_asymm, text_lt_cotrans, text_lt_connected}
use ks_upgrade.Executor.Job.{NamedUpgradeJob}

module _ {W : Type 0} where
  -- The comparison that is passed to `sort.SliceStable`.
  unfoldable pub runs_before : NamedUpgradeJob W → NamedUpgradeJob W → Bool
  runs_before job1 job2 =
      if eq_int job1.priority job2.priority
      then text_lt job1.name job2.name
      else lt_int job2.priority job1.priority

  -- A stable sort: a job goes behind the jobs that run before it, and before its equals.
  unfoldable pub place : NamedUpgradeJob W → List (NamedUpgradeJob W) → List (NamedUpgradeJob W)
  place job [] = job ∷ []
  place job (x ∷ xs) = if runs_before x job then x ∷ place job xs else job ∷ x ∷ xs

  unfoldable pub sort_jobs : List (NamedUpgradeJob W) → List (NamedUpgradeJob W)
  unfolding place
  sort_jobs [] = []
  sort_jobs (x ∷ xs) = place x (sort_jobs xs)
