-- ===== src/Executor/Museum.antt =====
-- `validateExtensionsMuseum` and `waitForRepositorySync` of pkg/executor/validator.go. A repository
-- is its last sync time, if it has one. Times and durations are in nanoseconds.
pub mod Laws
use ks_upgrade.Base.{
  String, ◌<>◌, ℤ, pos, ◌-ℤ◌, eq_int, lt_int, le_int, Bool, true, false, if◌then◌else◌, List, [],
  ◌∷◌, Option, none, some, Error, message, described, Result, ok, err, panic, ◌||◌, not,
}
use ks_upgrade.Base.Action.{Action}
use ks_upgrade.Config.{ExtensionsMuseumConfig}
use ks_upgrade.Executor.Validation.{Verdict}

-- What a round of the `select` receives.
pub data Event : Type 0 where
  -- the context is done: its deadline passed, or it was cancelled with an error
  deadline_exceeded : Event
  cancelled : Error → Event
  -- the channel of the watch is closed
  closed : Event
  -- a repository with its last sync time, read at a time of the clock
  repository : Option ℤ → ℤ → Event
  -- an event with another object
  other_object : Event

-- `time.Since(last) <= interval`, at the time `now`.
abbrev pub within : ℤ → ℤ → ℤ → Bool
within interval now last = le_int (now -ℤ last) interval

-- Whether an event shows a repository that is synced as the configuration demands.
unfoldable pub is_synced : ℤ → Option ℤ → ℤ → Bool
is_synced interval none now = false
is_synced interval (some last) now =
    if eq_int interval (pos 0) then true else within interval now last

-- The loop, over the events that arrive. `none`: they end, and the loop still waits.
unfoldable pub wait_loop : ℤ → List Event → Option Verdict
wait_loop interval [] = none
wait_loop interval (deadline_exceeded ∷ events) =
    some (false, some (message "watch timeout waiting for repository sync"))
wait_loop interval (cancelled e ∷ events) = some (false, some e)
wait_loop interval (closed ∷ events) = some (false, some (message "watch channel closed"))
wait_loop interval (repository last now ∷ events) =
    let rest = wait_loop interval events in
    if is_synced interval last now then some (true, none) else rest
wait_loop interval (other_object ∷ events) = wait_loop interval events

-- `get` reads the repository, `watch` starts the watch and gives the events that will arrive, and
-- `now` reads the clock.
module _ {W : Type 0} (get : String → String → Action W (Option ℤ))
    (watch : String → String → Action W (List Event)) (now : W → ℤ) where
  unfoldable pub started : ℤ → Result (List Event) → Option Verdict
  unfolding wait_loop
  started interval (ok events) = wait_loop interval events
  started interval (err e) = some (false, some (described "failed to watch repository" e))
  started interval panic = none

  -- `waitForRepositorySync`
  unfoldable pub wait_for_repository_sync : ExtensionsMuseumConfig → W → Option Verdict × W
  unfolding started
  wait_for_repository_sync c w =
      let (r, w') = watch c.namespace c.name w in (started c.sync_interval r, w')

  unfoldable pub judged : ExtensionsMuseumConfig → Result (Option ℤ) → W → Option Verdict × W
  unfolding wait_for_repository_sync
  judged c (err e) w = (some (false, some e), w)
  judged c panic w = (none, w)
  judged c (ok none) w = wait_for_repository_sync c w
  judged c (ok (some last)) w =
      if eq_int c.sync_interval (pos 0)
      then (some (true, none), w)
      else if lt_int c.sync_interval (now w -ℤ last)
      then wait_for_repository_sync c w
      else (some (true, none), w)

  -- `validateExtensionsMuseum`. `none`: it does not return.
  unfoldable pub validate_extensions_museum : ExtensionsMuseumConfig → W → Option Verdict × W
  unfolding judged
  validate_extensions_museum c w =
      if not c.enabled
      then (some (true, none), w)
      else (let (r, w') = get c.name c.namespace w in judged c r w')
