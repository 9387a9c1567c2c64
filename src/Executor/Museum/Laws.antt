-- ===== src/Executor/Museum/Laws.antt =====
-- The museum validator lets a phase start only for a repository that is synced, and gives an error
-- in every other case.
use ks_upgrade.Base.{
  message, All, arith, ◌∙◌, String, ℤ, pos, ◌-ℤ◌, eq_int, lt_int, Bool, true, false, List, [], ◌∷◌,
  ◌++◌, Option, none, some, Error, Result, ok, err, panic, ◌≡◌, refl, subst, ap, some-eq, eq_int→eq,
  ◌⊎◌, inl, inr, Bool-cases,
}
use ks_upgrade.Base.Action.{Action}
use ks_upgrade.Config.{ExtensionsMuseumConfig}
use ks_upgrade.Executor.Validation.{Verdict}
use ks_upgrade.Executor.Museum.{
  Event, deadline_exceeded, cancelled, closed, repository, other_object, within, is_synced,
  wait_loop, validate_extensions_museum, wait_for_repository_sync, judged, started,
}

-- The repository was synced at a time that is recent enough, where the interval 0 asks for no more
-- than a time.
abbrev pub Fresh : ℤ → ℤ → ℤ → Type 0
Fresh interval now last = (interval ≡ pos 0) ⊎ (within interval now last ≡ true)

-- An event after which the loop returns, whatever the repository.
abbrev pub ends_wait : Event → Bool
ends_wait deadline_exceeded = true
ends_wait (cancelled e) = true
ends_wait closed = true
ends_wait (repository last now) = false
ends_wait other_object = false

-- Some event of the list shows a repository that is fresh when it is read, and no event before it
-- ends the wait.
pub data Shown (interval : ℤ) : List Event → Type 0 where
  here :
      {last now : ℤ} {events : List Event}
      → Fresh interval now last
      → Shown interval (repository (some last) now ∷ events)
  later :
      {e : Event} {events : List Event}
      → ends_wait e ≡ false
      → Shown interval events
      → Shown interval (e ∷ events)

-- The two forms of a verdict: valid for a reason, or an error.
pub data Judged (Reason : Type 0) : Verdict → Type 0 where
  accepted : Reason → Judged Reason (true, none)
  refused : (e : Error) → Judged Reason (false, some e)

Judged-map : {A B : Type 0} {v : Verdict} → (A → B) → Judged A v → Judged B v
Judged-map f (accepted a) = accepted (f a)
Judged-map f (refused e) = refused e

is_synced→Fresh :
    (interval last now : ℤ) → is_synced interval (some last) now ≡ true → Fresh interval now last
unfolding is_synced
is_synced→Fresh interval last now h = elim (Bool-cases (eq_int interval (pos 0))) [
  | inl zero_interval ↦ inl (eq_int→eq interval (pos 0) zero_interval)
  | inr other ↦ inr (rw other at h)
]

settled : {A : Type 0} {v w : Verdict} → some v ≡ some w → Judged A v → Judged A w
settled {A} h j = subst (Judged A) (some-eq h) j

wait_loop_sound :
    (interval : ℤ) (events : List Event) (v : Verdict)
    → wait_loop interval events ≡ some v
    → Judged (Shown interval events) v
unfolding wait_loop
wait_loop_sound interval [] v h = cc
wait_loop_sound interval (deadline_exceeded ∷ events) v h = settled h (refused _)
wait_loop_sound interval (cancelled e ∷ events) v h = settled h (refused e)
wait_loop_sound interval (closed ∷ events) v h = settled h (refused _)
wait_loop_sound interval (other_object ∷ events) v h =
    Judged-map (later refl) (wait_loop_sound interval events v h)
wait_loop_sound interval (repository none now ∷ events) v h =
    Judged-map (later refl) (wait_loop_sound interval events v (unfold is_synced in h))
wait_loop_sound interval (repository (some last) now ∷ events) v h =
    elim (Bool-cases (is_synced interval (some last) now)) [
      | inl synced ↦
          settled (rw synced at h) (accepted (here (is_synced→Fresh interval last now synced)))
      | inr old ↦ Judged-map (later refl) (wait_loop_sound interval events v (rw old at h))
    ]

-- An event that settles the wait, with its verdict.
pub data Settles (interval : ℤ) : Event → Verdict → Type 0 where
  shows_fresh :
      {last now : ℤ}
      → Fresh interval now last
      → Settles interval (repository (some last) now) (true, none)
  times_out :
      Settles interval deadline_exceeded
        (false, some (message "watch timeout waiting for repository sync"))
  is_cancelled : (e : Error) → Settles interval (cancelled e) (false, some e)
  is_closed : Settles interval closed (false, some (message "watch channel closed"))

-- An event that does not: another object, or a repository that was never synced or is not fresh.
pub data Passes (interval : ℤ) : Event → Type 0 where
  shows_other : Passes interval other_object
  shows_unsynced : {now : ℤ} → Passes interval (repository none now)
  shows_old :
      {last now : ℤ} → ¬ (Fresh interval now last) → Passes interval (repository (some last) now)

Fresh→is_synced :
    (interval last now : ℤ) → Fresh interval now last → is_synced interval (some last) now ≡ true
unfolding is_synced
Fresh→is_synced interval last now (inl zero_interval) = rw (zero_interval) (ground arith)
Fresh→is_synced interval last now (inr recent) = ground arith

settled_by :
    (interval : ℤ) (after : List Event) (e : Event) (v : Verdict)
    → Settles interval e v
    → wait_loop interval (e ∷ after) ≡ some v
unfolding wait_loop
settled_by interval after (repository (some last) now) v (shows_fresh fresh) =
    rw (Fresh→is_synced interval last now fresh) refl
settled_by interval after (repository none now) v settles = elim settles [ ]
settled_by interval after other_object v settles = elim settles [ ]
settled_by interval after deadline_exceeded v times_out = refl
settled_by interval after (cancelled e) v (is_cancelled _) = refl
settled_by interval after closed v is_closed = refl

passed_by :
    (interval : ℤ) (events : List Event) (e : Event)
    → Passes interval e
    → wait_loop interval (e ∷ events) ≡ wait_loop interval events
unfolding wait_loop is_synced
passed_by interval events deadline_exceeded passes = elim passes [ ]
passed_by interval events (cancelled e) passes = elim passes [ ]
passed_by interval events closed passes = elim passes [ ]
passed_by interval events other_object shows_other = refl
passed_by interval events (repository none now) shows_unsynced = refl
passed_by interval events (repository (some last) now) (shows_old old) =
    elim (Bool-cases (is_synced interval (some last) now)) [
      | inl synced ↦ absurd (old (is_synced→Fresh interval last now synced))
      | inr unsynced ↦ rw (unsynced) refl
    ]

-- The loop returns at the first event that settles the wait, with the verdict of that event: that a
-- repository is valid if it is fresh, and else an error that says what ended the wait. Where no event
-- settles it, the loop does not return.
pub wait_loop_returns :
    (interval : ℤ) (before : List Event)
    → All (Passes interval) before
    → (wait_loop interval before ≡ none)
      × ((after : List Event) (e : Event) (v : Verdict)
          → Settles interval e v
          → wait_loop interval (before ++ e ∷ after) ≡ some v)
wait_loop_returns interval [] passed =
    (unfold wait_loop in refl, λ after e v settles. settled_by interval after e v settles)
wait_loop_returns interval (x ∷ before) passed =
    let (waits, returns) = wait_loop_returns interval before passed.1 in
    (
      passed_by interval before x passed.0 ∙ waits,
      λ after e v settles.
          passed_by interval (before ++ e ∷ after) x passed.0 ∙ returns after e v settles,
    )

module _ {W : Type 0} (get : String → String → Action W (Option ℤ))
    (watch : String → String → Action W (List Event)) (now : W → ℤ) where
  -- Why a verdict is valid: the validator is off, the repository that was read is fresh, or an
  -- event of the watch that was started behind that read showed a fresh one.
  pub data Accepted (c : ExtensionsMuseumConfig) (u : W) : Type 0 where
    is_off : c.enabled ≡ false → Accepted c u
    was_fresh :
        (last : ℤ) (w : W)
        → get c.name c.namespace u ≡ (ok (some last), w)
        → (c.sync_interval ≡ pos 0) ⊎ (lt_int c.sync_interval (now w -ℤ last) ≡ false)
        → Accepted c u
    was_shown :
        (last : Option ℤ) (events : List Event) (v w : W)
        → get c.name c.namespace u ≡ (ok last, v)
        → watch c.namespace c.name v ≡ (ok events, w)
        → Shown c.sync_interval events
        → Accepted c u

  wait_for_sound :
      (c : ExtensionsMuseumConfig) (u v w : W) (last : Option ℤ) (verdict : Verdict)
      → get c.name c.namespace u ≡ (ok last, v)
      → wait_for_repository_sync get watch now c v ≡ (some verdict, w)
      → Judged (Accepted c u) verdict
  unfolding wait_for_repository_sync
  wait_for_sound c u v w last verdict got h = go (watch c.namespace c.name v) refl h
    where
      go :
          (a : Result (List Event) × W)
          → watch c.namespace c.name v ≡ a
          → ◌≡◌ {A = Option Verdict × W}
              (started get watch now c.sync_interval a.0, a.1)
              (some verdict, w)
          → Judged (Accepted c u) verdict
      go (ok events, x) e k =
          Judged-map (was_shown last events v x got e) (
            wait_loop_sound c.sync_interval events verdict (ap (λ (p : Option Verdict × W). p.0) k))
      go (err e', x) e k = settled (ap (λ (p : Option Verdict × W). p.0) k) (refused _)
      go (panic, x) e k = cc

  -- When the museum validator returns, either it is valid, for one of the reasons above, or it
  -- gives an error: it never has a phase left out without one.
  pub validate_extensions_museum_sound :
      (c : ExtensionsMuseumConfig) (u w : W) (verdict : Verdict)
      → validate_extensions_museum get watch now c u ≡ (some verdict, w)
      → Judged (Accepted c u) verdict
  unfolding validate_extensions_museum
  validate_extensions_museum_sound c u w verdict h = elim (Bool-cases c.enabled) [
    | inr off ↦ settled (ap (λ (p : Option Verdict × W). p.0) (rw off at h)) (accepted (is_off off))
    | inl on ↦ go (get c.name c.namespace u) refl (rw on at h)
  ]
    where
      go :
          (a : Result (Option ℤ) × W)
          → get c.name c.namespace u ≡ a
          → judged get watch now c a.0 a.1 ≡ (some verdict, w)
          → Judged (Accepted c u) verdict
      go (err e', x) e k = settled (ap (λ (p : Option Verdict × W). p.0) k) (refused e')
      go (panic, x) e k = cc
      go (ok none, x) e k = wait_for_sound c u x w none verdict e k
      go (ok (some last), x) e k = elim (Bool-cases (eq_int c.sync_interval (pos 0))) [
        | inl zero_interval ↦
            settled (ap (λ (p : Option Verdict × W). p.0) (rw (zero_interval, judged) at k)) (
              accepted (was_fresh last x e (inl (eq_int→eq c.sync_interval (pos 0) zero_interval))))
        | inr other ↦ elim (Bool-cases (lt_int c.sync_interval (now x -ℤ last))) [
          | inl old ↦
              wait_for_sound c u x w (some last) verdict e (rw old at (rw (other, judged) at k))
          | inr fresh ↦
              settled (ap (λ (p : Option Verdict × W). p.0) (rw fresh at (rw (other, judged) at k)))
                (accepted (was_fresh last x e (inr fresh)))
        ]
      ]
