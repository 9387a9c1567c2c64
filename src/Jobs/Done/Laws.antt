-- ===== src/Jobs/Done/Laws.antt =====
-- A job that is done is not run again.
use ks_upgrade.Base.{
  String, ◌≡◌, refl, ap, ◌∙◌, inl, inr, Bool, false, Bool-cases, if◌then◌else◌, [], Result, ok,
  ok-injective, subst, is_backup_key_not_found,
}
use ks_upgrade.Base.Action.{
  Action, pure, raise, ◌>>◌, attempt, bind-eq-ok, attempt-eq-ok, bind_of_ok, attempt_of_ok,
}
use ks_upgrade.Storage.{Rereads, Bytes, Storage, Keeps}
use ks_upgrade.Store.{load_raw, save_raw}
use ks_upgrade.Jobs.Objects.{is_empty}
use ks_upgrade.Jobs.Done.{clear_done, load_done, unless_done, save_done}

module _ {W : Type 0} (s : Storage W) (keeps : Keeps s) where
  save_done-get :
      (now : W → Bytes) (key : String) (u w : W)
      → save_done s now key u ≡ (ok tt, w)
      → s.get key w ≡ (ok (now u), w)
  unfolding save_done save_raw
  save_done-get now key u w h = keeps key (now u) u w h

  unless_done-get :
      (key : String) (date : Bytes) (steps : Action W (Unit {0})) (w : W)
      → is_empty date ≡ false
      → s.get key w ≡ (ok date, w)
      → unless_done s false key steps w ≡ (ok tt, w)
  unfolding unless_done load_done load_raw clear_done
  unless_done-get key date steps w some_time got =
      bind_of_ok
        (attempt (s.get key) pure (λ e. if is_backup_key_not_found e then pure [] else raise e))
        (λ date. if is_empty date then steps else pure tt)
        (attempt_of_ok (s.get key) pure
          (λ e. if is_backup_key_not_found e then pure [] else raise e) got)
      ∙ rw (some_time) refl

  -- A recorded time was read, or the steps ran and the time was recorded behind them.
  abbrev Done : String → W → Type 0
  Done key w = (date : Bytes) × (is_empty date ≡ false) × (s.get key w ≡ (ok date, w))

  load_done-Done :
      (key : String) (date : Bytes) (u w : W)
      → Rereads s
      → is_empty date ≡ false
      → load_done s key u ≡ (ok date, w)
      → Done key w
  unfolding load_done load_raw
  load_done-Done key date u w rereads some_time h =
      elim (attempt-eq-ok (s.get key) pure
        (λ e. if is_backup_key_not_found e then pure [] else raise e) h) [
          | inl (date', v, got, k) ↦
              let same = ok-injective (ap (λ (p : Result Bytes × W). p.0) k) in
              (date, some_time, rereads key date u w (got ∙ k))
          | inr (e, v, failed, k) ↦ elim (Bool-cases (is_backup_key_not_found e)) [
            | inl missing ↦
                let k' = rw (missing) at k in
                let same = ok-injective (ap (λ (p : Result Bytes × W). p.0) k') in
                let none_there = ap is_empty same in cc
            | inr other ↦ let k' = rw (other) at k in cc
          ]
        ]

  -- If the storage keeps what was put and reads again what it read, and a time is never printed as
  -- the empty text, then behind a phase that succeeded and records its time last, a phase under
  -- the same key that is not asked to run again succeeds and changes nothing, whatever its steps
  -- would do.
  pub unless_done_again :
      Rereads s
      → (now : W → Bytes) (key : String) (rerun : Bool) (steps steps' : Action W (Unit {0}))
        (u w : W)
      → ((x : W) → is_empty (now x) ≡ false)
      → unless_done s rerun key (steps >> save_done s now key) u ≡ (ok tt, w)
      → unless_done s false key steps' w ≡ (ok tt, w)
  unfolding unless_done
  unless_done_again rereads now key rerun steps steps' u w timed h =
      let (date, v, first, rest) =
        bind-eq-ok (clear_done s rerun key >> load_done s key)
          (λ date. if is_empty date then steps >> save_done s now key else pure tt) h in
      elim (Bool-cases (is_empty date)) [
        | inl new ↦
            let k = rw (new) at rest in
            let (x, v', ran, saved) = bind-eq-ok steps (λ _. save_done s now key) k in
            unless_done-get key (now v') steps' w (timed v') (save_done-get now key v' w saved)
        | inr old ↦
            let k = ap (λ (p : Result (Unit {0}) × W). p.1) (rw (old) at rest) in
            let (x, v0, cleared, loaded) =
              bind-eq-ok (clear_done s rerun key) (λ _. load_done s key) first in
            let (date', some_time, got) = load_done-Done key date v0 v rereads old loaded in
            unless_done-get key date' steps' w some_time
              (subst (λ (y : W). s.get key y ≡ (ok date', y)) k got)
      ]
