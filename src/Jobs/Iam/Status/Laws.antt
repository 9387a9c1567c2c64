-- ===== src/Jobs/Iam/Status/Laws.antt =====
-- A phase that succeeded is not run again.
use ks_upgrade.Base.{
  String, ◌≡◌, refl, ap, sym, subst, ◌∙◌, ℤ, true, Bool-cases, inl, inr, if◌then◌else◌, none, some,
  Result, ok, err, panic, ok-injective, ◌==◌, is_backup_key_not_found,
}
use ks_upgrade.Base.Action.{
  Action, pure, raise, lift, ◌>>◌, continue, on_result, bind-eq-ok, lift-bind-ok,
}
use ks_upgrade.Storage.{Rereads, Bytes, Storage, Keeps}
use ks_upgrade.Store.{Codec, load_raw, save_raw}
use ks_upgrade.Jobs.Iam.Status.{
  UpgradeStatus, upgrade_status_success, status_key, get_upgrade_status, marshalled_or_nothing,
  set_upgrade_status, staged,
}

-- The status of a success can be written, and is then read.
abbrev pub WritesStatus : Codec UpgradeStatus → Type 0
WritesStatus json =
    (t : ℤ)
    → (raw : Bytes) × (json.marshal (record { status = upgrade_status_success; time = some t })
        ≡ ok raw)
      × (json.decode raw ≡ ok (record { status = upgrade_status_success; time = some t }))

module _ {W : Type 0} (s : Storage W) (json : Codec UpgradeStatus) (keeps : Keeps s)
    (rereads : Rereads s) (writes : WritesStatus json) where
  -- The record of a success at a stage.
  abbrev pub Recorded : String → W → Type 0
  Recorded staging w =
      (status : UpgradeStatus) × (get_upgrade_status s json staging w ≡ (ok status, w))
      × ((status.status == upgrade_status_success) ≡ true)

  get_upgrade_status-raw :
      (staging : String) (w : W) (raw : Bytes) (status : UpgradeStatus)
      → s.get (status_key staging) w ≡ (ok raw, w)
      → json.decode raw ≡ ok status
      → get_upgrade_status s json staging w ≡ (ok status, w)
  unfolding get_upgrade_status load_raw
  get_upgrade_status-raw staging w raw status got read =
      ap
        (λ (p : Result Bytes × W).
          on_result p.0 (λ raw. lift (json.decode raw))
            (λ e.
              if is_backup_key_not_found e
              then pure (record { status = ""; time = none })
              else raise e)
            p.1)
        got
      ∙ ap (λ (r : Result UpgradeStatus). (r, w)) read

  set_upgrade_status-Recorded :
      (now : W → ℤ) (staging : String) (u w : W)
      → set_upgrade_status s json now staging upgrade_status_success u ≡ (ok tt, w)
      → Recorded staging w
  unfolding set_upgrade_status save_raw marshalled_or_nothing
  set_upgrade_status-Recorded now staging u w h =
      let status : UpgradeStatus = record {
        status = upgrade_status_success;
        time = some (now u);
      } in
      let (raw, made, put) =
        lift-bind-ok (marshalled_or_nothing json status) (λ raw. s.put (status_key staging) raw)
          h in
      let (raw', marshalled, read) = writes (now u) in
      let same : ok raw' ≡ ok raw = sym (rw (marshalled, marshalled_or_nothing) refl) ∙ made in
      (
        status,
        get_upgrade_status-raw staging w raw status (keeps (status_key staging) raw u w put)
            (rw (← ok-injective same) read),
        refl,
      )

  -- A success that was read was the content of its key.
  get_upgrade_status-Recorded :
      (staging : String) (status : UpgradeStatus) (u w : W)
      → get_upgrade_status s json staging u ≡ (ok status, w)
      → (status.status == upgrade_status_success) ≡ true
      → Recorded staging w
  unfolding get_upgrade_status load_raw
  get_upgrade_status-Recorded staging status u w h success =
      go (s.get (status_key staging) u) refl h
    where
      go :
          (a : Result Bytes × W)
          → s.get (status_key staging) u ≡ a
          → ◌≡◌ {A = Result UpgradeStatus × W}
              (on_result a.0
                (λ raw. lift (json.decode raw))
                (λ e.
                  if is_backup_key_not_found e
                  then pure (record { status = ""; time = none })
                  else raise e)
                a.1)
              (ok status, w)
          → Recorded staging w
      go (ok raw, v) got h =
          let same = ap (λ (p : Result UpgradeStatus × W). p.1) h in
          let read = ap (λ (p : Result UpgradeStatus × W). p.0) h in
          (
            status,
            get_upgrade_status-raw staging w raw status
                (rereads (status_key staging) raw u w (got ∙ ap (λ x. (ok raw, x)) same)) read,
            success,
          )
      go (err e, v) got h = elim (Bool-cases (is_backup_key_not_found e)) [
        | inl missing ↦
            let k = rw (missing) at h in
            let blank : "" ≡ status.status =
              ap (λ (s : UpgradeStatus). s.status)
                (ok-injective (ap (λ (p : Result UpgradeStatus × W). p.0) k)) in
            let no =
              subst (λ (x : String). (x == upgrade_status_success) ≡ true) (sym blank) success in
            cc
        | inr other ↦ let k = rw (other) at h in cc
      ]
      go (panic, v) got h = cc

  staged-Recorded :
      (now : W → ℤ) (staging : String) (steps : Action W (Unit {0})) (u w : W)
      → staged s json now staging steps u ≡ (ok tt, w)
      → Recorded staging w
  unfolding staged
  staged-Recorded now staging steps u w h =
      let (status, v, got, h1) =
        bind-eq-ok (get_upgrade_status s json staging)
          (λ status.
            if status.status == upgrade_status_success
            then pure tt
            else steps >> set_upgrade_status s json now staging upgrade_status_success)
          h in
      elim (Bool-cases (status.status == upgrade_status_success)) [
        | inl success ↦
            let k = rw (success) at h1 in
            let same = ap (λ (p : Result (Unit {0}) × W). p.1) k in
            get_upgrade_status-Recorded staging status u w (got ∙ ap (λ x. (ok status, x)) same)
              success
        | inr other ↦
            let k = rw (other) at h1 in
            let (x, v', ran, set) =
              bind-eq-ok steps (λ _. set_upgrade_status s json now staging upgrade_status_success)
                k in
            set_upgrade_status-Recorded now staging v' w set
      ]

  -- If the storage keeps what was put and reads again what it read, and the status of a
  -- success can be written and read, a phase that ended without an error is skipped by every later run, whatever its
  -- steps are: the run succeeds, and the world is as the first run left it.
  pub staged_again :
      (now now' : W → ℤ) (staging : String) (steps steps' : Action W (Unit {0})) (u w : W)
      → staged s json now staging steps u ≡ (ok tt, w)
      → staged s json now' staging steps' w ≡ (ok tt, w)
  unfolding staged
  staged_again now now' staging steps steps' u w h =
      let (status, got, success) = staged-Recorded now staging steps u w h in
      ap
        (λ (p : Result UpgradeStatus × W).
          continue p.0
            (λ status.
              if status.status == upgrade_status_success
              then pure tt
              else steps' >> set_upgrade_status s json now' staging upgrade_status_success)
            p.1)
        got
      ∙ ap
          (λ b.
            (if b
                then pure tt
                else steps' >> set_upgrade_status s json now' staging upgrade_status_success)
              w)
          success
