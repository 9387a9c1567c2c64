-- ===== src/Jobs/Iam/Cluster/Laws.antt =====
-- What a migration and a deletion of an object that succeeded have done.
use ks_upgrade.Base.{
  ◌≡◌, refl, ap, ◌∙◌, ◌⊎◌, inl, inr, true, Bool-cases, if◌then◌else◌, Error, Result, ok, err, panic,
  is_not_found, Result-view, is_ok, is_err, is_panic,
}
use ks_upgrade.Base.Action.{Action, pure, raise, lift, ◌>>=◌, continue, on_result, attempt}
use ks_upgrade.Jobs.Iam.Cluster.{
  Client, is_namespace_terminating, is_create_failure, create_upgraded, object_migration,
  delete_object_with_finalizer,
}

-- A step whose error is passed over if it says that nothing was found.
pub ignored-ok :
    {W A : Type 0} (m : Action W A) (f : A → Action W (Unit {0})) (u w : W)
    → attempt m f (λ e. if is_not_found e then pure tt else raise e) u ≡ (ok tt, w)
    → ((x : A) × (v : W) × (m u ≡ (ok x, v)) × (f x v ≡ (ok tt, w)))
      ⊎ ((e : Error) × (m u ≡ (err e, w)) × (is_not_found e ≡ true))
ignored-ok {W} {A} m f u w h = go (m u) refl h
  where
    go :
        (a : Result A × W)
        → m u ≡ a
        → on_result a.0 f (λ e. if is_not_found e then pure tt else raise e) a.1 ≡ (ok tt, w)
        → ((x : A) × (v : W) × (m u ≡ (ok x, v)) × (f x v ≡ (ok tt, w)))
          ⊎ ((e : Error) × (m u ≡ (err e, w)) × (is_not_found e ≡ true))
    go (ok x, v) e h = inl (x, v, e, h)
    go (err f, v) e h = elim (Bool-cases (is_not_found f)) [
      | inl missing ↦
          let k = rw (missing) at h in
          inr (f, e ∙ ap (λ (p : Result (Unit {0}) × W). (err f, p.1)) k, missing)
      | inr other ↦ let k = rw (other) at h in cc
    ]
    go (panic, v) e h = cc

module _ {W Obj : Type 0} (client : Client W Obj) where
  -- The object was not there and was created, or the answer to its creation was that its
  -- namespace is going away.
  abbrev pub Created : Obj → W → W → Type 0
  Created upgraded u w =
      (e : Error) × (v : W) × (client.get upgraded u ≡ (err e, v))
      × (is_not_found e ≡ true)
      × ((client.create upgraded v ≡ (ok tt, w))
          ⊎ ((f : Error) × (client.create upgraded v ≡ (err f, w))
              × (is_not_found f ≡ true)
              × (is_namespace_terminating f ≡ ok true)))

  abbrev pub Updated : Obj → W → W → Type 0
  Updated upgraded u w =
      (old : Obj) × (v : W) × (client.get upgraded u ≡ (ok old, v))
      × (client.update upgraded v ≡ (ok tt, w))

  create_upgraded-ok :
      (upgraded : Obj) (v w : W)
      → create_upgraded client upgraded v ≡ (ok tt, w)
      → (client.create upgraded v ≡ (ok tt, w))
        ⊎ ((f : Error) × (client.create upgraded v ≡ (err f, w))
            × (is_not_found f ≡ true)
            × (is_namespace_terminating f ≡ ok true))
  unfolding create_upgraded is_create_failure
  create_upgraded-ok upgraded v w h = go (client.create upgraded v) refl h
    where
      passed :
          (f : Error) (v : W)
          → ◌≡◌ {A = Result (Unit {0}) × W}
              (continue (is_create_failure f) (λ failure. if failure then raise f else pure tt) v)
              (ok tt, w)
          → (is_not_found f ≡ true) × (is_namespace_terminating f ≡ ok true) × (v ≡ w)
      passed f v h = elim (Bool-cases (is_not_found f)) [
        | inr other ↦ let k = rw (other) at h in cc
        | inl missing ↦ elim (Result-view (is_namespace_terminating f)) [
          | is_err e t ↦ let k = rw (missing, is_create_failure, t) at h in cc
          | is_panic t ↦ let k = rw (missing, is_create_failure, t) at h in cc
          | is_ok b t ↦ elim (Bool-cases b) [
            | inl terminating ↦
                let k = rw (missing, is_create_failure, t, terminating) at h in
                (missing, t ∙ ap (λ b. ok b) terminating, ap (λ (p : Result (Unit {0}) × W). p.1) k)
            | inr going_on ↦ let k = rw (missing, is_create_failure, t, going_on) at h in cc
          ]
        ]
      ]

      go :
          (a : Result (Unit {0}) × W)
          → client.create upgraded v ≡ a
          → ◌≡◌ {A = Result (Unit {0}) × W}
              (on_result a.0 pure
                (λ e.
                  lift (is_create_failure e) >>= λ failure. if failure then raise e else pure tt)
                a.1)
              (ok tt, w)
          → (client.create upgraded v ≡ (ok tt, w))
            ⊎ ((f : Error) × (client.create upgraded v ≡ (err f, w))
                × (is_not_found f ≡ true)
                × (is_namespace_terminating f ≡ ok true))
      go (ok x, v') e h = inl (e ∙ h)
      go (err f, v') e h =
          let (missing, terminating, same) = passed f v' h in
          inr (f, e ∙ ap (λ x. (err f, x)) same, missing, terminating)
      go (panic, v') e h = cc

  -- A migration that succeeds has updated the object that was there, or created it where it was
  -- not found; a creation that fails is passed over only if a namespace that is going away is
  -- the reason.
  pub object_migration-ok :
      (upgraded : Obj) (u w : W)
      → object_migration client upgraded u ≡ (ok tt, w)
      → Updated upgraded u w ⊎ Created upgraded u w
  unfolding object_migration
  object_migration-ok upgraded u w h = go (client.get upgraded u) refl h
    where
      go :
          (a : Result Obj × W)
          → client.get upgraded u ≡ a
          → on_result a.0
              (λ _. client.update upgraded)
              (λ e. if is_not_found e then create_upgraded client upgraded else raise e)
              a.1
            ≡ (ok tt, w)
          → Updated upgraded u w ⊎ Created upgraded u w
      go (ok old, v) got h = inl (old, v, got, h)
      go (err e, v) got h = elim (Bool-cases (is_not_found e)) [
        | inl missing ↦
            inr (e, v, got, missing, create_upgraded-ok upgraded v w (rw (missing) at h))
        | inr other ↦ let k = rw (other) at h in cc
      ]
      go (panic, v) got h = cc

  -- A deletion that succeeds is done: the finalizers were removed and the object was deleted, or
  -- was found to be gone at one of the two steps.
  pub delete_object_with_finalizer-ok :
      (object : Obj) (u w : W)
      → delete_object_with_finalizer client object u ≡ (ok tt, w)
      → ((e : Error) × (client.update (client.without_finalizers object) u ≡ (err e, w))
          × (is_not_found e ≡ true))
        ⊎ ((v : W) × (client.update (client.without_finalizers object) u ≡ (ok tt, v))
            × ((client.delete object v ≡ (ok tt, w))
                ⊎ ((e : Error) × (client.delete object v ≡ (err e, w)) × (is_not_found e ≡ true))))
  unfolding delete_object_with_finalizer
  delete_object_with_finalizer-ok object u w h =
      elim (ignored-ok (client.update (client.without_finalizers object))
        (λ _.
          attempt (client.delete object) pure (λ e. if is_not_found e then pure tt else raise e))
        u w h) [
          | inr (e, gone, missing) ↦ inl (e, gone, missing)
          | inl (x, v, updated, rest) ↦ inr (
            v,
            updated,
            elim (ignored-ok (client.delete object) pure v w rest) [
              | inr gone ↦ inr gone
              | inl (y, v', deleted, same) ↦
                  inl (deleted ∙ ap (λ (p : Result (Unit {0}) × W). (ok tt, p.1)) same)
            ],
          )
        ]
