-- ===== src/Jobs/Iam/KubeFed/Laws.antt =====
-- What the removal of the federation has removed.
use ks_upgrade.Base.{
  String, ◌≡◌, refl, ap, ◌∙◌, ◌⊎◌, inl, inr, true, if◌then◌else◌, List, [], ◌∷◌, Error, Result, ok,
  err, is_not_found,
}
use ks_upgrade.Base.Action.{pure, raise, ◌>>=◌, attempt, bind-eq-ok}
use ks_upgrade.Base.Loops.{each, Ran, each-ok}
use ks_upgrade.Jobs.Iam.Cluster.{Client, Crd, CrdClient, delete_object_with_finalizer}
use ks_upgrade.Jobs.Iam.Cluster.Laws.{ignored-ok}
use ks_upgrade.Jobs.Iam.KubeFed.{KubeFed, delete_stored, delete_found_crd, delete_kube_fed_crd}

module _ {W Obj : Type 0} (fed : KubeFed W Obj) (client : Client W Obj) (crds : CrdClient W) where
  -- The objects of the first stored version of a definition were listed and all deleted, and then
  -- the definition was deleted, or was found to be gone.
  abbrev pub CrdDeleted : Crd → W → W → Type 0
  CrdDeleted crd u w =
      (version : String) × (versions : List String) × (items : List Obj) × (v v' : W)
      × (crd.stored_versions ≡ version ∷ versions)
      × (fed.list crd.group version crd.list_kind u ≡ (ok items, v))
      × Ran (delete_object_with_finalizer client) items v v'
      × ((crds.delete_crd crd v' ≡ (ok tt, w))
          ⊎ ((e : Error) × (crds.delete_crd crd v' ≡ (err e, w)) × (is_not_found e ≡ true)))

  delete_found_crd-ok :
      (crd : Crd) (u w : W)
      → delete_found_crd fed client crds crd u ≡ (ok tt, w)
      → CrdDeleted crd u w
  unfolding delete_found_crd delete_stored
  delete_found_crd-ok crd u w h = go crd.stored_versions refl h
    where
      go :
          (stored : List String)
          → crd.stored_versions ≡ stored
          → delete_stored fed client crds crd stored u ≡ (ok tt, w)
          → CrdDeleted crd u w
      go [] e h = cc
      go (version ∷ versions) e h =
          let (items, v, listed, h1) =
            bind-eq-ok (fed.list crd.group version crd.list_kind)
              (λ items. each (delete_object_with_finalizer client) items >>= λ _.
                attempt (crds.delete_crd crd) pure
                  (λ e. if is_not_found e then pure tt else raise e))
              h in
          let (x, v', deleted, h2) =
            bind-eq-ok (each (delete_object_with_finalizer client) items)
              (λ _.
                attempt (crds.delete_crd crd) pure
                  (λ e. if is_not_found e then pure tt else raise e))
              h1 in
          (
            version,
            versions,
            items,
            v,
            v',
            e,
            listed,
            each-ok (delete_object_with_finalizer client) items v v' deleted,
            elim (ignored-ok (crds.delete_crd crd) pure v' w h2) [
              | inr gone ↦ inr gone
              | inl (y, v'', done, same) ↦
                  inl (done ∙ ap (λ (p : Result (Unit {0}) × W). (ok tt, p.1)) same)
            ],
          )

  -- If the removal of a federated resource succeeds, its definition was not found; or it was
  -- found with a stored version, all objects of the first one were deleted, and then the
  -- definition was deleted, or was found to be gone.
  pub delete_kube_fed_crd-ok :
      (name : String) (u w : W)
      → delete_kube_fed_crd fed client crds name u ≡ (ok tt, w)
      → ((e : Error) × (crds.get_crd name u ≡ (err e, w)) × (is_not_found e ≡ true))
        ⊎ ((crd : Crd) × (v : W) × (crds.get_crd name u ≡ (ok crd, v)) × CrdDeleted crd v w)
  unfolding delete_kube_fed_crd
  delete_kube_fed_crd-ok name u w h =
      elim (ignored-ok (crds.get_crd name) (delete_found_crd fed client crds) u w h) [
        | inr missing ↦ inl missing
        | inl (crd, v, found, rest) ↦ inr (crd, v, found, delete_found_crd-ok crd v w rest)
      ]
