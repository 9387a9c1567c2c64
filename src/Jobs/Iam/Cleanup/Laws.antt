-- ===== src/Jobs/Iam/Cleanup/Laws.antt =====
-- What a removal that succeeded has removed.
use ks_upgrade.Base.{
  refl, not, Option, none, some, String, ◌<>◌, ◌≡◌, ap, ◌∙◌, Bool, if◌then◌else◌, List, [], ◌∷◌,
  Error, described, Result, ok, err, is_not_found,
}
use ks_upgrade.Base.Action.{attempt, on_result, Action, pure, raise, ◌>>=◌, bind-eq-ok}
use ks_upgrade.Base.Loops.{each, aggregated, gather, Ran, gather-ok}
use ks_upgrade.Jobs.Iam.Objects.{resource_role_base}
use ks_upgrade.Jobs.Iam.Cluster.{Client, Crd, CrdClient, delete_object_with_finalizer}
use ks_upgrade.Jobs.Iam.Cleanup.{
  delete_role_template, delete_definition, delete_crd_objects, delete_deprecated_crd,
  delete_deprecated_crds,
}

-- An answer with or without an error.
abbrev pub answered : Option Error → Result (Unit {0})
answered none = ok tt
answered (some e) = err e

-- The API server, with another answer to the deletion of a definition.
abbrev pub with_deletion :
    {W : Type 0} → CrdClient W → (Crd → W → Option Error) → (Crd → W → W) → CrdClient W
with_deletion crds answer change = record crds {
  delete_crd = λ crd w. (answered (answer crd w), change crd w);
}

module _ {W Obj : Type 0} (client : Client W Obj) where
  -- Every object of a list was deleted.
  abbrev pub AllDeleted : List Obj → W → W → Type 0
  AllDeleted = Ran (delete_object_with_finalizer client)

  -- The role templates of a resource were listed, and all of them deleted.
  abbrev pub Removed : (String → Action W (List Obj)) → String → W → W → Type 0
  Removed list resource u w =
      (items : List Obj) × (v : W) × (list resource u ≡ (ok items, v)) × AllDeleted items v w

  -- The removal of the role templates of a resource succeeds only if it deleted all of those that
  -- were listed: an error of one deletion does not end the others, and is not lost.
  pub delete_role_template-ok :
      (list : String → Action W (List Obj)) (resource : String) (u w : W)
      → delete_role_template client list resource u ≡ (ok tt, w)
      → Removed list resource u w
  unfolding delete_role_template
  delete_role_template-ok list resource u w h =
      let (items, v, listed, rest) =
        bind-eq-ok (list resource)
          (λ items.
            gather (λ o e. described "failed to delete resource" e)
              (delete_object_with_finalizer client) items
            >>= λ errors. aggregated errors)
          h in
      let (errors, v', gathered, none_left) =
        bind-eq-ok
          (gather (λ o e. described "failed to delete resource" e)
            (delete_object_with_finalizer client) items)
          (λ errors. aggregated errors) rest in
      (items, v, listed, go items errors v v' gathered none_left)
    where
      go :
          (items : List Obj) (errors : List Error) (v v' : W)
          → gather
              (λ o e. described "failed to delete resource" e)
              (delete_object_with_finalizer client)
              items
              v
            ≡ (ok errors, v')
          → ◌≡◌ {A = Result (Unit {0}) × W} (aggregated errors v') (ok tt, w)
          → AllDeleted items v w
      go items [] v v' gathered h =
          gather-ok (λ o e. described "failed to delete resource" e)
            (delete_object_with_finalizer client) items v w
            (gathered ∙ ap (λ (p : Result (Unit {0}) × W). (ok [], p.1)) h)
      go items (e ∷ errors) v v' gathered h = cc

  delete_definition_silent :
      (crds : CrdClient W) (answer : Crd → W → Option Error) (change : Crd → W → W) (crd : Crd)
      (w : W)
      → delete_definition client (with_deletion crds answer change) crd w
        ≡ delete_definition client (with_deletion crds (λ _ _. none) change) crd w
  unfolding delete_definition
  delete_definition_silent crds answer change crd w = go (answer crd w)
    where
      go :
          (o : Option Error)
          → ◌≡◌ {A = Result (Unit {0}) × W}
              (on_result (answered o) pure (λ e. pure tt) (change crd w))
              (ok tt, change crd w)
      go none = refl
      go (some e) = refl

  -- The removal of the deprecated definitions does the same, with the same result, whatever error the
  -- API server gives to the deletion of a definition, or if it gives none: an error of that deletion
  -- is lost.
  pub delete_deprecated_crds_undeleted :
      (crds : CrdClient W) (list : String → Action W (List Obj)) (known : String → Bool)
      (answer : Crd → W → Option Error) (change : Crd → W → W) (u : W)
      → delete_deprecated_crds client (with_deletion crds answer change) list known u
        ≡ delete_deprecated_crds client (with_deletion crds (λ _ _. none) change) list known u
  unfolding delete_deprecated_crds delete_deprecated_crd delete_crd_objects
  delete_deprecated_crds_undeleted crds list known answer change u =
      ap (λ (d : Crd → Action W (Unit {0})). removal d u)
        (λ i crd w. delete_definition_silent crds answer change crd w i)
    where
      removal : (Crd → Action W (Unit {0})) → Action W (Unit {0})
      removal d =
          each
            (λ name.
              if not (known name)
              then pure tt
              else attempt (crds.get_crd name)
                  (λ crd.
                    attempt (list name)
                      (λ items.
                        gather (λ o e. described "failed to delete object" e)
                          (delete_object_with_finalizer client) items
                        >>= λ errors. elim errors [ e ∷ es ↦ aggregated (e ∷ es) | [] ↦ d crd ])
                      (λ e. raise (described ("failed to list resource: " <> name) e)))
                  (λ e.
                    if is_not_found e
                    then pure tt
                    else raise (described ("failed to get crd " <> name) e)))
            (resource_role_base ∷ [])
