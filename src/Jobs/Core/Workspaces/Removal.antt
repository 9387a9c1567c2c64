-- ===== src/Jobs/Core/Workspaces/Removal.antt =====
-- What the removal of a template from a member cluster has done.
use ks_upgrade.Jobs.Objects.{OwnerReference, Object, Api, is_empty, is_absent}
use ks_upgrade.Base.{
  ◌≡◌, refl, ap, ◌∙◌, ◌⊎◌, inl, inr, Bool, true, false, if◌then◌else◌, not, List, [], ◌∷◌, Error,
  message, described, Result, ok, err, is_not_found,
}
use ks_upgrade.Base.Action.{Action, pure, raise, attempt, attempt-eq-ok, guard-eq-ok}
use ks_upgrade.Jobs.Core.Workspaces.{
  system_workspace, ownerless, delete_ownerless, delete_template_of,
  delete_system_workspace_template_in_member_cluster,
}

-- What is not there for a step: no object, or no kind of it.
abbrev pub Absent : {W S : Type 0} → Api W S → W → W → Type 0
Absent api u w = (e : Error) × (api.get "" system_workspace u ≡ (err e, w)) × (is_absent e ≡ true)

-- An object that has no finalizers and no owners, and is else as the first one.
abbrev pub Unowned : {S : Type 0} → Object S → Object S → Type 0
Unowned o o' =
    (o'.meta.finalizers ≡ [])
    × (o'.meta.owner_references ≡ [])
    × (o'.meta.name ≡ o.meta.name)
    × (o'.meta.namespace ≡ o.meta.namespace)
    × (o'.meta.labels ≡ o.meta.labels)
    × (o'.meta.annotations ≡ o.meta.annotations)
    × (o'.spec ≡ o.spec)

module _ {W S T : Type 0} (workspaces : Api W T) (templates : Api W S)
    (delete_orphaning : Object S → Action W (Unit {0})) where
  -- The template was updated without finalizers and owners, and then deleted, or it was gone.
  abbrev pub Deleted : Object S → W → W → Type 0
  Deleted t u w =
      (t' : Object S) × (v : W) × Unowned t t'
      × (templates.update t' u ≡ (ok tt, v))
      × ((delete_orphaning t' v ≡ (ok tt, w))
          ⊎ ((e : Error) × (delete_orphaning t' v ≡ (err e, w)) × (is_not_found e ≡ true)))

  -- The workspace has no owner, and its template was absent or deleted.
  abbrev pub TemplateGone : Object T → W → W → Type 0
  TemplateGone workspace u w =
      (workspace.meta.owner_references ≡ [])
      × (Absent templates u w
          ⊎ ((t : Object S) × (v : W) × (templates.get "" system_workspace u ≡ (ok t, v))
              × Deleted t v w))

  unowned : (t : Object S) → Unowned t (ownerless t)
  unowned t = (refl, refl, refl, refl, refl, refl, refl)

  delete_ownerless-ok :
      (t : Object S) (u w : W)
      → delete_ownerless workspaces templates delete_orphaning t u ≡ (ok tt, w)
      → Deleted t u w
  unfolding delete_ownerless
  delete_ownerless-ok t u w h = elim (attempt-eq-ok (templates.update (ownerless t)) _ _ h) [
    | inr (e, v, failed, k) ↦ cc
    | inl (x, v, updated, k) ↦ elim (attempt-eq-ok (delete_orphaning (ownerless t)) _ _ k) [
      | inl (y, v', gone, k') ↦ (
        ownerless t,
        v,
        unowned t,
        updated,
        inl (gone ∙ ap (λ (p : Result (Unit {0}) × W). (ok tt, p.1)) k'),
      )
      | inr (e, v', failed, k') ↦
          let (missing, same) =
            guard-eq-ok (is_not_found e) (described "failed to delete system workspace template" e)
              k' in
          (
            ownerless t,
            v,
            unowned t,
            updated,
            inr (e, failed ∙ ap (λ (x : W). (err e, x)) same, missing),
          )
    ]
  ]

  delete_template_of-ok :
      (workspace : Object T) (u w : W)
      → delete_template_of workspaces templates delete_orphaning workspace u ≡ (ok tt, w)
      → TemplateGone workspace u w
  unfolding delete_template_of
  delete_template_of-ok workspace u w h = go workspace.meta.owner_references refl h
    where
      find : Action W (Unit {0})
      find =
          attempt (templates.get "" system_workspace)
            (delete_ownerless workspaces templates delete_orphaning)
            (λ e.
              if is_absent e
              then pure tt
              else raise (described "failed to get system workspace template" e))

      go :
          (owners : List OwnerReference)
          → workspace.meta.owner_references ≡ owners
          → ◌≡◌ {A = Result (Unit {0}) × W}
              ((if not (is_empty owners)
                  then raise (message "system workspace has unexpected owner reference")
                  else find)
                u)
              (ok tt, w)
          → TemplateGone workspace u w
      go (r ∷ owners) e h = cc
      go [] e h = elim (attempt-eq-ok (templates.get "" system_workspace) _ _ h) [
        | inl (t, v, found, k) ↦ (e, inr (t, v, found, delete_ownerless-ok t v w k))
        | inr (f, v, failed, k) ↦
            let (absent, same) =
              guard-eq-ok (is_absent f) (described "failed to get system workspace template" f) k in
            (e, inl (f, failed ∙ ap (λ (x : W). (err f, x)) same, absent))
      ]

  -- If the removal of the system workspace's template from a member cluster succeeds, the cluster
  -- is the host and nothing was done; or the workspace was absent; or it has no owner, and its
  -- template was absent, or was updated without finalizers and owners and then deleted or found
  -- to be gone.
  pub delete_system_workspace_template_in_member_cluster-ok :
      (is_host_cluster : Action W Bool) (u w : W)
      → delete_system_workspace_template_in_member_cluster workspaces templates delete_orphaning
          is_host_cluster u
        ≡ (ok tt, w)
      → (is_host_cluster u ≡ (ok true, w))
        ⊎ ((v : W) × (is_host_cluster u ≡ (ok false, v))
            × (Absent workspaces v w
                ⊎ ((workspace : Object T) × (v' : W) × (workspaces.get "" system_workspace v
                      ≡ (ok workspace, v'))
                    × TemplateGone workspace v' w)))
  unfolding delete_system_workspace_template_in_member_cluster
  delete_system_workspace_template_in_member_cluster-ok is_host_cluster u w h =
      elim (attempt-eq-ok is_host_cluster _ _ h) [
        | inr (e, v, failed, k) ↦ cc
        | inl (true, v, asked, k) ↦
            inl (asked ∙ ap (λ (p : Result (Unit {0}) × W). (ok true, p.1)) k)
        | inl (false, v, asked, k) ↦
            elim (attempt-eq-ok (workspaces.get "" system_workspace) _ _ k) [
              | inl (workspace, v', found, k') ↦
                  inr
                    (v, asked, inr (workspace, v', found, delete_template_of-ok workspace v' w k'))
              | inr (f, v', failed, k') ↦
                  let (absent, same) =
                    guard-eq-ok (is_absent f) (described "failed to get system workspace" f) k' in
                  inr (v, asked, inl (f, failed ∙ ap (λ (x : W). (err f, x)) same, absent))
            ]
      ]
