-- ===== src/Jobs/Core/Workspaces/Laws.antt =====
-- Which clusters pass the validation, and which templates are placed.
use ks_upgrade.Jobs.Objects.{Object, Api}
use ks_upgrade.Base.{
  String, ◌<>◌, ◌≡◌, ap, ◌∙◌, ◌⊎◌, inl, inr, Bool, true, false, Bool-cases, if◌then◌else◌, ◌&&◌,
  not, List, Error, message, described, Result, ok, err, is_not_found, select,
}
use ks_upgrade.Base.Action.{Action, pure, raise, ◌>>=◌, attempt, bind-eq-ok, attempt-eq-ok}
use ks_upgrade.Base.Loops.{gather, aggregated, Ran, gather-aggregated-ok, Ran-select}
use ks_upgrade.Config.Merge.{Fields}
use ks_upgrade.Jobs.Core.Objects.{TemplatePlacement}
use ks_upgrade.Jobs.Core.Workspaces.{
  system_workspace, template_exists, check_if_system_workspace_template_exists,
  validate_cluster_role, host_cluster_name, is_unplaced, placed_on, place_template,
  update_workspace_placement,
}

-- The template of the system workspace was not found.
abbrev pub Missing : {W S : Type 0} → Api W S → W → W → Type 0
Missing api u w =
    (e : Error) × (api.get "" system_workspace u ≡ (err e, w)) × (is_not_found e ≡ true)

template_exists-false :
    {W S : Type 0} (api : Api W S) (next : Action W Bool) (u w : W)
    → template_exists api next u ≡ (ok false, w)
    → (v : W) × Missing api u v × (next v ≡ (ok false, w))
unfolding template_exists
template_exists-false {W} api next u w h =
    elim (attempt-eq-ok (api.get "" system_workspace) (λ _. pure true)
      (λ e.
        if not (is_not_found e)
        then raise (described "failed to get system workspace template" e)
        else next)
      h) [
        | inl (t, v, got, k) ↦ cc
        | inr (e, v, failed, k) ↦ elim (Bool-cases (is_not_found e)) [
          | inl missing ↦ (v, (e, failed, missing), rw (missing) at k)
          | inr other ↦ let k' = rw (other) at k in cc
        ]
      ]

module _ {W S T : Type 0} (v3 : Api W S) (v4 : Api W T) where
  check-false :
      (u w : W)
      → check_if_system_workspace_template_exists v3 v4 u ≡ (ok false, w)
      → (v : W) × Missing v3 u v × Missing v4 v w
  unfolding check_if_system_workspace_template_exists
  check-false u w h =
      let (v, first, rest) = template_exists-false v3 (template_exists v4 (pure false)) u w h in
      let (v', (e, failed, missing), same) = template_exists-false v4 (pure false) v w rest in
      (v, first, (e, failed ∙ ap (λ (p : Result Bool × W). (err e, p.1)) same, missing))

  -- If a cluster passes the validation, it is a host cluster, or the template of the system
  -- workspace was found in neither version.
  pub validate_cluster_role-ok :
      (is_host_cluster : Action W Bool) (u w : W)
      → validate_cluster_role v3 v4 is_host_cluster u ≡ (ok tt, w)
      → ((v : W) × (is_host_cluster u ≡ (ok true, v)))
        ⊎ ((v v' : W) × (is_host_cluster u ≡ (ok false, v)) × Missing v3 v v' × Missing v4 v' w)
  unfolding validate_cluster_role
  validate_cluster_role-ok is_host_cluster u w h =
      elim (attempt-eq-ok is_host_cluster
        (λ is_host.
          attempt (check_if_system_workspace_template_exists v3 v4)
            (λ exists.
              if not is_host && exists
              then raise (message "system workspace template exists in managed cluster")
              else pure tt)
            (λ e. raise (described "failed to check if the system workspace template exists" e)))
        (λ e. raise (described "failed to check if the cluster is host cluster" e)) h) [
          | inr (e, v, failed, k) ↦ cc
          | inl (true, v, asked, k) ↦ inl (v, asked)
          | inl (false, v, asked, k) ↦
              elim (attempt-eq-ok (check_if_system_workspace_template_exists v3 v4)
                (λ exists.
                  if exists
                  then raise (message "system workspace template exists in managed cluster")
                  else pure tt)
                (λ e. raise (described "failed to check if the system workspace template exists" e))
                k) [
                  | inr (e, v', failed, k') ↦ cc
                  | inl (true, v', checked, k') ↦ cc
                  | inl (false, v', checked, k') ↦
                      let (v2, first, (e, failed, missing)) = check-false v v' checked in
                      inr (
                        v,
                        v2,
                        asked,
                        first,
                        (e, failed ∙ ap (λ (p : Result (Unit {0}) × W). (err e, p.1)) k', missing),
                      )
                ]
        ]

module _ {W Raw : Type 0} (templates : Api W (TemplatePlacement Raw)) where
  -- If the default placement succeeds, the cluster is not a single one and nothing was done, or
  -- the templates were listed, and exactly those without a selector and without clusters were
  -- placed on the cluster that the options name, or else on the one named host, in their order.
  pub update_workspace_placement-ok :
      (is_single : Action W Bool) (options : Fields) (u w : W)
      → update_workspace_placement templates is_single options u ≡ (ok tt, w)
      → (is_single u ≡ (ok false, w))
        ⊎ ((v v' : W) × (items : List (Object (TemplatePlacement Raw))) × (is_single u
              ≡ (ok true, v))
            × (templates.list v ≡ (ok items, v'))
            × Ran
                (λ t. templates.update (placed_on templates (host_cluster_name options) t))
                (select (is_unplaced templates) items)
                v'
                w)
  unfolding update_workspace_placement place_template
  update_workspace_placement-ok is_single options u w h =
      let (single, v, asked, rest) = bind-eq-ok is_single _ h in go single v asked rest
    where
      host : String
      host = host_cluster_name options

      wrap : Object (TemplatePlacement Raw) → Error → Error
      wrap t e = described ("failed to update workspace template " <> t.meta.name) e

      go :
          (single : Bool) (v : W)
          → is_single u ≡ (ok single, v)
          → ◌≡◌ {A = Result (Unit {0}) × W}
              ((if not single
                  then pure tt
                  else templates.list >>= λ items.
                      gather wrap (place_template templates host) items >>= λ errors.
                      aggregated errors)
                v)
              (ok tt, w)
          → (is_single u ≡ (ok false, w))
            ⊎ ((v v' : W) × (items : List (Object (TemplatePlacement Raw))) × (is_single u
                  ≡ (ok true, v))
                × (templates.list v ≡ (ok items, v'))
                × Ran
                    (λ t. templates.update (placed_on templates host t))
                    (select (is_unplaced templates) items)
                    v'
                    w)
      go false v asked k = inl (asked ∙ ap (λ (p : Result (Unit {0}) × W). (ok false, p.1)) k)
      go true v asked k =
          let (items, v', listed, k') =
            bind-eq-ok templates.list
              (λ items.
                gather wrap (place_template templates host) items >>= λ errors. aggregated errors)
              k in
          let placed = gather-aggregated-ok wrap (place_template templates host) items v' w k' in
          inr (
            v,
            v',
            items,
            asked,
            listed,
            Ran-select (is_unplaced templates) (place_template templates host)
                (λ t. templates.update (placed_on templates host t))
                (λ t x y e i. ap (λ (q : Result (Unit {0}) × W). q.1) (rw (e) at i))
                (λ t x y e i. rw (e) at i) placed,
          )
