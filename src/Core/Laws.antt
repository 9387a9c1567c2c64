-- ===== src/Core/Laws.antt =====
-- What an install plan that was ensured, and a chart that was synced, have done.
use ks_upgrade.Base.{
  String, ◌<>◌, ◌≡◌, refl, ap, ◌∙◌, ◌⊎◌, inl, inr, Bool, true, false, Bool-cases, if◌then◌else◌,
  List, [], ◌∷◌, Error, Result, ok, err, panic, is_not_found,
}
use ks_upgrade.Base.Action.{Action, pure, raise, ◌>>=◌, ◌>>◌, on_result, attempt, bind-eq-ok}
use ks_upgrade.Base.Loops.{each, Ran, each-ok}
use ks_upgrade.Core.{
  ExtensionRef, InstallPlan, new_plan, ensure_plan, create_install_plan, sync_cluster,
  sync_clusters,
}

module _ {W Raw : Type 0} (is_host : Action W Bool) (get_version : String → Action W (Unit {0}))
    (get_plan : String → Action W (InstallPlan Raw))
    (create_plan : InstallPlan Raw → Action W (Unit {0})) where
  -- A plan of the name was there, or the plan of the reference was created where none was found.
  abbrev pub Ensured : ExtensionRef Raw → W → W → Type 0
  Ensured r u w =
      ((plan : InstallPlan Raw) × (get_plan r.name u ≡ (ok plan, w)))
      ⊎ ((e : Error) × (v : W) × (get_plan r.name u ≡ (err e, v))
          × (is_not_found e ≡ true)
          × (create_plan (new_plan r) v ≡ (ok tt, w)))

  ensure_plan-ok :
      (r : ExtensionRef Raw) (u w : W)
      → ensure_plan is_host get_version get_plan create_plan r u ≡ (ok tt, w)
      → Ensured r u w
  unfolding ensure_plan
  ensure_plan-ok r u w h = go (get_plan r.name u) refl h
    where
      go :
          (a : Result (InstallPlan Raw) × W)
          → get_plan r.name u ≡ a
          → ◌≡◌ {A = Result (Unit {0}) × W}
              (on_result a.0
                (λ plan. pure tt)
                (λ e. if is_not_found e then create_plan (new_plan r) else raise e)
                a.1)
              (ok tt, w)
          → Ensured r u w
      go (ok plan, v) e h = inl (plan, e ∙ ap (λ (p : Result (Unit {0}) × W). (ok plan, p.1)) h)
      go (err f, v) e h = elim (Bool-cases (is_not_found f)) [
        | inl missing ↦ inr (f, v, e, missing, rw (missing) at h)
        | inr other ↦ let k = rw (other) at h in cc
      ]
      go (panic, v) e h = cc

  -- If the creation of an install plan succeeds, either the cluster is no host cluster and
  -- nothing was done, or the version of the extension was found, a plan of its name was left as
  -- it is or created from the reference, and every watch function was satisfied, in this order.
  pub create_install_plan-ok :
      (r : ExtensionRef Raw) (watches : List (Action W (Unit {0}))) (u w : W)
      → create_install_plan is_host get_version get_plan create_plan r watches u ≡ (ok tt, w)
      → (is_host u ≡ (ok false, w))
        ⊎ ((v v1 v2 : W) × (is_host u ≡ (ok true, v))
            × (get_version (r.name <> "-" <> r.version) v ≡ (ok tt, v1))
            × Ensured r v1 v2
            × Ran (λ watch. watch) watches v2 w)
  unfolding create_install_plan
  create_install_plan-ok r watches u w h =
      let (host, v, asked, rest) =
        bind-eq-ok is_host
          (λ host.
            if host
            then get_version (r.name <> "-" <> r.version)
              >> ensure_plan is_host get_version get_plan create_plan r
              >> each (λ watch. watch) watches
            else pure tt)
          h in
      go host v asked rest
    where
      go :
          (host : Bool) (v : W)
          → is_host u ≡ (ok host, v)
          → ◌≡◌ {A = Result (Unit {0}) × W}
              ((if host
                  then get_version (r.name <> "-" <> r.version)
                    >> ensure_plan is_host get_version get_plan create_plan r
                    >> each (λ watch. watch) watches
                  else pure tt)
                v)
              (ok tt, w)
          → (is_host u ≡ (ok false, w))
            ⊎ ((v v1 v2 : W) × (is_host u ≡ (ok true, v))
                × (get_version (r.name <> "-" <> r.version) v ≡ (ok tt, v1))
                × Ensured r v1 v2
                × Ran (λ watch. watch) watches v2 w)
      go false v asked h = inl (asked ∙ ap (λ (p : Result (Unit {0}) × W). (ok false, p.1)) h)
      go true v asked h =
          let (x, v2, both, watched) =
            bind-eq-ok
              (get_version (r.name <> "-" <> r.version)
                >> ensure_plan is_host get_version get_plan create_plan r)
              (λ _. each (λ watch. watch) watches) h in
          let (y, v1, found, ensured) =
            bind-eq-ok (get_version (r.name <> "-" <> r.version))
              (λ _. ensure_plan is_host get_version get_plan create_plan r) both in
          inr (
            v,
            v1,
            v2,
            asked,
            found,
            ensure_plan-ok r v1 v2 ensured,
            each-ok (λ watch. watch) watches v2 w watched,
          )

module _ {W Cluster Data : Type 0} (is_host : Action W Bool) (download : String → Action W Data)
    (list_cluster : Action W (List Cluster))
    (client : Cluster → Action W (String → Data → Action W (Unit {0}))) where
  -- The client of a cluster was made, and the chart was written, or its write answered an error.
  abbrev pub Attempted : String → Data → Cluster → W → W → Type 0
  Attempted name chart c u w =
      (put : String → Data → Action W (Unit {0})) × (v : W) × (client c u ≡ (ok put, v))
      × ((put name chart v ≡ (ok tt, w)) ⊎ ((e : Error) × (put name chart v ≡ (err e, w))))

  -- One behind the other, for all clusters of a list.
  pub data AllAttempted (name : String) (chart : Data) : List Cluster → W → W → Type 0 where
    finished : {w : W} → AllAttempted name chart [] w w
    attempted :
        {c : Cluster} {clusters : List Cluster} {u v w : W}
        → Attempted name chart c u v
        → AllAttempted name chart clusters v w
        → AllAttempted name chart (c ∷ clusters) u w

  sync_cluster-ok :
      (name : String) (chart : Data) (c : Cluster) (u w : W)
      → sync_cluster is_host download list_cluster client name chart c u ≡ (ok tt, w)
      → Attempted name chart c u w
  unfolding sync_cluster
  sync_cluster-ok name chart c u w h =
      let (put, v, made, rest) =
        bind-eq-ok (client c) (λ put. attempt (put name chart) pure (λ e. pure tt)) h in
      (put, v, made, go (put name chart v) refl rest)
    where
      go :
          {q : Result (Unit {0}) × W} (a : Result (Unit {0}) × W)
          → q ≡ a
          → ◌≡◌ {A = Result (Unit {0}) × W} (on_result a.0 pure (λ e. pure tt) a.1) (ok tt, w)
          → (q ≡ (ok tt, w)) ⊎ ((e : Error) × (q ≡ (err e, w)))
      go (ok x, v) e h = inl (e ∙ h)
      go (err f, v) e h = inr (f, e ∙ ap (λ (p : Result (Unit {0}) × W). (err f, p.1)) h)
      go (panic, v) e h = cc

  Ran→AllAttempted :
      (name : String) (chart : Data) {clusters : List Cluster} {u w : W}
      → Ran (sync_cluster is_host download list_cluster client name chart) clusters u w
      → AllAttempted name chart clusters u w
  Ran→AllAttempted name chart Ran.done = finished
  Ran→AllAttempted name chart (Ran.ran {a} {xs} {u} {v} {w} first rest) =
      attempted (sync_cluster-ok name chart a u v first) (Ran→AllAttempted name chart rest)

  -- If a chart is synced without an error, it was downloaded and the clusters were listed, and for
  -- each of them a client was made and a write of the chart was attempted; the writes need not
  -- have succeeded.
  pub sync_clusters-ok :
      (url name : String) (u w : W)
      → sync_clusters is_host download list_cluster client url name u ≡ (ok tt, w)
      → (chart : Data) × (clusters : List Cluster) × (v v' : W) × (download url u ≡ (ok chart, v))
        × (list_cluster v ≡ (ok clusters, v'))
        × AllAttempted name chart clusters v' w
  unfolding sync_clusters
  sync_clusters-ok url name u w h =
      let (chart, v, downloaded, h1) =
        bind-eq-ok (download url)
          (λ chart. list_cluster >>= λ clusters.
            each (sync_cluster is_host download list_cluster client name chart) clusters)
          h in
      let (clusters, v', listed, h2) =
        bind-eq-ok list_cluster
          (λ clusters. each (sync_cluster is_host download list_cluster client name chart) clusters)
          h1 in
      (
        chart,
        clusters,
        v,
        v',
        downloaded,
        listed,
        Ran→AllAttempted name chart (
            each-ok (sync_cluster is_host download list_cluster client name chart) clusters v' w
              h2),
      )
