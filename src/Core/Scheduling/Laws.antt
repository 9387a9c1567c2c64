-- ===== src/Core/Scheduling/Laws.antt =====
-- Which clusters an extension is scheduled to.
use mathlib.Core.List.{append-nil, append_assoc}
use ks_upgrade.Base.{
  String, ◌≡◌, refl, ap, sym, subst, ◌∙◌, Bool, true, false, List, [], ◌∷◌, ◌++◌, Option, none,
  some, Result, ok, err, panic, ok-injective,
}
use ks_upgrade.Base.Action.{Action, lift, ◌>>=◌, ◌>>◌, continue, bind-eq-ok, lift-bind-ok}
use ks_upgrade.Core.Scheduling.{
  Scheduled, add_name, add_override, ignoring, override_values, convert_config, enable,
  compute_cluster_scheduling, schedule_clusters,
}

module _ {Cc Values : Type 0} (is_enabled : Cc → Result Bool)
    (convert : Option (Cc → Result (Option Values))) (to_yaml : Values → Result String) where
  -- The name of a cluster, if its configuration is found to be enabled.
  abbrev pub judged : Result Bool → String → List String
  judged (ok true) name = name ∷ []
  judged (ok false) name = []
  judged (err e) name = []
  judged panic name = []

  override_values-names :
      (name : String) (v : Option Values) (s : Scheduled)
      → (override_values is_enabled convert to_yaml name v s).1.cluster_names ≡ s.cluster_names
  unfolding override_values
  override_values-names name none s = refl
  override_values-names name (some v) s = go (to_yaml v)
    where
      go :
          (r : Result String)
          → (continue r (λ text s. (ok tt, add_override name text s)) s).1.cluster_names
            ≡ s.cluster_names
      go (ok text) = refl
      go (err e) = refl
      go panic = refl

  convert_config-names :
      (cc : Cc) (name : String) (s : Scheduled)
      → (convert_config is_enabled convert to_yaml cc name s).1.cluster_names ≡ s.cluster_names
  unfolding convert_config
  convert_config-names config name s =
      elim convert
        as (λ k.
          (convert_config is_enabled k to_yaml config name s).1.cluster_names ≡ s.cluster_names) [
            | none ↦ refl
            | some f ↦ go (f config)
          ]
    where
      go :
          (r : Result (Option Values))
          → (continue r (override_values is_enabled convert to_yaml name) s).1.cluster_names
            ≡ s.cluster_names
      go (ok v) = override_values-names name v s
      go (err e) = refl
      go panic = refl

  compute-names :
      (cc : Cc) (name : String) (s : Scheduled)
      → (compute_cluster_scheduling is_enabled convert to_yaml cc name s).1.cluster_names
        ≡ s.cluster_names ++ judged (is_enabled cc) name
  unfolding compute_cluster_scheduling enable
  compute-names cc name s = go (is_enabled cc)
    where
      go :
          (r : Result Bool)
          → (continue r
              (λ enabled.
                enable is_enabled convert to_yaml enabled name
                >> convert_config is_enabled convert to_yaml cc name)
              s).1.cluster_names
            ≡ s.cluster_names ++ judged r name
      go (ok true) = convert_config-names cc name (add_name name s)
      go (ok false) = convert_config-names cc name s ∙ sym (append-nil s.cluster_names)
      go (err e) = sym (append-nil s.cluster_names)
      go panic = sym (append-nil s.cluster_names)

  ignoring-ok : (p : Result (Unit {0}) × Scheduled) (s : Scheduled) → ignoring p ≡ ok s → p.1 ≡ s
  ignoring-ok (ok x, s') s h = ok-injective h
  ignoring-ok (err e, s') s h = ok-injective h
  ignoring-ok (panic, s') s h = cc

  module _ {W Cluster : Type 0} (name_of : Cluster → String) (get_cc : Cluster → Action W Cc) where
    -- The configurations of the clusters were read one behind the other, and the clusters whose
    -- configuration is found to be enabled have these names.
    pub data Enabled : List Cluster → List String → W → W → Type 0 where
      done : {w : W} → Enabled [] [] w w
      read :
          {c : Cluster} {clusters : List Cluster} {cc : Cc} {names : List String} {u v w : W}
          → get_cc c u ≡ (ok cc, v)
          → Enabled clusters names v w
          → Enabled (c ∷ clusters) (judged (is_enabled cc) (name_of c) ++ names) u w

    -- If the scheduling goes through the clusters without an error, each configuration was read,
    -- and the clusters that it adds are those whose configuration is found to be enabled, in the
    -- order of the list; a cluster whose configuration cannot be judged is left out like one that
    -- is not enabled.
    pub schedule_clusters-ok :
        (clusters : List Cluster) (s s' : Scheduled) (u w : W)
        → schedule_clusters is_enabled convert to_yaml name_of get_cc clusters s u ≡ (ok s', w)
        → (names : List String) × Enabled clusters names u w
          × (s'.cluster_names ≡ s.cluster_names ++ names)
    unfolding schedule_clusters
    schedule_clusters-ok [] s s' u w h = (
      [],
      subst (λ x. Enabled [] [] u x) (ap (λ (p : Result Scheduled × W). p.1) h) done,
      sym (
            ap (λ (x : Scheduled). x.cluster_names)
              (ok-injective (ap (λ (p : Result Scheduled × W). p.0) h)))
          ∙ sym (append-nil s.cluster_names),
    )
    schedule_clusters-ok (c ∷ clusters) s s' u w h =
        let (cc, v, got, h1) =
          bind-eq-ok (get_cc c)
            (λ cc.
              lift
                (ignoring (compute_cluster_scheduling is_enabled convert to_yaml cc (name_of c) s))
              >>= schedule_clusters is_enabled convert to_yaml name_of get_cc clusters)
            h in
        let (s1, added, h2) =
          lift-bind-ok
            (ignoring (compute_cluster_scheduling is_enabled convert to_yaml cc (name_of c) s))
            (schedule_clusters is_enabled convert to_yaml name_of get_cc clusters) h1 in
        let (names, rest, same) = schedule_clusters-ok clusters s1 s' v w h2 in
        let first =
          ignoring-ok (compute_cluster_scheduling is_enabled convert to_yaml cc (name_of c) s) s1
            added in
        (
          judged (is_enabled cc) (name_of c) ++ names,
          read got rest,
          same
              ∙ ap (λ (x : Scheduled). x.cluster_names ++ names) (sym first)
              ∙ ap (λ l. l ++ names) (compute-names cc (name_of c) s)
              ∙ append_assoc s.cluster_names (judged (is_enabled cc) (name_of c)) names,
        )
