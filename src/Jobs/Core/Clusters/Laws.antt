-- ===== src/Jobs/Core/Clusters/Laws.antt =====
-- What a member cluster has become, and which clusters were updated.
use ks_upgrade.Jobs.Objects.{Object, Api, entries}
use ks_upgrade.Base.{
  String, ℤ, ◌≡◌, refl, ap, ◌∙◌, Bool, true, false, if◌then◌else◌, not, some, List, [], ◌∷◌, Result,
  ok, select, ◌||◌, ◌==◌, eq_iff, arith,
}
use ks_upgrade.Base.Action.{bind-eq-ok}
use ks_upgrade.Base.Dict
use ks_upgrade.Base.Dict.{Dict}
use ks_upgrade.Base.Loops.{each, Ran, each-ok, Ran-select}
use ks_upgrade.Jobs.Core.Objects.{ClusterCondition}
use ks_upgrade.Jobs.Core.Clusters.{
  host_cluster_label, has_label, update_cluster_condition, ready_condition, unschedulable_condition,
  upgrading, update_member_cluster, update_member_clusters,
}

-- The conditions of one type.
abbrev pub of_type : String → List ClusterCondition → List ClusterCondition
of_type t conditions = select (λ c. c.type == t) conditions

-- An update of a condition leaves it as the only one of its type, and the conditions of every
-- other type as they were.
pub update_cluster_condition_lem :
    (conditions : List ClusterCondition) (c : ClusterCondition) (t : String)
    → of_type t (update_cluster_condition conditions c)
      ≡ (if c.type == t then c ∷ [] else of_type t conditions)
unfolding update_cluster_condition select
update_cluster_condition_lem [] c t = refl
update_cluster_condition_lem (x ∷ conditions) c t = ground (
  arith,
  eq_iff c.type t,
  eq_iff x.type t,
  eq_iff x.type c.type,
  update_cluster_condition_lem conditions c t,
)

-- A condition of this status, with these times.
abbrev pub Holds : String → ℤ × ℤ → ClusterCondition → Type 0
Holds status (updated, changed) c =
    (c.status ≡ status) × (c.last_update_time ≡ updated) × (c.last_transition_time ≡ changed)

-- A member cluster that is being upgraded has one condition of the type KSCoreReady, with the
-- status True, and one of the type Schedulable, with the status False, each with its times of the
-- update, and its conditions of every other type; it has the label of a managed cluster, and every
-- other label as before.
pub upgrading_lem :
    (ready unschedulable : ℤ × ℤ) (c : Object (List ClusterCondition)) (t key : String)
    → ((x : ClusterCondition) × (of_type "KSCoreReady" (upgrading (ready, unschedulable) c).spec
          ≡ x ∷ [])
        × Holds "True" ready x)
      × ((x : ClusterCondition) × (of_type "Schedulable" (upgrading (ready, unschedulable) c).spec
            ≡ x ∷ [])
          × Holds "False" unschedulable x)
      × ((("KSCoreReady" == t) || ("Schedulable" == t)) ≡ false
          → of_type t (upgrading (ready, unschedulable) c).spec ≡ of_type t c.spec)
      × (Dict.lookup key (entries (upgrading (ready, unschedulable) c).meta.labels) ≡ (
          if "kubesphere.io/managed" == key
          then some "true"
          else Dict.lookup key (entries c.meta.labels)))
unfolding upgrading
upgrading_lem ready unschedulable c t key = (
  (ready_condition ready, both "KSCoreReady", (refl, refl, refl)),
  (unschedulable_condition unschedulable, both "Schedulable", (refl, refl, refl)),
  λ other. both t ∙ ground arith,
  Dict.lookup-insert "kubesphere.io/managed" key "true" (entries c.meta.labels),
)
  where
    once : List ClusterCondition
    once = update_cluster_condition c.spec (ready_condition ready)

    both :
        (x : String)
        → of_type x (update_cluster_condition once (unschedulable_condition unschedulable)) ≡ (
            if "Schedulable" == x
            then unschedulable_condition unschedulable ∷ []
            else (if "KSCoreReady" == x then ready_condition ready ∷ [] else of_type x c.spec))
    both x =
        update_cluster_condition_lem once (unschedulable_condition unschedulable) x
        ∙ ap (λ d. if "Schedulable" == x then unschedulable_condition unschedulable ∷ [] else d)
            (update_cluster_condition_lem c.spec (ready_condition ready) x)

abbrev pub is_member : Object (List ClusterCondition) → Bool
is_member c = not (has_label host_cluster_label c)

not-eq : (b : Bool) {c : Bool} → not b ≡ c → b ≡ not c
not-eq true h = ap not h
not-eq false h = ap not h

module _ {W : Type 0} (clusters : Api W (List ClusterCondition)) (now : W → (ℤ × ℤ) × (ℤ × ℤ)) where
  -- If the update of the member clusters succeeds, the clusters were listed, and exactly those
  -- without the label of the host cluster were updated, each to what a cluster under upgrade is,
  -- in the order of the list.
  pub update_member_clusters-ok :
      (u w : W)
      → update_member_clusters clusters now u ≡ (ok tt, w)
      → (items : List (Object (List ClusterCondition))) × (v : W) × (clusters.list u
          ≡ (ok items, v))
        × Ran (λ c x. clusters.update (upgrading (now x) c) x) (select is_member items) v w
  unfolding update_member_clusters update_member_cluster
  update_member_clusters-ok u w h =
      let (items, v, listed, updated) =
        bind-eq-ok clusters.list (λ items. each (update_member_cluster clusters now) items) h in
      (
        items,
        v,
        listed,
        Ran-select is_member (update_member_cluster clusters now)
            (λ c x. clusters.update (upgrading (now x) c) x)
            (λ c x y e k.
              ap (λ (q : Result (Unit {0}) × W). q.1)
                (rw (not-eq (has_label host_cluster_label c) e) at k))
            (λ c x y e k. rw (not-eq (has_label host_cluster_label c) e) at k)
            (each-ok (update_member_cluster clusters now) items v w updated),
      )
