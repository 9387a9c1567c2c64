-- ===== src/Jobs/Core/Namespaces.antt =====
-- pkg/jobs/core/core.go: the owner references and labels of namespaces.
pub mod Laws
use ks_upgrade.Jobs.Objects.{
  OwnerReference, ObjectMeta, Object, Api, is_empty, is_set, entries, text_of, is_absent,
}
use ks_upgrade.Base.{
  ℕ, zero, suc, ◌+◌, String, ◌<>◌, Bool, true, false, if◌then◌else◌, ◌||◌, not, ltb, length,
  get_elem?, Option, none, some, List, [], ◌∷◌, Error, described, Result, ok, ◌==◌,
}
use ks_upgrade.Base.Action.{Action, pure, raise, ◌>>=◌, ◌>>◌, attempt}
use ks_upgrade.Base.Dict
use ks_upgrade.Base.Dict.{Dict}
use ks_upgrade.Base.Loops.{each, gather, aggregated}

abbrev pub is_workspace : OwnerReference → Bool
is_workspace r = r.kind == "Workspace"

-- `append(refs[:i], refs[i+1:]...)`
unfoldable pub remove_at : {A : Type 0} → ℕ → List A → List A
remove_at i [] = []
remove_at zero (x ∷ xs) = xs
remove_at (suc i) (x ∷ xs) = x ∷ remove_at i xs

-- The body of the loop on the index `i`, which the loop then raises by one, also where an element
-- was removed and the next one has come to its place.
abbrev pub owner_step : Option OwnerReference → ℕ → List OwnerReference → List OwnerReference
owner_step none i refs = refs
owner_step (some r) i refs = if is_workspace r then remove_at i refs else refs

-- The loop; `none` where the fuel does not reach its end.
unfoldable pub owner_loop : ℕ → ℕ → List OwnerReference → Option (List OwnerReference)
unfolding remove_at
owner_loop zero i refs = if ltb i (length refs) then none else some refs
owner_loop (suc fuel) i refs =
    let rest = owner_loop fuel (suc i) (owner_step (get_elem? refs i) i refs) in
    if ltb i (length refs) then rest else some refs

abbrev pub or_same : List OwnerReference → Option (List OwnerReference) → List OwnerReference
or_same refs none = refs
or_same refs (some refs') = refs'

-- The loop ends behind as many rounds as there are references.
unfoldable pub without_workspaces : List OwnerReference → List OwnerReference
unfolding owner_loop
without_workspaces refs = or_same refs (owner_loop (length refs) 0 refs)

abbrev pub with_owners : List OwnerReference → Object (Unit {0}) → Object (Unit {0})
with_owners refs ns = record ns { meta = record ns.meta { owner_references = refs } }

unfoldable pub all_inserted : Dict String → Dict String → Dict String
all_inserted [] d = d
all_inserted ((k, v) ∷ ls) d = all_inserted ls (Dict.insert k v d)

abbrev pub with_labels : {S : Type 0} → Dict String → Object S → Object S
with_labels ls o = record o {
  meta = record o.meta { labels = some (all_inserted ls (entries o.meta.labels)) };
}

unfoldable pub add_labels : {W S : Type 0} → Api W S → Object S → Dict String → Action W (Unit {0})
unfolding all_inserted
add_labels api o ls = api.update (with_labels ls o)

module _ {W : Type 0} (namespaces : Api W (Unit {0})) where
  unfoldable pub remove_owner : Object (Unit {0}) → Action W (Unit {0})
  unfolding without_workspaces
  remove_owner ns =
      if is_set ns.meta.deletion_timestamp || is_empty ns.meta.owner_references
      then pure tt
      else attempt
          (namespaces.update (with_owners (without_workspaces ns.meta.owner_references) ns)) pure
          (λ e. raise (described ("failed to update namespace " <> ns.meta.name) e))

  unfoldable pub remove_namespace_owner_reference : Action W (Unit {0})
  unfolding remove_owner
  remove_namespace_owner_reference =
      attempt namespaces.list (each remove_owner)
        (λ e. raise (described "failed to list namespaces" e))

  -- A namespace of a DevOps project is not managed.
  unfoldable pub label_namespace : Object (Unit {0}) → Action W (Unit {0})
  unfolding add_labels
  label_namespace ns =
      if text_of (Dict.lookup "kubesphere.io/devopsproject" (entries ns.meta.labels)) == ""
      then add_labels namespaces ns (("kubesphere.io/managed", "true") ∷ [])
      else pure tt

  -- `list` gives the namespaces that have the label of a workspace.
  unfoldable pub update_namespace_labels : Action W (List (Object (Unit {0}))) → Action W (Unit {0})
  unfolding label_namespace
  update_namespace_labels list = list >>= λ items.
      gather (λ ns e. described ("failed to add labels to namespace " <> ns.meta.name) e)
        label_namespace items
      >>= λ errors. aggregated errors
