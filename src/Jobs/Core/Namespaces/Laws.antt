-- ===== src/Jobs/Core/Namespaces/Laws.antt =====
-- What the loop over owner references leaves.
use ks_upgrade.Jobs.Objects.{OwnerReference}
use ks_upgrade.Base.{
  ℕ, zero, suc, ◌≤◌, ◌≡◌, ◌↔◌, refl, ap, sym, ◌∙◌, Bool, true, false, Bool-cases, if◌then◌else◌,
  ◌&&◌, not, length, get_elem?, Option, none, some, List, [], ◌∷◌, select, ◌⊎◌, inl, inr, arith,
}
use ks_upgrade.Jobs.Core.Namespaces.{
  is_workspace, remove_at, owner_step, owner_loop, or_same, without_workspaces,
}

-- The element behind one that is removed is left out of the test.
abbrev pub skipping : List OwnerReference → List OwnerReference
skipping [] = []
skipping (r ∷ []) = if is_workspace r then [] else r ∷ []
skipping (r ∷ r' ∷ refs) =
    let one = skipping (r' ∷ refs) in
    let two = skipping refs in if is_workspace r then r' ∷ two else r ∷ one

abbrev cons_some : OwnerReference → Option (List OwnerReference) → Option (List OwnerReference)
cons_some x none = none
cons_some x (some refs) = some (x ∷ refs)

owner_step-suc :
    (x : OwnerReference) (o : Option OwnerReference) (i : ℕ) (refs : List OwnerReference)
    → owner_step o (suc i) (x ∷ refs) ≡ x ∷ owner_step o i refs
unfolding remove_at
owner_step-suc x none i refs = refl
owner_step-suc x (some r) i refs = ground arith

owner_loop-suc :
    (fuel i : ℕ) (x : OwnerReference) (refs : List OwnerReference)
    → owner_loop fuel (suc i) (x ∷ refs) ≡ cons_some x (owner_loop fuel i refs)
unfolding owner_loop
owner_loop-suc zero i x refs = ground arith
owner_loop-suc (suc fuel) i x refs =
    let next = owner_step (get_elem? refs i) i refs in
    ground (arith, owner_step-suc x (get_elem? refs i) i refs, owner_loop-suc fuel (suc i) x next)

owner_loop-end : (fuel i : ℕ) → owner_loop fuel i [] ≡ some []
unfolding owner_loop
owner_loop-end zero i = ground arith
owner_loop-end (suc fuel) i = ground arith

owner_loop-skipping :
    (fuel : ℕ) (refs : List OwnerReference)
    → length refs ≤ fuel
    → owner_loop fuel 0 refs ≡ some (skipping refs)
unfolding owner_loop remove_at
owner_loop-skipping fuel [] h = owner_loop-end fuel 0
owner_loop-skipping zero (r ∷ refs) h = absurd (omega arith)
owner_loop-skipping (suc fuel) (r ∷ []) h =
    ground (arith, owner_loop-end fuel 1, owner_loop-suc fuel 0 r [], owner_loop-end fuel 0)
owner_loop-skipping (suc fuel) (r ∷ r' ∷ refs) h = ground (
  arith,
  owner_loop-suc fuel 0 r' refs,
  owner_loop-suc fuel 0 r (r' ∷ refs),
  owner_loop-skipping fuel refs (omega arith),
  owner_loop-skipping fuel (r' ∷ refs) (omega arith),
)

-- As many rounds as there are references end the loop, and what it leaves is the list without the
-- references of workspaces, but for one that stands behind another that is removed: the element
-- behind a removed one is never tested.
pub owner_loop-length :
    (refs : List OwnerReference)
    → (owner_loop (length refs) 0 refs ≡ some (skipping refs))
      × (without_workspaces refs ≡ skipping refs)
unfolding without_workspaces
owner_loop-length refs =
    let ended = owner_loop-skipping (length refs) refs (omega arith) in
    (ended, ap (or_same refs) ended)

abbrev pub is_kept : OwnerReference → Bool
is_kept r = not (is_workspace r)

-- No two references of workspaces are neighbours.
abbrev pub Apart : List OwnerReference → Type 0
Apart [] = Unit
Apart (r ∷ []) = Unit
Apart (r ∷ r' ∷ refs) = ((is_workspace r && is_workspace r') ≡ false) × Apart (r' ∷ refs)

Apart-tail : (r : OwnerReference) (refs : List OwnerReference) → Apart (r ∷ refs) → Apart refs
Apart-tail r [] a = tt
Apart-tail r (r' ∷ refs) a = a.1

Apart-cons :
    (r : OwnerReference) (refs : List OwnerReference)
    → is_workspace r ≡ false
    → Apart refs
    → Apart (r ∷ refs)
Apart-cons r [] h a = tt
Apart-cons r (r' ∷ refs) h a = (ground arith, a)

skipping-select : (refs : List OwnerReference) → Apart refs → skipping refs ≡ select is_kept refs
unfolding select
skipping-select [] a = refl
skipping-select (r ∷ []) a = ground arith
skipping-select (r ∷ r' ∷ refs) a =
    ground (arith, skipping-select refs (Apart-tail r' refs a.1), skipping-select (r' ∷ refs) a.1)

select-head :
    (refs rest : List OwnerReference) (r : OwnerReference)
    → r ∷ rest ≡ select is_kept refs
    → is_workspace r ≡ false
unfolding select
select-head [] rest r h = cc
select-head (x ∷ refs) rest r h = ground (arith, select-head refs rest r)

skipping-Apart : (refs : List OwnerReference) → skipping refs ≡ select is_kept refs → Apart refs
unfolding select
skipping-Apart [] h = tt
skipping-Apart (r ∷ []) h = tt
skipping-Apart (r ∷ r' ∷ refs) h =
    go (skipping-Apart refs) (skipping-Apart (r' ∷ refs)) (Bool-cases (is_workspace r))
      (Bool-cases (is_workspace r'))
  where
    go :
        (skipping refs ≡ select is_kept refs → Apart refs)
        → (skipping (r' ∷ refs) ≡ select is_kept (r' ∷ refs) → Apart (r' ∷ refs))
        → (is_workspace r ≡ true) ⊎ (is_workspace r ≡ false)
        → (is_workspace r' ≡ true) ⊎ (is_workspace r' ≡ false)
        → Apart (r ∷ r' ∷ refs)
    go two one (inl w) (inl w') =
        let k = rw (w, w') at h in let k' = select-head refs (skipping refs) r' k in cc
    go two one (inl w) (inr w') =
        let k = rw (w, w') at h in (ground arith, Apart-cons r' refs w' (two cc))
    go two one (inr w) y = let k = rw (w) at h in (ground arith, one cc)

-- The references that are left are all those that are no workspaces exactly if no two references
-- of workspaces are neighbours.
pub without_workspaces_iff :
    (refs : List OwnerReference) → (without_workspaces refs ≡ select is_kept refs) ↔ Apart refs
without_workspaces_iff refs =
    let left = (owner_loop-length refs).1 in
    (λ h. skipping-Apart refs (sym left ∙ h), λ a. left ∙ skipping-select refs a)
