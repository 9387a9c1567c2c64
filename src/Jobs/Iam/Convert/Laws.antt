-- ===== src/Jobs/Iam/Convert/Laws.antt =====
-- The subjects and the labels of a converted binding.
use ks_upgrade.Base.{
  Bool, Bool-cases, inl, inr, ap₂, select, map, String, ◌≡◌, refl, true, false, List, [], ◌∷◌, some,
  arith, All, ◌==◌, eq_iff,
}
use ks_upgrade.Base.Dict
use ks_upgrade.Base.Dict.{Dict}
use ks_upgrade.Jobs.Iam.Objects.{Subject, Binding}
use ks_upgrade.Jobs.Iam.Convert.{
  user_ref, role_ref_label, iam_group, entries, new_subjects, username, referring,
  upgrade_builtin_binding, upgrade_crd_binding,
}

abbrev pub is_user : Subject → Bool
is_user s = s.kind == "User"

-- A user in the group of version 4, under its name and in its namespace.
abbrev pub iam_user : Subject → Subject
iam_user s = record {
  kind = "User";
  api_group = "iam.kubesphere.io";
  name = s.name;
  namespace = s.namespace;
}

-- A user of the group of version 4.
abbrev pub IsIamUser : Subject → Type 0
IsIamUser s = (s.kind ≡ "User") × (s.api_group ≡ iam_group)

-- The name of the last of some subjects, or another name if there are none.
abbrev pub last_name : String → List Subject → String
last_name name [] = name
last_name name (s ∷ subjects) = last_name s.name subjects

-- What the labels of a binding say of its role and its user.
abbrev pub Refers : Binding → String → Dict String → Dict String → Type 0
Refers b user old new =
    (Dict.lookup user_ref new ≡ some user)
    × (Dict.lookup role_ref_label new ≡ some b.role_ref.name)
    × ((j : String)
        → (user_ref == j) ≡ false
        → (role_ref_label == j) ≡ false
        → Dict.lookup j new ≡ Dict.lookup j old)

new_subjects-IsIamUser : (subjects : List Subject) → All IsIamUser (new_subjects subjects)
unfolding new_subjects
new_subjects-IsIamUser [] = tt
new_subjects-IsIamUser (s ∷ subjects) =
    ground (arith, eq_iff s.kind "User", new_subjects-IsIamUser subjects)

new_subjects-users :
    (subjects : List Subject) → new_subjects subjects ≡ map iam_user (select is_user subjects)
unfolding new_subjects select
new_subjects-users [] = refl
new_subjects-users (s ∷ subjects) = elim (Bool-cases (s.kind == "User")) [
  | inl there ↦ rw (there) (
      ap₂
        (λ (k : String) rest.
          record {
            kind = k;
            api_group = "iam.kubesphere.io";
            name = s.name;
            namespace = s.namespace;
          }
          ∷ rest)
        ((eq_iff s.kind "User").0 there) (new_subjects-users subjects))
  | inr other ↦ rw (other) (new_subjects-users subjects)
]

username-eq-last_name :
    (name : String) (subjects : List Subject)
    → username name subjects ≡ last_name name (new_subjects subjects)
unfolding new_subjects username
username-eq-last_name name [] = refl
username-eq-last_name name (s ∷ subjects) =
    ground (arith, username-eq-last_name name subjects, username-eq-last_name s.name subjects)

referring-Refers :
    (b : Binding) (user : String)
    → Refers b user (entries b.meta.labels) (referring b.role_ref user b.meta.labels)
unfolding referring
referring-Refers b user = (
  rw Dict.lookup-insert refl,
  rw (Dict.lookup-insert, Dict.lookup-insert) refl,
  λ j h k. rw (Dict.lookup-insert, h, Dict.lookup-insert, k) refl,
)

-- The binding of a built-in resource has exactly the users of the old one as its subjects, in
-- their order, each with its name and namespace and in the group of version 4; its labels name its role and the last of these users, or the empty name if there
-- are none, and every other label is kept.
pub upgrade_builtin_binding_lem :
    (namespace : String) (b : Binding)
    → ((upgrade_builtin_binding namespace b).subjects ≡ map iam_user (select is_user b.subjects))
      × Refers b
          (last_name "" (upgrade_builtin_binding namespace b).subjects)
          (entries b.meta.labels)
          (entries (upgrade_builtin_binding namespace b).meta.labels)
unfolding upgrade_builtin_binding
upgrade_builtin_binding_lem namespace b = (
  new_subjects-users b.subjects,
  rw (← username-eq-last_name) (referring-Refers b (username "" b.subjects)),
)

-- The binding of a custom resource has the users of the old one as its subjects, in the group of
-- version 4. If the last of them has a name, its labels name its role and that user,
-- and every other label is kept; if there is none, or it has no name, all labels are kept.
pub upgrade_crd_binding_lem :
    (b : Binding)
    → All IsIamUser (upgrade_crd_binding b).subjects
      × ((last_name "" (upgrade_crd_binding b).subjects == "") ≡ false
          → Refers b
              (last_name "" (upgrade_crd_binding b).subjects)
              (entries b.meta.labels)
              (entries (upgrade_crd_binding b).meta.labels))
      × ((last_name "" (upgrade_crd_binding b).subjects == "") ≡ true
          → entries (upgrade_crd_binding b).meta.labels ≡ entries b.meta.labels)
unfolding upgrade_crd_binding
upgrade_crd_binding_lem b = (
  new_subjects-IsIamUser b.subjects,
  λ named.
      let k = rw (← username-eq-last_name) at named in
      rw (k) (rw (← username-eq-last_name) (referring-Refers b (username "" b.subjects))),
  λ unnamed. let k = rw (← username-eq-last_name) at unnamed in rw (k) refl,
)
