-- ===== src/Config/Merge/Laws.antt =====
-- `Merge`, key by key and path by path.
use ks_upgrade.Base.{
  String, ◌==◌, eq_iff, Bool, true, false, ◌&&◌, not, if◌then◌else◌, Option, none, some, List, [],
  ◌∷◌, ◌≡◌, refl, ◌∙◌, arith, Option-cases, ◌⊎◌, inl, inr, sym, ap,
}
use ks_upgrade.Config.Merge.{
  Value, null, flag, num, str, array, object, Fields, end, field, lookup, insert, has, merge_value,
  merge_into,
}

-- The keys of every object, at any depth, differ, as those of a Go map do.
unfoldable mutual
  pub distinct : Value → Bool
  distinct (object fs) = distinct_fields fs
  distinct (array xs) = true
  distinct null = true
  distinct (flag x) = true
  distinct (num n) = true
  distinct (str s) = true

  pub distinct_fields : Fields → Bool
  distinct_fields end = true
  distinct_fields (field k v fs) = not (has k fs) && (distinct v && distinct_fields fs)

lookup-insert :
    (k j : String) (v : Value) (fs : Fields)
    → lookup j (insert k v fs) ≡ (if k == j then some v else lookup j fs)
unfolding lookup insert
lookup-insert k j v end = refl
lookup-insert k j v (field i w fs) =
    ground (arith, eq_iff k j, eq_iff i k, eq_iff i j, lookup-insert k j v fs)

lookup_of_not-has : (k : String) (fs : Fields) → has k fs ≡ false → lookup k fs ≡ none
unfolding lookup has
lookup_of_not-has k end h = refl
lookup_of_not-has k (field j v fs) h = ground (arith, lookup_of_not-has k fs)

-- What `Merge` writes for a key, from its values in the base and in the override.
abbrev pub chosen : Option Value → Option Value → Option Value
chosen b none = b
chosen b (some v) = some (merge_value b v)

lookup-merge_into :
    (base merged o : Fields) (k : String)
    → distinct_fields o ≡ true
    → lookup k (merge_into base merged o)
      ≡ elim (lookup k o) [ none ↦ lookup k merged | some v ↦ some (merge_value (lookup k base) v) ]
unfolding lookup merge_into distinct
lookup-merge_into base merged end k d = refl
lookup-merge_into base merged (field j v o) k d = ground (
  arith,
  lookup-merge_into base (insert j (merge_value (lookup j base) v) merged) o k,
  lookup-insert j k (merge_value (lookup j base) v) merged,
  lookup_of_not-has j o,
  eq_iff j k,
)

-- A key holds what the override and the base say of it: their merge where both hold objects, the
-- override's value where it has another one, and the base's where the override has none.
pub lookup-merge :
    (b o : Fields) (k : String)
    → distinct_fields o ≡ true
    → lookup k (merge_into b b o) ≡ chosen (lookup k b) (lookup k o)
lookup-merge b o k d = lookup-merge_into b b o k d ∙ ground arith

distinct-lookup :
    (fs : Fields) (k : String) (v : Value)
    → distinct_fields fs ≡ true
    → lookup k fs ≡ some v
    → distinct v ≡ true
unfolding lookup distinct
distinct-lookup end k v d e = cc
distinct-lookup (field j w fs) k v d e = ground (arith, distinct-lookup fs k v)

abbrev pub and_then : Option Value → (Value → Option Value) → Option Value
and_then none f = none
and_then (some v) f = f v

-- The value at the end of a path of keys.
abbrev pub at_value : List String → Value → Option Value
at_value [] v = some v
at_value (k ∷ ks) (object fs) = and_then (lookup k fs) (at_value ks)
at_value (k ∷ ks) null = none
at_value (k ∷ ks) (flag x) = none
at_value (k ∷ ks) (num n) = none
at_value (k ∷ ks) (str s) = none
at_value (k ∷ ks) (array xs) = none

abbrev pub is_object : Value → Bool
is_object (object fs) = true
is_object null = false
is_object (flag x) = false
is_object (num n) = false
is_object (str s) = false
is_object (array xs) = false

abbrev pub absent_or : Option Value → (Value → Bool) → Bool
absent_or none p = true
absent_or (some v) p = p v

-- Nothing on the path is set by the value: the path leaves its objects before it ends.
abbrev pub leaves : List String → Value → Bool
leaves [] v = false
leaves (k ∷ ks) (object fs) = absent_or (lookup k fs) (leaves ks)
leaves (k ∷ ks) null = false
leaves (k ∷ ks) (flag x) = false
leaves (k ∷ ks) (num n) = false
leaves (k ∷ ks) (str s) = false
leaves (k ∷ ks) (array xs) = false

merge_value_leaf : (b : Option Value) (o : Value) → is_object o ≡ false → merge_value b o ≡ o
unfolding merge_value
merge_value_leaf b (object o) h = cc
merge_value_leaf b null h = refl
merge_value_leaf b _ h = refl

-- An object is merged into an object, and replaces anything else.
merge_value-object :
    (b : Option Value) (o : Fields)
    → ((m : Fields) × (b ≡ some (object m))
        × (merge_value b (object o) ≡ object (merge_into m m o)))
      ⊎ ((merge_value b (object o) ≡ object o)
          × ((k : String) (ks : List String) (v : Value) → b ≡ some v → at_value (k ∷ ks) v ≡ none))
unfolding merge_value
merge_value-object none o = inr (refl, λ k ks v e. cc)
merge_value-object (some (object m)) o = inl (m, refl, refl)
merge_value-object (some null) o = inr (refl, λ k ks v e. ground arith)
merge_value-object (some (flag x)) o = inr (refl, λ k ks v e. ground arith)
merge_value-object (some (num n)) o = inr (refl, λ k ks v e. ground arith)
merge_value-object (some (str s)) o = inr (refl, λ k ks v e. ground arith)
merge_value-object (some (array xs)) o = inr (refl, λ k ks v e. ground arith)

-- What an override sets, other than an object, is what the merge holds, at any depth.
pub at-merge_value :
    (ks : List String) (b : Option Value) (o v : Value)
    → distinct o ≡ true
    → is_object v ≡ false
    → at_value ks o ≡ some v
    → at_value ks (merge_value b o) ≡ some v
unfolding distinct
at-merge_value [] b o v d leaf e =
    let same : o ≡ v = cc in rw (merge_value_leaf b o (rw same leaf)) e
at-merge_value (k ∷ ks) b (object o) v d leaf e = elim (merge_value-object b o) [
  | inr (same, _) ↦ rw same e
  | inl (m, _, merged) ↦ elim (Option-cases (lookup k o)) [
    | inl out ↦ let none_there = sym (ap (λ q. and_then q (at_value ks)) out) ∙ e in cc
    | inr (x, inside) ↦
        let step = λ (q : Option Value). and_then q (at_value ks) in
        ap (at_value (k ∷ ks)) merged
        ∙ ap step (lookup-merge m o k d ∙ ap (chosen (lookup k m)) inside)
        ∙ at-merge_value ks (lookup k m) x v (distinct-lookup o k x d inside) leaf
            (sym (ap step inside) ∙ e)
  ]
]
at-merge_value (k ∷ ks) b null v d leaf e = cc
at-merge_value (k ∷ ks) b (flag x) v d leaf e = cc
at-merge_value (k ∷ ks) b (num n) v d leaf e = cc
at-merge_value (k ∷ ks) b (str s) v d leaf e = cc
at-merge_value (k ∷ ks) b (array xs) v d leaf e = cc

leaves→none : (ks : List String) (o : Value) → leaves ks o ≡ true → at_value ks o ≡ none
leaves→none [] o h = cc
leaves→none (k ∷ ks) (object fs) h = elim (Option-cases (lookup k fs)) [
  | inl out ↦ ap (λ q. and_then q (at_value ks)) out
  | inr (x, inside) ↦
      ap (λ q. and_then q (at_value ks)) inside
      ∙ leaves→none ks x (sym (ap (λ q. absent_or q (leaves ks)) inside) ∙ h)
]
leaves→none (k ∷ ks) null h = refl
leaves→none (k ∷ ks) _ h = refl

-- A path that the override leaves alone holds in the merge what it holds in the base.
pub at-merge_value_kept :
    (ks : List String) (b : Option Value) (o : Value)
    → distinct o ≡ true
    → leaves ks o ≡ true
    → at_value ks (merge_value b o) ≡ and_then b (at_value ks)
unfolding distinct
at-merge_value_kept [] b o d h = cc
at-merge_value_kept (k ∷ ks) b (object o) d h = elim (merge_value-object b o) [
  | inr (same, no_object) ↦
      ap (at_value (k ∷ ks)) same ∙ leaves→none (k ∷ ks) (object o) h ∙ elim (Option-cases b) [
        | inl out ↦ sym (ap (λ q. and_then q (at_value (k ∷ ks))) out)
        | inr (x, is_x) ↦
            sym (ap (λ q. and_then q (at_value (k ∷ ks))) is_x ∙ no_object k ks x is_x)
      ]
  | inl (m, is_m, merged) ↦
      let step = λ (q : Option Value). and_then q (at_value ks) in
      ap (at_value (k ∷ ks)) merged
      ∙ ap step (lookup-merge m o k d)
      ∙ elim (Option-cases (lookup k o)) [
        | inl out ↦
            ap (λ q. step (chosen (lookup k m) q)) out
            ∙ sym (ap (λ q. and_then q (at_value (k ∷ ks))) is_m)
        | inr (x, inside) ↦
            ap (λ q. step (chosen (lookup k m) q)) inside
            ∙ at-merge_value_kept ks (lookup k m) x (distinct-lookup o k x d inside)
                (sym (ap (λ q. absent_or q (leaves ks)) inside) ∙ h)
            ∙ sym (ap (λ q. and_then q (at_value (k ∷ ks))) is_m)
      ]
]
at-merge_value_kept (k ∷ ks) b null d h = cc
at-merge_value_kept (k ∷ ks) b _ d h = cc
