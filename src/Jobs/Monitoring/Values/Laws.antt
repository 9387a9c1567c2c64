-- ===== src/Jobs/Monitoring/Values/Laws.antt =====
-- Values that were set are there, and setting them again changes nothing.
use ks_upgrade.Base.{
  false, String, ◌≡◌, refl, ◌∙◌, ◌⊎◌, inl, inr, true, Bool-cases, All, Option, none, some, List, [],
  ◌∷◌, Result, ok, and_then-ok, and_then_of_ok, ok-injective, subst,
}
use ks_upgrade.Config.Merge.{Value}
use ks_upgrade.Jobs.Objects.{is_set}
use ks_upgrade.Jobs.Monitoring.Values.{
  TransPath, JsonPaths, value_of, fill, fill_all, set_extension_values,
}

-- What is relied on of gjson, sjson and the two ways between JSON and YAML, at paths that are plain:
-- keys that dots separate, without wildcards, indices or other signs that the libraries read. A value
-- that was set is there. Setting a path that is not there keeps every path that is there. JSON that was
-- printed as YAML is read as JSON that prints the same and has the same paths.
pub record PathLaws {Json : Type 0} (paths : JsonPaths Json) (Plain : String → Type 0)
    : Type 0 where
  pub set_there :
      (j j' : Json) (p : String) (v : Value)
      → Plain p
      → paths.set_path j p (some v) ≡ ok j'
      → is_set (paths.get_path j' p) ≡ true
  pub set_keeps :
      (j j' : Json) (p q : String) (v : Value)
      → Plain p
      → Plain q
      → is_set (paths.get_path j p) ≡ false
      → paths.set_path j p (some v) ≡ ok j'
      → is_set (paths.get_path j q) ≡ true
      → is_set (paths.get_path j' q) ≡ true
  pub reread :
      (j : Json) (text : String)
      → paths.to_yaml j ≡ ok text
      → (j' : Json) × (paths.from_yaml text ≡ ok j')
        × (paths.to_yaml j' ≡ ok text)
        × ((p : String)
            → Plain p
            → is_set (paths.get_path j p) ≡ true
            → is_set (paths.get_path j' p) ≡ true)

module _ {Json : Type 0} (paths : JsonPaths Json) (nested : String → Result (Option Value))
    (Plain : String → Type 0) (laws : PathLaws paths Plain) where
  abbrev IsThere : Json → String → Type 0
  IsThere j p = is_set (paths.get_path j p) ≡ true

  fill_keeps :
      (tp : TransPath) (j j' : Json) (v : Option Value) (q : String)
      → Plain tp.to_path
      → Plain q
      → fill paths nested tp j v ≡ ok j'
      → IsThere j q
      → IsThere j' q
  fill_keeps tp j j' none q plain plain_q h t = subst (λ x. IsThere x q) (ok-injective h) t
  fill_keeps tp j j' (some v) q plain plain_q h t =
      elim (Bool-cases (is_set (paths.get_path j tp.to_path))) [
        | inl there ↦ subst (λ x. IsThere x q) (ok-injective (rw (there) at h)) t
        | inr absent ↦ laws.set_keeps j j' tp.to_path q v plain plain_q absent (rw (absent) at h) t
      ]

  fill-IsThere :
      (tp : TransPath) (j j' : Json) (v : Value)
      → Plain tp.to_path
      → fill paths nested tp j (some v) ≡ ok j'
      → IsThere j' tp.to_path
  fill-IsThere tp j j' v plain h = elim (Bool-cases (is_set (paths.get_path j tp.to_path))) [
    | inl there ↦ subst (λ x. IsThere x tp.to_path) (ok-injective (rw (there) at h)) there
    | inr absent ↦ laws.set_there j j' tp.to_path v plain (rw (absent) at h)
  ]

  fill_all_keeps-IsThere :
      (trans : List TransPath) (j j' : Json) (q : String)
      → All (λ tp. Plain tp.to_path) trans
      → Plain q
      → fill_all paths nested trans j ≡ ok j'
      → IsThere j q
      → IsThere j' q
  unfolding fill_all
  fill_all_keeps-IsThere [] j j' q plain plain_q h t = subst (λ x. IsThere x q) (ok-injective h) t
  fill_all_keeps-IsThere (tp ∷ trans) j j' q plain plain_q h t =
      let (v, valued, h1) = and_then-ok (value_of paths nested tp) _ h in
      let (j1, filled, h2) = and_then-ok (fill paths nested tp j v) _ h1 in
      fill_all_keeps-IsThere trans j1 j' q plain.1 plain_q h2
        (fill_keeps tp j j1 v q plain.0 plain_q filled t)

  -- The value of a path is nil, or the path is there.
  abbrev pub Filled : Json → TransPath → Type 0
  Filled j tp =
      (v : Option Value) × (value_of paths nested tp ≡ ok v) × ((v ≡ none) ⊎ IsThere j tp.to_path)

  -- Behind a loop that succeeded, every path is there whose value is not nil.
  pub fill_all-Filled :
      (trans : List TransPath) (j j' : Json)
      → All (λ tp. Plain tp.to_path) trans
      → fill_all paths nested trans j ≡ ok j'
      → All (Filled j') trans
  unfolding fill_all
  fill_all-Filled [] j j' plain h = tt
  fill_all-Filled (tp ∷ trans) j j' plain h =
      let (v, valued, h1) = and_then-ok (value_of paths nested tp) _ h in
      let (j1, filled, h2) = and_then-ok (fill paths nested tp j v) _ h1 in
      ((v, valued, there v j1 filled h2), fill_all-Filled trans j1 j' plain.1 h2)
    where
      there :
          (v : Option Value) (j1 : Json)
          → fill paths nested tp j v ≡ ok j1
          → fill_all paths nested trans j1 ≡ ok j'
          → (v ≡ none) ⊎ IsThere j' tp.to_path
      there none j1 filled rest = inl refl
      there (some v) j1 filled rest = inr (
          fill_all_keeps-IsThere trans j1 j' tp.to_path plain.1 plain.0 rest
            (fill-IsThere tp j j1 v plain.0 filled))

  Filled-fill_all :
      (trans : List TransPath) (j : Json)
      → All (Filled j) trans
      → fill_all paths nested trans j ≡ ok j
  unfolding fill_all
  Filled-fill_all [] j f = refl
  Filled-fill_all (tp ∷ trans) j ((v, valued, there), f) =
      and_then_of_ok (value_of paths nested tp) _ valued
      ∙ and_then_of_ok (fill paths nested tp j v) _ (same v there)
      ∙ Filled-fill_all trans j f
    where
      same :
          (v : Option Value) → (v ≡ none) ⊎ IsThere j tp.to_path → fill paths nested tp j v ≡ ok j
      same none there = refl
      same (some v) (inl nothing) = cc
      same (some v) (inr there) = rw (there) refl

  Filled-reread :
      (trans : List TransPath) (j j' : Json)
      → All (λ tp. Plain tp.to_path) trans
      → ((p : String) → Plain p → IsThere j p → IsThere j' p)
      → All (Filled j) trans
      → All (Filled j') trans
  Filled-reread [] j j' plain same f = tt
  Filled-reread (tp ∷ trans) j j' plain same ((v, valued, inl nothing), f) =
      ((v, valued, inl nothing), Filled-reread trans j j' plain.1 same f)
  Filled-reread (tp ∷ trans) j j' plain same ((v, valued, inr there), f) =
      ((v, valued, inr (same tp.to_path plain.0 there)), Filled-reread trans j j' plain.1 same f)

  -- If, at plain paths, a value that was set is there, setting a path that is not there keeps those
  -- that are, and JSON that was printed as YAML is read as JSON that prints the same and has the same
  -- paths, then setting the values of an extension at plain paths a second time changes nothing.
  pub set_extension_values_again :
      (text text' : String) (trans : List TransPath)
      → All (λ tp. Plain tp.to_path) trans
      → set_extension_values paths nested text trans ≡ ok text'
      → set_extension_values paths nested text' trans ≡ ok text'
  unfolding set_extension_values
  set_extension_values_again text text' trans plain h =
      let (j, read, h1) = and_then-ok (paths.from_yaml text) _ h in
      let (j', filled, printed) = and_then-ok (fill_all paths nested trans j) _ h1 in
      let (j'', again, prints, same) = laws.reread j' text' printed in
      and_then_of_ok (paths.from_yaml text') _ again
      ∙ and_then_of_ok (fill_all paths nested trans j'') _ (
          Filled-fill_all trans j''
            (Filled-reread trans j' j'' plain same (fill_all-Filled trans j j' plain filled)))
      ∙ prints
