-- ===== src/Executor/Order/Laws.antt =====
-- Sorting the jobs: the result is in order, holds the same jobs, and does not depend on the order
-- in which they were collected.
use mathlib.Core.List.{Permᴰ}
use mathlib.Core.List.Permᴰ
use ks_upgrade.Base.{
  lt_int, eq_int, true, false, List, [], ◌∷◌, ◌≡◌, refl, ◌∙◌, ◌⊎◌, inl, inr, Bool-cases, arith, All,
  DistinctBy, DistinctBy-perm, ap₂, has_key, eq_iff, ◌==◌,
}
use ks_upgrade.Base.Text.{text_lt, text_lt_asymm, text_lt_cotrans, text_lt_connected}
use ks_upgrade.Executor.Job.{NamedUpgradeJob}
use ks_upgrade.Executor.Order.{runs_before, place, sort_jobs}

module _ {W : Type 0} where
  runs_before_asymm : (a b : NamedUpgradeJob W) → runs_before a b ≡ true → runs_before b a ≡ false
  unfolding runs_before
  runs_before_asymm a b h = ground (arith, text_lt_asymm a.name b.name)

  runs_before_cotrans :
      (a b c : NamedUpgradeJob W)
      → runs_before a c ≡ true
      → (runs_before a b ≡ true) ⊎ (runs_before b c ≡ true)
  unfolding runs_before
  runs_before_cotrans a b c h = ground (arith, text_lt_cotrans a.name b.name c.name)

  runs_before_connected :
      (a b : NamedUpgradeJob W)
      → (a.name == b.name) ≡ false
      → runs_before a b ≡ false
      → runs_before b a ≡ true
  unfolding runs_before
  runs_before_connected a b d h =
      ground (arith, text_lt_connected a.name b.name, eq_iff a.name b.name)

  place_comm :
      (a b : NamedUpgradeJob W) (l : List (NamedUpgradeJob W))
      → (a.name == b.name) ≡ false
      → place a (place b l) ≡ place b (place a l)
  unfolding place
  place_comm a b [] d = ground (arith, runs_before_asymm a b, runs_before_connected a b d)
  place_comm a b (x ∷ xs) d = ground (
    arith,
    runs_before_asymm a b,
    runs_before_connected a b d,
    runs_before_cotrans x a b,
    runs_before_cotrans x b a,
    place_comm a b xs d,
  )

  -- No job behind another one has a higher priority, and where it has the same one, its name is
  -- not smaller.
  abbrev pub InOrder : NamedUpgradeJob W → NamedUpgradeJob W → Type 0
  InOrder x y =
      (lt_int y.priority x.priority ≡ true)
      ⊎ ((eq_int x.priority y.priority ≡ true) × (text_lt y.name x.name ≡ false))

  -- Every job is in order with all the jobs behind it.
  abbrev pub IsSorted : List (NamedUpgradeJob W) → Type 0
  IsSorted [] = Unit
  IsSorted (x ∷ xs) = All (InOrder x) xs × IsSorted xs

  not_before-InOrder : (x y : NamedUpgradeJob W) → runs_before y x ≡ false → InOrder x y
  unfolding runs_before
  not_before-InOrder x y h = elim (Bool-cases (eq_int y.priority x.priority)) [
    | inl same ↦ inr (ground arith, rw (same) at h)
    | inr apart ↦ inl (ground arith)
  ]

  abbrev Placed : List (NamedUpgradeJob W) → Type 0
  Placed [] = Unit
  Placed (x ∷ xs) = All (λ y. runs_before y x ≡ false) xs × Placed xs

  All-InOrder :
      (x : NamedUpgradeJob W) (xs : List (NamedUpgradeJob W))
      → All (λ y. runs_before y x ≡ false) xs
      → All (InOrder x) xs
  All-InOrder x [] all = tt
  All-InOrder x (y ∷ xs) all = (not_before-InOrder x y all.0, All-InOrder x xs all.1)

  Placed-IsSorted : (xs : List (NamedUpgradeJob W)) → Placed xs → IsSorted xs
  Placed-IsSorted [] s = tt
  Placed-IsSorted (x ∷ xs) s = (All-InOrder x xs s.0, Placed-IsSorted xs s.1)

  All-not_before :
      (a b : NamedUpgradeJob W) (xs : List (NamedUpgradeJob W))
      → runs_before b a ≡ false
      → All (λ y. runs_before y b ≡ false) xs
      → All (λ y. runs_before y a ≡ false) xs
  All-not_before a b [] h all = tt
  All-not_before a b (x ∷ xs) h all =
      (ground (arith, runs_before_cotrans x b a, all.0), All-not_before a b xs h all.1)

  All-place :
      (P : NamedUpgradeJob W → Type 0) (a : NamedUpgradeJob W) (xs : List (NamedUpgradeJob W))
      → P a
      → All P xs
      → All P (place a xs)
  unfolding place
  All-place P a [] h all = (h, tt)
  All-place P a (x ∷ xs) h all = elim (Bool-cases (runs_before x a)) [
    | inl before ↦ rw before (all.0, All-place P a xs h all.1)
    | inr after ↦ rw after (h, all)
  ]

  place-Placed :
      (a : NamedUpgradeJob W) (xs : List (NamedUpgradeJob W)) → Placed xs → Placed (place a xs)
  unfolding place
  place-Placed a [] s = (tt, tt)
  place-Placed a (x ∷ xs) s = elim (Bool-cases (runs_before x a)) [
    | inl before ↦
        rw before (All-place _ a xs (runs_before_asymm x a before) s.0, place-Placed a xs s.1)
    | inr after ↦ rw after ((after, All-not_before a x xs after s.0), s)
  ]

  sort_jobs-Placed : (xs : List (NamedUpgradeJob W)) → Placed (sort_jobs xs)
  unfolding sort_jobs
  sort_jobs-Placed [] = tt
  sort_jobs-Placed (x ∷ xs) = place-Placed x (sort_jobs xs) (sort_jobs-Placed xs)

  pub sort_jobs-IsSorted : (xs : List (NamedUpgradeJob W)) → IsSorted (sort_jobs xs)
  unfolding sort_jobs
  sort_jobs-IsSorted xs = Placed-IsSorted (sort_jobs xs) (sort_jobs-Placed xs)

  place-perm : (a : NamedUpgradeJob W) (xs : List (NamedUpgradeJob W)) → Permᴰ (place a xs) (a ∷ xs)
  unfolding place
  place-perm a [] = Permᴰ.refl _
  place-perm a (x ∷ xs) = elim (Bool-cases (runs_before x a)) [
    | inl before ↦
        rw before (Permᴰ.trans (Permᴰ.cons refl (place-perm a xs)) (Permᴰ.swap refl refl))
    | inr after ↦ rw after (Permᴰ.refl _)
  ]

  pub sort_jobs-perm : (xs : List (NamedUpgradeJob W)) → Permᴰ (sort_jobs xs) xs
  unfolding sort_jobs
  sort_jobs-perm [] = Permᴰ.refl _
  sort_jobs-perm (x ∷ xs) =
      Permᴰ.trans (place-perm x (sort_jobs xs)) (Permᴰ.cons refl (sort_jobs-perm xs))

  -- Jobs with names of their own are sorted alike, in whatever order they come.
  pub sort_jobs-perm_eq :
      {xs ys : List (NamedUpgradeJob W)}
      → Permᴰ xs ys
      → DistinctBy (λ j. j.name) xs
      → sort_jobs xs ≡ sort_jobs ys
  unfolding sort_jobs has_key
  sort_jobs-perm_eq Permᴰ.nil d = refl
  sort_jobs-perm_eq (Permᴰ.cons e p) d = ap₂ place e (sort_jobs-perm_eq p d.1)
  sort_jobs-perm_eq (Permᴰ.swap {a} {b} {l = l} e f) d =
      rw (← e, ← f)
        (place_comm a b (sort_jobs l) (ground (arith, eq_iff a.name b.name, eq_iff b.name a.name)))
  sort_jobs-perm_eq (Permᴰ.trans p q) d =
      sort_jobs-perm_eq p d ∙ sort_jobs-perm_eq q (DistinctBy-perm (λ j. j.name) p d)
