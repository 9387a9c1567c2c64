-- ===== src/Jobs/Iam/Helm/Laws.antt =====
-- The release that is updated.
use ks_upgrade.Base.{
  ◌≡◌, refl, ◌⊎◌, inl, inr, ap, ◌∙◌, ℤ, lt_int, le_int, Bool, true, false, if◌then◌else◌, ◌&&◌,
  List, [], ◌∷◌, arith, All,
}
use mathlib.Core.List.{Memᴰ}
use ks_upgrade.Jobs.Iam.Helm.{Release, latest_release}

le_int_refl : (a : ℤ) → le_int a a ≡ true
le_int_refl a = ground arith

le_int_trans : (a b c : ℤ) → le_int a b ≡ true → le_int b c ≡ true → le_int a c ≡ true
le_int_trans a b c h k = ground arith

lt_int→le : (a b : ℤ) → lt_int a b ≡ true → le_int a b ≡ true
lt_int→le a b h = ground arith

not_lt_int→le : (a b : ℤ) → lt_int a b ≡ false → le_int b a ≡ true
not_lt_int→le a b h = ground arith

-- One round of the loop.
abbrev round : Release → Release → Release
round latest r = if r.is_deployed && lt_int latest.version r.version then r else latest

round_lem :
    (latest r : Release)
    → ((round latest r ≡ latest) ⊎ ((round latest r ≡ r) × (r.is_deployed ≡ true)))
      × (le_int latest.version (round latest r).version ≡ true)
      × (r.is_deployed ≡ true → le_int r.version (round latest r).version ≡ true)
round_lem latest r = go r.is_deployed (lt_int latest.version r.version) refl refl
  where
    go :
        (deployed newer : Bool)
        → r.is_deployed ≡ deployed
        → lt_int latest.version r.version ≡ newer
        → (((if deployed && newer then r else latest) ≡ latest)
            ⊎ (((if deployed && newer then r else latest) ≡ r) × (r.is_deployed ≡ true)))
          × (le_int latest.version (if deployed && newer then r else latest).version ≡ true)
          × (r.is_deployed ≡ true
              → le_int r.version (if deployed && newer then r else latest).version ≡ true)
    go true true d n =
        (inr (refl, d), lt_int→le latest.version r.version n, λ h. le_int_refl r.version)
    go true false d n =
        (inl refl, le_int_refl latest.version, λ h. not_lt_int→le latest.version r.version n)
    go false newer d n = (inl refl, le_int_refl latest.version, λ h. cc)

latest_release-le :
    (latest : Release) (releases : List Release)
    → le_int latest.version (latest_release latest releases).version ≡ true
unfolding latest_release
latest_release-le latest [] = le_int_refl latest.version
latest_release-le latest (r ∷ releases) =
    le_int_trans latest.version (round latest r).version
      (latest_release (round latest r) releases).version (round_lem latest r).1
      (latest_release-le (round latest r) releases)

-- The release that is found is the one that the loop began with, or a deployed one of the list,
-- and no deployed release of the list has a higher version.
pub latest_release_lem :
    (latest : Release) (releases : List Release)
    → ((latest_release latest releases ≡ latest)
        ⊎ (Memᴰ (latest_release latest releases) releases
            × ((latest_release latest releases).is_deployed ≡ true)))
      × All
          (λ r.
            r.is_deployed ≡ true → le_int r.version (latest_release latest releases).version ≡ true)
          releases
unfolding latest_release
latest_release_lem latest [] = (inl refl, tt)
latest_release_lem latest (r ∷ releases) =
    let (found, above) = latest_release_lem (round latest r) releases in
    (
      elim found [
        | inr (in_rest, deployed) ↦ inr (Memᴰ.tail in_rest, deployed)
        | inl first ↦ elim (round_lem latest r).0 [
          | inl same ↦ inl (first ∙ same)
          | inr (new, deployed) ↦ inr (
            Memᴰ.head (first ∙ new),
            ap (λ (x : Release). x.is_deployed) (first ∙ new) ∙ deployed,
          )
        ]
      ],
      (
        λ deployed.
            le_int_trans r.version (round latest r).version
              (latest_release (round latest r) releases).version ((round_lem latest r).2 deployed)
              (latest_release-le (round latest r) releases),
        above,
      ),
    )
