-- ===== src/Base/Lists.antt =====
-- Lists with native lengths, Go's `slices.Contains` on texts, and predicates on every element.
use Prim.Native.Nat.{ℕ, suc, ◌+◌}
use Prim.Native.String.{String}
use mathlib.Core.Path.{◌≡◌, refl, ap₂, ◌∙◌}
use mathlib.Core.Bool.{Bool, false, ◌||◌}
use mathlib.Core.List.{Permᴰ, List, [], ◌∷◌, ◌++◌}
use mathlib.Core.Option.{Option, none, some}
use native.Mathlib.Omega.{arith}
use text.Mathlib.Text.{◌==◌}
use text.Mathlib.TextEquality.{eq_iff}
use ks_upgrade.Base.Tests.{if◌then◌else◌}

module _ {ℓ} {A : Type ℓ} where
  abbrev pub length : List A → ℕ
  length [] = 0
  length (x ∷ xs) = suc (length xs)

  abbrev pub get_elem? : List A → ℕ → Option A
  get_elem? [] i = none
  get_elem? (x ∷ xs) ℕ.zero = some x
  get_elem? (x ∷ xs) (suc i) = get_elem? xs i

  abbrev pub All {κ} : (A → Type κ) → List A → Type κ
  All P [] = Unit
  All P (x ∷ xs) = P x × All P xs

  -- The elements that pass a test, in their order.
  unfoldable pub select : (A → Bool) → List A → List A
  select p [] = []
  select p (x ∷ xs) = let rest = select p xs in if p x then x ∷ rest else rest

  pub length-append : (xs ys : List A) → length (xs ++ ys) ≡ length xs + length ys
  length-append [] ys = omega arith
  length-append (x ∷ xs) ys = omega (arith, length-append xs ys)

  pub All-append {κ} : (P : A → Type κ) (xs ys : List A) → All P xs → All P ys → All P (xs ++ ys)
  All-append P [] ys hx hy = hy
  All-append P (x ∷ xs) ys hx hy = (hx.0, All-append P xs ys hx.1 hy)

unfoldable pub contains : List String → String → Bool
contains [] a = false
contains (x ∷ xs) a = (x == a) || contains xs a

-- Elements that a text names, such as the entries of a map or named jobs.
module _ {ℓ} {A : Type ℓ} (key : A → String) where
  unfoldable pub has_key : List A → String → Bool
  has_key [] k = false
  has_key (x ∷ xs) k = (key x == k) || has_key xs k

  -- No two elements have one name.
  abbrev pub DistinctBy : List A → Type 0
  DistinctBy [] = Unit
  DistinctBy (x ∷ xs) = (has_key xs (key x) ≡ false) × DistinctBy xs

  pub has_key-perm : {xs ys : List A} → Permᴰ xs ys → (k : String) → has_key xs k ≡ has_key ys k
  unfolding has_key
  has_key-perm Permᴰ.nil k = refl
  has_key-perm (Permᴰ.cons e p) k = ap₂ (λ a b. (key a == k) || b) e (has_key-perm p k)
  has_key-perm (Permᴰ.swap {a} {b} {l = l} e f) k = rw (← e, ← f) (swapped a b l k)
    where
      swapped : (a b : A) (l : List A) (k : String) → has_key (a ∷ b ∷ l) k ≡ has_key (b ∷ a ∷ l) k
      swapped a b l k = ground arith
  has_key-perm (Permᴰ.trans p q) k = has_key-perm p k ∙ has_key-perm q k

  pub DistinctBy-perm : {xs ys : List A} → Permᴰ xs ys → DistinctBy xs → DistinctBy ys
  unfolding has_key
  DistinctBy-perm Permᴰ.nil d = d
  DistinctBy-perm (Permᴰ.cons {b = b} {l₂ = l₂} e p) d =
      (rw (← has_key-perm p, ← e) d.0, DistinctBy-perm p d.1)
  DistinctBy-perm (Permᴰ.swap {a} {b} {l = l} e f) d = rw (← e, ← f) (swapped a b l d)
    where
      swapped : (a b : A) (l : List A) → DistinctBy (a ∷ b ∷ l) → DistinctBy (b ∷ a ∷ l)
      swapped a b l d = ground (arith, eq_iff (key a) (key b), eq_iff (key b) (key a))
  DistinctBy-perm (Permᴰ.trans p q) d = DistinctBy-perm q (DistinctBy-perm p d)
