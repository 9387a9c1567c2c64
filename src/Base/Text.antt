-- ===== src/Base/Text.antt =====
-- The order of Go's texts: `<` compares byte by byte, which for UTF-8 is by code points.
use Prim.Native.Char.{Char, code}
use Prim.Native.Nat.{ℕ, zero, suc, ◌-◌}
use Prim.Native.String.{String, [], ◌∷◌, compare}
use Prim.Native.String.compare
use mathlib.Core.Path.{◌≡◌, refl, ap, ◌∙◌}
use mathlib.Core.Logic.{◌⊎◌, inl, inr}
use mathlib.Core.Bool.{Bool, true, false, ◌&&◌, ◌||◌}
use native.Mathlib.Omega.{arith}
use text.Mathlib.Text.{is_lt, starts_with}
use text.Mathlib.TextEquality.{codes_equal}
use ks_upgrade.Base.Tests.{ltb, eqb, if◌then◌else◌}

unfoldable pub text_lt : String → String → Bool
text_lt s t = is_lt (compare s t)

text_lt-nil-nil : text_lt [] [] ≡ false
unfolding text_lt
text_lt-nil-nil = ap is_lt compare.nil-nil

text_lt-nil-cons : (d : Char) (t : String) → text_lt [] (d ∷ t) ≡ true
unfolding text_lt
text_lt-nil-cons d t = ap is_lt (compare.nil-cons d t)

text_lt-cons-nil : (c : Char) (s : String) → text_lt (c ∷ s) [] ≡ false
unfolding text_lt
text_lt-cons-nil c s = ap is_lt (compare.cons-nil c s)

text_lt-cons-cons :
    (c d : Char) (s t : String)
    → text_lt (c ∷ s) (d ∷ t) ≡ (ltb (code c) (code d) || (eqb (code c) (code d) && text_lt s t))
unfolding text_lt
text_lt-cons-cons c d s t = ap is_lt (compare.cons-cons c d s t) ∙ ground arith

pub text_lt_asymm : (s t : String) → text_lt s t ≡ true → text_lt t s ≡ false
text_lt_asymm [] [] h = text_lt-nil-nil
text_lt_asymm [] (d ∷ t) h = text_lt-cons-nil d t
text_lt_asymm (c ∷ s) [] h = ground (arith, text_lt-cons-nil c s)
text_lt_asymm (c ∷ s) (d ∷ t) h =
    ground (arith, text_lt-cons-cons c d s t, text_lt-cons-cons d c t s, text_lt_asymm s t)

pub text_lt_cotrans :
    (s t u : String) → text_lt s u ≡ true → (text_lt s t ≡ true) ⊎ (text_lt t u ≡ true)
text_lt_cotrans [] [] [] h = ground (arith, text_lt-nil-nil)
text_lt_cotrans [] [] (e ∷ u) h = inr h
text_lt_cotrans [] (d ∷ t) u h = inl (text_lt-nil-cons d t)
text_lt_cotrans (c ∷ s) t [] h = ground (arith, text_lt-cons-nil c s)
text_lt_cotrans (c ∷ s) [] (e ∷ u) h = inr (text_lt-nil-cons e u)
text_lt_cotrans (c ∷ s) (d ∷ t) (e ∷ u) h = ground (
  arith,
  text_lt-cons-cons c d s t,
  text_lt-cons-cons d e t u,
  text_lt-cons-cons c e s u,
  text_lt_cotrans s t u,
)

eqb-code : (c d : Char) → eqb (code c) (code d) ≡ true → c ≡ d
eqb-code c d h = codes_equal c d (ground arith)

pub text_lt_connected : (s t : String) → text_lt s t ≡ false → text_lt t s ≡ false → s ≡ t
text_lt_connected [] [] h k = refl
text_lt_connected [] (d ∷ t) h k = ground (arith, text_lt-nil-cons d t)
text_lt_connected (c ∷ s) [] h k = ground (arith, text_lt-nil-cons c s)
text_lt_connected (c ∷ s) (d ∷ t) h k = ground (
  arith,
  text_lt-cons-cons c d s t,
  text_lt-cons-cons d c t s,
  eqb-code c d,
  text_lt_connected s t,
)

-- Texts by their characters.
abbrev pub count_chars : String → ℕ
count_chars [] = 0
count_chars (c ∷ s) = suc (count_chars s)

abbrev pub drop_chars : ℕ → String → String
drop_chars zero s = s
drop_chars (suc n) [] = []
drop_chars (suc n) (c ∷ s) = drop_chars n s

-- `strings.TrimPrefix(s, prefix)`
abbrev pub trim_prefix : String → String → String
trim_prefix s prefix = if starts_with s prefix then drop_chars (count_chars prefix) s else s

-- `strings.ReplaceAll(s, old, "")` for an `old` that is not empty, with the number of characters of
-- an occurrence that are still to be left out.
abbrev pub removed_from : String → ℕ → String → String
removed_from old n [] = []
removed_from old (suc n) (c ∷ s) = removed_from old n s
removed_from old zero (c ∷ s) =
    let kept = removed_from old zero s in
    let skipped = removed_from old (count_chars old - 1) s in
    if starts_with (c ∷ s) old then skipped else c ∷ kept

abbrev pub remove_all : String → String → String
remove_all s old = removed_from old zero s
