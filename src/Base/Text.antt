-- ===== src/Base/Text.antt =====
-- The order of texts, which Go's `<` and `>` on strings follow: bytewise, and so by code points.
use Prim.Native.Char.{code}
use Prim.Native.Nat.{ℕ, Ordering, ◌+◌}
use Prim.Native.String.{String, [], ◌∷◌, ◌++◌, compare}
use Prim.Native.String.compare as C
use mathlib.Core.Path.{◌≡◌}
use mathlib.Core.Bool.{Bool, true, false, ◌&&◌}
use mathlib.Core.List.{List}
use mathlib.Core.Logic.{◌≢◌}
use native.Mathlib.Omega.{arith}
use controlled_job.Base.Tests.{leb, ◌==◌, if◌then◌else◌}
use text.Mathlib.TextEquality.{path_by_compare}
use text.Mathlib.TextPositions.{compare_refl}

-- `s > t`
unfoldable pub gt_text : String → String → Bool
gt_text s t = elim (compare s t) [ Ordering.gt ↦ true | _ ↦ false ]

compare-swap : (s t : String) → compare s t ≡ Ordering.gt → compare t s ≡ Ordering.lt
compare-swap [] [] h = ground (arith, C.nil-nil, h)
compare-swap [] (d ∷ t) h = ground (arith, C.nil-cons d t)
compare-swap (c ∷ s) [] h = C.nil-cons c s
compare-swap (c ∷ s) (d ∷ t) h =
    ground (arith, C.cons-cons c d s t, C.cons-cons d c t s, compare-swap s t)

compare-swap_lt : (s t : String) → compare s t ≡ Ordering.lt → compare t s ≡ Ordering.gt
compare-swap_lt [] [] h = ground (arith, C.nil-nil, h)
compare-swap_lt [] (d ∷ t) h = C.cons-nil d t
compare-swap_lt (c ∷ s) [] h = ground (arith, C.cons-nil c s)
compare-swap_lt (c ∷ s) (d ∷ t) h =
    ground (arith, C.cons-cons c d s t, C.cons-cons d c t s, compare-swap_lt s t)

compare_trans :
    (s t u : String)
    → compare s t ≡ Ordering.gt
    → compare t u ≡ Ordering.gt
    → compare s u ≡ Ordering.gt
compare_trans [] [] u h k = ground (arith, C.nil-nil)
compare_trans [] (d ∷ t) u h k = ground (arith, C.nil-cons d t)
compare_trans (c ∷ s) t [] h k = C.cons-nil c s
compare_trans (c ∷ s) [] (e ∷ u) h k = ground (arith, C.nil-cons e u)
compare_trans (c ∷ s) (d ∷ t) (e ∷ u) h k =
    ground
      (arith, C.cons-cons c d s t, C.cons-cons d e t u, C.cons-cons c e s u, compare_trans s t u)

pub gt_text_irrefl : (s : String) → gt_text s s ≡ false
unfolding gt_text
gt_text_irrefl s = ground (arith, compare_refl s)

pub gt_text_asymm : (s t : String) → gt_text s t ≡ true → gt_text t s ≡ false
unfolding gt_text
gt_text_asymm s t h = ground (arith, compare-swap s t)

pub gt_text_trans : (s t u : String) → gt_text s t ≡ true → gt_text t u ≡ true → gt_text s u ≡ true
unfolding gt_text
gt_text_trans s t u h k = ground (arith, compare_trans s t u)

-- Two different texts are ordered one way or the other.
pub gt_text_total : (s t : String) → s ≢ t → gt_text s t ≡ false → gt_text t s ≡ true
unfolding gt_text
gt_text_total s t ne h = ground (arith, compare-swap_lt s t, path_by_compare s t)

-- fmt.Sprintf with %s only: the pieces one after the other.
abbrev pub concat : List String → String
concat List.[] = []
concat (List.◌∷◌ s ss) = s ++ concat ss

-- Lower and upper case differ by 32 in ASCII; the texts that the code compares with hold no letter
-- that another alphabet folds onto.
lower : ℕ → ℕ
lower c = if leb b'A' c && leb c b'Z' then c + 32 else c

-- strings.EqualFold, against an ASCII text without the letters k and s.
unfoldable pub equal_fold : String → String → Bool
unfolding lower
equal_fold [] [] = true
equal_fold (c ∷ s) (d ∷ t) = lower (code c) == lower (code d) && equal_fold s t
equal_fold _ _ = false
