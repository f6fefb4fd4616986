-- ===== src/Base/Order.antt =====
-- The order of texts, `strings.Compare(s, t) < 0`.
use Prim.Native.Char.{code}
use Prim.Native.Nat.{ℕ, compare as compare_ℕ, Ordering}
use Prim.Native.String.compare
use Prim.Native.String.{String, compare, then}
use mathlib.Core.Path.{◌≡◌, refl, sym, ap, ◌∙◌}
use mathlib.Core.Logic.{◌≢◌}
use mathlib.Core.Bool.{Bool, true, false, false≢true}
use native.Mathlib.Omega.{arith}
use text.Mathlib.Text.{is_lt}
use text.Mathlib.TextPositions.{compare_refl}
use text.Mathlib.TextEquality.{path_by_compare}

abbrev pub less : String → String → Bool
less s t = is_lt (compare s t)

pub less_irrefl : (s : String) → less s s ≡ false
less_irrefl s = rw (compare_refl s) refl

then_trans :
    (a b c : ℕ) (o p q : Ordering)
    → (is_lt o ≡ true → is_lt p ≡ true → is_lt q ≡ true)
    → is_lt (then (compare_ℕ a b) o) ≡ true
    → is_lt (then (compare_ℕ b c) p) ≡ true
    → is_lt (then (compare_ℕ a c) q) ≡ true
then_trans a b c o p q h x y = ground (arith, h, x, y)

then_total :
    (a b : ℕ) (o p : Ordering)
    → (o ≢ Ordering.eq → is_lt o ≡ false → is_lt p ≡ true)
    → then (compare_ℕ a b) o ≢ Ordering.eq
    → is_lt (then (compare_ℕ a b) o) ≡ false
    → is_lt (then (compare_ℕ b a) p) ≡ true
then_total a b o p h ne x = ground (arith, h, ne, x)

-- No text is less than the empty one.
less_empty : (s : String) → less s "" ≡ false
less_empty String.[] = refl
less_empty (String.◌∷◌ c s) = rw (compare.cons-nil c s) refl

pub less_trans : (s t u : String) → less s t ≡ true → less t u ≡ true → less s u ≡ true
less_trans s String.[] u h k = absurd (false≢true (sym (less_empty s) ∙ h))
less_trans s (String.◌∷◌ d t) String.[] h k =
    absurd (false≢true (sym (less_empty (String.◌∷◌ d t)) ∙ k))
less_trans String.[] (String.◌∷◌ d t) (String.◌∷◌ e u) h k = rw (compare.nil-cons e u) refl
less_trans (String.◌∷◌ c s) (String.◌∷◌ d t) (String.◌∷◌ e u) h k = rw (compare.cons-cons c e s u) (
    then_trans (code c) (code d) (code e) (compare s t) (compare t u) (compare s u)
      (less_trans s t u) (rw (compare.cons-cons c d s t) at h)
      (rw (compare.cons-cons d e t u) at k))

compare_total : (s t : String) → compare s t ≢ Ordering.eq → less s t ≡ false → less t s ≡ true
compare_total String.[] String.[] ne h = absurd (ne compare.nil-nil)
compare_total String.[] (String.◌∷◌ d t) ne h =
    absurd (false≢true (sym h ∙ ap is_lt (compare.nil-cons d t)))
compare_total (String.◌∷◌ c s) String.[] ne h = rw (compare.nil-cons c s) refl
compare_total (String.◌∷◌ c s) (String.◌∷◌ d t) ne h = rw (compare.cons-cons d c t s) (
    then_total (code c) (code d) (compare s t) (compare t s) (compare_total s t)
      (λ e. ne (compare.cons-cons c d s t ∙ e)) (rw (compare.cons-cons c d s t) at h))

-- Of two texts that differ, one is less.
pub less_total : (s t : String) → s ≢ t → less s t ≡ false → less t s ≡ true
less_total s t ne h = compare_total s t (λ e. ne (path_by_compare s t e)) h

pub less_asym : (s t : String) → less s t ≡ true → less t s ≡ false
less_asym s t h = ground (arith, h, less_trans s t s h, less_irrefl s)
