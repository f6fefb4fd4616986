-- ===== src/Base/Maps.antt =====
-- Go maps with string keys: an association list, the newest entry first. Where the program ranges
-- over a map, the order is unspecified, and the model says how it takes it.
use Prim.Native.String.{String}
use mathlib.Core.Path.{◌≡◌, refl, sym, ◌∙◌}
use mathlib.Core.Logic.{◌⊎◌}
use mathlib.Core.Bool.{false}
use mathlib.Core.Option
use mathlib.Core.Option.{Option, none, some, get_or}
use mathlib.Core.List.{List, [], ◌∷◌}
use native.Mathlib.Omega.{arith}
use Prim.Native.Nat.{ℕ}
use codex_a2a.Base.Tests.{eqb, ◌==◌, ==_iff, ==_refl, if◌then◌else◌}

abbrev pub Map : Type 0 → Type 0
Map V = List (String × V)

-- A write through a pointer, in a heap from references to values.
abbrev pub update : {A : Type 0} → (ℕ → A) → ℕ → A → ℕ → A
update h p v q = if eqb p q then v else h q

module _ {V : Type 0} where
  -- `v, ok := m[k]`
  unfoldable pub lookup : String → Map V → Option V
  lookup key [] = none
  lookup key ((name, value) ∷ entries) = if name == key then some value else lookup key entries

  -- `delete(m, k)`
  unfoldable pub remove : String → Map V → Map V
  remove k [] = []
  remove k ((j, v) ∷ m) = let rest = remove k m in if j == k then rest else (j, v) ∷ rest

  -- `m[k] = v`
  unfoldable pub insert : String → V → Map V → Map V
  insert k v m = (k, v) ∷ remove k m

  -- `f(m[k])` where `m[k]` is a pointer: the entry is changed in place.
  unfoldable pub adjust : String → (V → V) → Map V → Map V
  adjust k f [] = []
  adjust k f ((j, v) ∷ m) = (if j == k then (j, f v) else (j, v)) ∷ adjust k f m

  -- `m[k]` as a value, which is `zero` for a missing key
  abbrev pub lookup_or : V → String → Map V → V
  lookup_or zero k m = get_or (lookup k m) zero

  pub lookup-remove :
      (k j : String) (m : Map V) → lookup j (remove k m) ≡ (if k == j then none else lookup j m)
  unfolding lookup remove
  lookup-remove k j [] = ground arith
  lookup-remove k j ((i, v) ∷ m) =
      ground (arith, lookup-remove k j m, ==_iff i k, ==_iff i j, ==_iff k j)

  pub lookup-insert :
      (k j : String) (v : V) (m : Map V)
      → lookup j (insert k v m) ≡ (if k == j then some v else lookup j m)
  unfolding lookup insert
  lookup-insert k j v m = rw (lookup-remove k j m) (ground arith)

  pub lookup-insert_self : (k : String) (v : V) (m : Map V) → lookup k (insert k v m) ≡ some v
  lookup-insert_self k v m = simp (lookup-insert, ==_refl)

  -- A key that is not there has nothing to delete.
  pub remove_absent : (k : String) (m : Map V) → lookup k m ≡ none → remove k m ≡ m
  unfolding lookup remove
  remove_absent k [] h = refl
  remove_absent k ((i, v) ∷ m) h = ground (arith, remove_absent k m)

  pub remove-insert :
      (k : String) (v : V) (m : Map V) → remove k (insert k v m) ≡ remove k (remove k m)
  unfolding remove insert
  remove-insert k v m = rw (==_refl k)

  pub remove-insert_absent :
      (k : String) (v : V) (m : Map V) → lookup k m ≡ none → remove k (insert k v m) ≡ m
  remove-insert_absent k v m h = rw (remove-insert k v m, remove_absent k m h) (remove_absent k m h)

  pub lookup-adjust :
      (k j : String) (f : V → V) (m : Map V)
      → lookup j (adjust k f m) ≡ (if k == j then Option.map f (lookup j m) else lookup j m)
  unfolding lookup adjust
  lookup-adjust k j f [] = ground arith
  lookup-adjust k j f ((i, v) ∷ m) =
      ground (arith, lookup-adjust k j f m, ==_iff i k, ==_iff i j, ==_iff k j)

  -- What is found after an insertion is the new entry or an old one.
  pub lookup-insert_cases :
      (k j : String) (v w : V) (m : Map V)
      → lookup j (insert k v m) ≡ some w
      → ((j ≡ k) × (w ≡ v)) ⊎ (((k == j) ≡ false) × (lookup j m ≡ some w))
  lookup-insert_cases k j v w m h =
      let e = sym (lookup-insert k j v m) ∙ h in ground (arith, ==_iff k j, e)

  pub lookup-remove_cases :
      (k j : String) (w : V) (m : Map V)
      → lookup j (remove k m) ≡ some w
      → ((k == j) ≡ false) × (lookup j m ≡ some w)
  lookup-remove_cases k j w m h =
      let e = sym (lookup-remove k j m) ∙ h in ground (arith, ==_iff k j, e)

pub ruleset map_laws = (lookup-remove, lookup-insert, lookup-adjust)
