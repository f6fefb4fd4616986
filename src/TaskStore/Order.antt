-- ===== src/TaskStore/Order.antt =====
-- `sort.Slice` in `List`: the tasks that match, in the order of listing.
use mathlib.Core.List.{Perm}
use mathlib.Core.List.Perm
use codex_a2a.Base.{
  ◌≡◌, Bool, true, false, List, [], ◌∷◌, ◌==◌, ==_iff, Bool-cases, inl, inr, arith,
}
use codex_a2a.Base.Order.{less_irrefl, less_trans, less_total}
use codex_a2a.TaskStore.Store.{StoredTask}
use codex_a2a.TaskStore.Listing.{listed_before, place, sort_tasks, after_cursor}
use codex_a2a.TaskStore.Pages.{All}

pub All-map :
    {f g : StoredTask → Bool} {b c : Bool} (ts : List StoredTask)
    → ((t : StoredTask) → f t ≡ b → g t ≡ c)
    → All f b ts
    → All g c ts
All-map [] h a = tt
All-map (t ∷ ts) h a = (h t a.0, All-map ts h a.1)

-- The order of listing, as the test of a cursor.
pub after_cursor-listed_before :
    (last t : StoredTask) → after_cursor last.last_updated last.task.id t ≡ listed_before last t
unfolding after_cursor listed_before
after_cursor-listed_before last t = ground arith

pub listed_before_irrefl : (t : StoredTask) → listed_before t t ≡ false
unfolding listed_before
listed_before_irrefl t = ground (arith, less_irrefl t.task.id)

pub listed_before_trans :
    (s t u : StoredTask)
    → listed_before s t ≡ true
    → listed_before t u ≡ true
    → listed_before s u ≡ true
unfolding listed_before
listed_before_trans s t u h k = ground (arith, h, k, less_trans u.task.id t.task.id s.task.id)

pub listed_before_asym : (s t : StoredTask) → listed_before s t ≡ true → listed_before t s ≡ false
listed_before_asym s t h = ground (arith, h, listed_before_trans s t s h, listed_before_irrefl s)

listed_before_total :
    (s t : StoredTask)
    → (t.task.id == s.task.id) ≡ false
    → listed_before s t ≡ false
    → listed_before t s ≡ true
unfolding listed_before
listed_before_total s t ne h =
    ground (arith, ne, h, ==_iff t.task.id s.task.id, less_total t.task.id s.task.id)

-- Each task is listed before those behind it.
abbrev pub IsSorted : List StoredTask → Type 0
IsSorted [] = Unit {0}
IsSorted (t ∷ ts) = All (listed_before t) true ts × IsSorted ts

-- No two tasks have the same id.
abbrev pub IsDistinct : List StoredTask → Type 0
IsDistinct [] = Unit {0}
IsDistinct (t ∷ ts) = All (λ u. u.task.id == t.task.id) false ts × IsDistinct ts

place-All :
    (f : StoredTask → Bool) (b : Bool) (x : StoredTask) (ys : List StoredTask)
    → f x ≡ b
    → All f b ys
    → All f b (place x ys)
unfolding place
place-All f b x [] h a = (h, tt)
place-All f b x (y ∷ ys) h a = elim (Bool-cases (listed_before x y)) [
  | inl q ↦ rw q (h, a)
  | inr q ↦ rw q (a.0, place-All f b x ys h a.1)
]

pub sort_tasks-All :
    (f : StoredTask → Bool) (b : Bool) (xs : List StoredTask) → All f b xs → All f b (sort_tasks xs)
unfolding sort_tasks
sort_tasks-All f b [] a = tt
sort_tasks-All f b (x ∷ xs) a = place-All f b x (sort_tasks xs) a.0 (sort_tasks-All f b xs a.1)

place-IsSorted :
    (x : StoredTask) (ys : List StoredTask)
    → All (λ u. u.task.id == x.task.id) false ys
    → IsSorted ys
    → IsSorted (place x ys)
unfolding place
place-IsSorted x [] ne h = (tt, tt)
place-IsSorted x (y ∷ ys) ne h = elim (Bool-cases (listed_before x y)) [
  | inl q ↦ rw q ((q, All-map ys (λ t. listed_before_trans x y t q) h.0), h)
  | inr q ↦ rw q (
    place-All (listed_before y) true x ys (listed_before_total x y ne.0 q) h.0,
    place-IsSorted x ys ne.1 h.1,
  )
]

pub sort_tasks-IsSorted : (xs : List StoredTask) → IsDistinct xs → IsSorted (sort_tasks xs)
unfolding sort_tasks
sort_tasks-IsSorted [] d = tt
sort_tasks-IsSorted (x ∷ xs) d =
    place-IsSorted x (sort_tasks xs) (sort_tasks-All (λ u. u.task.id == x.task.id) false xs d.0)
      (sort_tasks-IsSorted xs d.1)

place-perm : (x : StoredTask) (ys : List StoredTask) → Perm (place x ys) (x ∷ ys)
unfolding place
place-perm x [] = Perm.refl (x ∷ [])
place-perm x (y ∷ ys) = elim (Bool-cases (listed_before x y)) [
  | inl q ↦ rw q (Perm.refl (x ∷ y ∷ ys))
  | inr q ↦ rw q (Perm.trans (Perm.cons y (place-perm x ys)) (Perm.swap x y ys))
]

pub sort_tasks-perm : (xs : List StoredTask) → Perm (sort_tasks xs) xs
unfolding sort_tasks
sort_tasks-perm [] = Perm.nil
sort_tasks-perm (x ∷ xs) =
    Perm.trans (place-perm x (sort_tasks xs)) (Perm.cons x (sort_tasks-perm xs))
