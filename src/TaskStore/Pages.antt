-- ===== src/TaskStore/Pages.antt =====
-- `paginateTasks`: the token of a page leads to the tasks after it.
use Prim.Native.String.{String}
use mathlib.Core.List.{◌++◌}
use codex_a2a.Base.{
  ℕ, zero, suc, ◌+◌, ◌/◌, ◌≤◌, ◌<◌, ◌≡◌, ◌≢◌, refl, inl, inr, Bool, true, false, Bool-cases, List,
  [], ◌∷◌, ok, ==_ne, ltb, length, drop, get_elem?, length-append, arith,
}
use codex_a2a.TaskStore.Store.{StoredTask}
use codex_a2a.TaskStore.Listing.{
  TokenCodec, search, start_of, test_at, after_cursor, decode_page_token, page_of, paginate_tasks,
}

module _ (f : ℕ → Bool) (m : ℕ) (below : (i : ℕ) → i < m → f i ≡ false)
    (above : (i : ℕ) → m ≤ i → f i ≡ true) where
  -- Binary search finds the place from which the test holds, in as many steps as the interval is
  -- long.
  search-first : (fuel i j : ℕ) → i ≤ m → m ≤ j → j ≤ fuel + i → search f fuel i j ≡ m
  unfolding search
  search-first zero i j p q r = omega arith
  search-first (suc fuel) i j p q r = elim (Bool-cases (ltb i j)) [
    | inl less ↦ elim (Bool-cases (f ((i + j) / 2))) [
      | inl here ↦
          rw (less, here)
            (search-first fuel i ((i + j) / 2) p (ground (arith, here, below ((i + j) / 2)))
              (ground (arith, less, r)))
      | inr there ↦
          rw (less, there)
            (search-first fuel (suc ((i + j) / 2)) j (ground (arith, there, above ((i + j) / 2))) q
              (ground (arith, less, r)))
    ]
    | inr empty ↦ rw empty (ground arith)
  ]

-- Every task of the list is on the given side of the cursor.
abbrev pub All : (StoredTask → Bool) → Bool → List StoredTask → Type 0
All f b [] = Unit {0}
All f b (t ∷ ts) = (f t ≡ b) × All f b ts

module _ (f : StoredTask → Bool) where
  tested_below :
      (front rest : List StoredTask)
      → All f false front
      → (i : ℕ) → i < length front
      → test_at f (get_elem? (front ++ rest) i) ≡ false
  tested_below [] rest a i h = absurd (omega arith)
  tested_below (t ∷ ts) rest a zero h = a.0
  tested_below (t ∷ ts) rest a (suc i) h = tested_below ts rest a.1 i (omega arith)

  tested_rest :
      (rest : List StoredTask) → All f true rest → (i : ℕ) → test_at f (get_elem? rest i) ≡ true
  tested_rest [] a i = refl
  tested_rest (t ∷ ts) a zero = a.0
  tested_rest (t ∷ ts) a (suc i) = tested_rest ts a.1 i

  tested_above :
      (front rest : List StoredTask)
      → All f true rest
      → (i : ℕ) → length front ≤ i
      → test_at f (get_elem? (front ++ rest) i) ≡ true
  tested_above [] rest a i h = tested_rest rest a i
  tested_above (t ∷ ts) rest a zero h = absurd (omega arith)
  tested_above (t ∷ ts) rest a (suc i) h = tested_above ts rest a i (omega arith)

  start_of-append :
      (front rest : List StoredTask)
      → All f false front
      → All f true rest
      → start_of f (front ++ rest) ≡ length front
  start_of-append front rest a b =
      search-first _ (length front) (tested_below front rest a) (tested_above front rest b)
        (length (front ++ rest)) 0 (length (front ++ rest)) (omega arith)
        (omega (arith, length-append front rest)) (omega arith)

drop-append : (front rest : List StoredTask) → drop (length front) (front ++ rest) ≡ rest
drop-append [] rest = refl
drop-append (t ∷ ts) rest = drop-append ts rest

-- Two lists are in the order of the cursor `last`: what it comes after, itself included, and what
-- comes after it.
abbrev pub IsCut : StoredTask → List StoredTask → List StoredTask → Type 0
IsCut last front rest =
    All (after_cursor last.last_updated last.task.id) false front
    × All (after_cursor last.last_updated last.task.id) true rest

module _ (codec : TokenCodec) where
  -- The token of a page says which task was the last one.
  abbrev pub IsTokenOf : String → StoredTask → Type 0
  IsTokenOf token last =
      (token ≢ "") × (decode_page_token codec token ≡ ok (last.last_updated, last.task.id))

  -- Where the tasks up to the last one of a page are followed by the tasks after it, its token
  -- leads to a page that starts right behind it, without a gap or a repetition.
  pub paginate_tasks-token :
      (front rest : List StoredTask) (last : StoredTask) (size : ℕ) (token : String)
      → IsCut last front rest
      → IsTokenOf token last
      → paginate_tasks codec (front ++ rest) size token ≡ ok (page_of codec size rest)
  unfolding paginate_tasks
  paginate_tasks-token front rest last size token (before, after) (given, decoded) =
      rw
        (
          ==_ne token "" given,
          decoded,
          start_of-append (after_cursor last.last_updated last.task.id) front rest before after,
          drop-append front rest,
        )
        refl
