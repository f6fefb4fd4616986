-- ===== src/TaskStore/Listing.antt =====
-- internal/service/taskstore.go, lines 124 to 147 and 196 to 245: the order and the pages of a list.
use Prim.Native.Char.{Char}
use Prim.Native.String.{String, ◌++◌, compare}
use text.Mathlib.Text.{is_lt}
use codex_a2a.Base.{
  ℕ, zero, suc, ◌-◌, ◌+◌, ◌/◌, Bool, true, false, not, ◌&&◌, ◌||◌, Option, none, some, List, [],
  ◌∷◌, Error, Result, ok, err, panic, ◌==◌, ltb, leb, eqb, if◌then◌else◌, length, take, drop,
  get_elem?,
}
use codex_a2a.TaskStore.Store.{Task, StoredTask, StoreError, parse_error, failed, Store}

-- An `int`, of which the program only asks whether it is negative.
pub data GoInt : Type 0 where
  nonnegative : ℕ → GoInt
  negative : GoInt

-- `a2a.ListTasksRequest`; the unspecified status is "".
pub record ListRequest : Type 0 where
  pub context_id : String
  pub status : String
  pub page_size : GoInt
  pub page_token : String
  pub history_length : Option GoInt
  pub status_after : Option ℕ
  pub include_artifacts : Bool

pub record ListResponse : Type 0 where
  pub tasks : List Task
  pub total_size : ℕ
  pub page_size : ℕ
  pub next_page_token : String

-- The packages time and encoding/base64, as `encodePageToken` and `decodePageToken` use them.
pub record TokenCodec : Type 0 where
  pub format_time : ℕ → String
  pub parse_time : String → Option ℕ
  pub encode : String → String
  pub decode : String → Result Error String

abbrev before_time : Option ℕ → ℕ → Bool
before_time none updated = false
before_time (some limit) updated = ltb updated limit

-- The tests of the loop that fills `filtered`.
unfoldable pub matches : String → ListRequest → StoredTask → Bool
matches user req stored =
    (stored.user == user)
    && ((req.context_id == "" || stored.task.context_id == req.context_id)
        && ((req.status == "" || stored.task.state == req.status)
            && not (before_time req.status_after stored.last_updated)))

unfoldable pub filter_tasks : String → ListRequest → Store → List StoredTask
filter_tasks user req [] = []
filter_tasks user req ((id, stored) ∷ entries) =
    let rest = filter_tasks user req entries in
    if matches user req stored then stored ∷ rest else rest

-- strings.Compare(s, t) < 0
abbrev id_less : String → String → Bool
id_less s t = is_lt (compare s t)

-- The order of the list: the last update first, then the greater id.
unfoldable pub listed_before : StoredTask → StoredTask → Bool
listed_before a b =
    if eqb a.last_updated b.last_updated
    then id_less b.task.id a.task.id
    else ltb b.last_updated a.last_updated

unfoldable pub place : StoredTask → List StoredTask → List StoredTask
unfolding listed_before
place x [] = x ∷ []
place x (y ∷ ys) = let rest = place x ys in if listed_before x y then x ∷ y ∷ ys else y ∷ rest

-- `sort.Slice`: as ids differ, there is one list in that order.
unfoldable pub sort_tasks : List StoredTask → List StoredTask
unfolding place
sort_tasks [] = []
sort_tasks (x ∷ xs) = place x (sort_tasks xs)

-- The test of `sort.Search`: the task comes after the cursor.
unfoldable pub after_cursor : ℕ → String → StoredTask → Bool
after_cursor time id stored =
    if ltb stored.last_updated time
    then true
    else if ltb time stored.last_updated
    then false
    else id_less stored.task.id id

abbrev pub test_at : (StoredTask → Bool) → Option StoredTask → Bool
test_at f none = true
test_at f (some stored) = f stored

-- `sort.Search`: the interval [i, j) is halved while it is not empty; it shrinks at each step, so
-- that its length is enough fuel.
unfoldable pub search : (ℕ → Bool) → ℕ → ℕ → ℕ → ℕ
search f zero i j = i
search f (suc fuel) i j =
    let h = (i + j) / 2 in
    let left = search f fuel i h in
    let right = search f fuel (suc h) j in if ltb i j then (if f h then left else right) else i

abbrev pub start_of : (StoredTask → Bool) → List StoredTask → ℕ
start_of f tasks = search (λ i. test_at f (get_elem? tasks i)) (length tasks) 0 (length tasks)

-- A character in front of the first part.
abbrev pub cons_first : Char → List String → List String
cons_first c [] = String.◌∷◌ c "" ∷ []
cons_first c (part ∷ parts) = String.◌∷◌ c part ∷ parts

-- strings.Split(text, "_")
unfoldable pub split_underscore : String → List String
split_underscore String.[] = "" ∷ []
split_underscore (String.◌∷◌ c s) =
    let rest = split_underscore s in if String.◌∷◌ c "" == "_" then "" ∷ rest else cons_first c rest

module _ (codec : TokenCodec) where
  unfoldable pub encode_page_token : ℕ → String → String
  encode_page_token time id = codec.encode (codec.format_time time ++ ("_" ++ id))

  abbrev token_time : Option ℕ → String → Result StoreError (ℕ × String)
  token_time none id = err parse_error
  token_time (some time) id = ok (time, id)

  abbrev pub token_parts : List String → Result StoreError (ℕ × String)
  token_parts (when ∷ id ∷ []) = token_time (codec.parse_time when) id
  token_parts _ = err parse_error

  abbrev token_decoded : Result Error String → Result StoreError (ℕ × String)
  token_decoded (ok decoded) = token_parts (split_underscore decoded)
  token_decoded (err e) = err (failed e)
  token_decoded panic = panic

  unfoldable pub decode_page_token : String → Result StoreError (ℕ × String)
  unfolding split_underscore
  decode_page_token token = token_decoded (codec.decode token)

  abbrev pub last_token : Option StoredTask → String
  last_token none = ""
  last_token (some last) = encode_page_token last.last_updated last.task.id

  -- The first page of the tasks, and the token of the next one.
  abbrev pub page_of : ℕ → List StoredTask → List StoredTask × String
  page_of size page =
      if leb (length page) size
      then (page, "")
      else (take size page, last_token (get_elem? page (size - 1)))

  abbrev pub page_from :
      ℕ
      → List StoredTask
      → Result StoreError (ℕ × String)
      → Result StoreError (List StoredTask × String)
  page_from size tasks (ok (time, id)) =
      ok (page_of size (drop (start_of (after_cursor time id) tasks) tasks))
  page_from size tasks (err e) = err e
  page_from size tasks panic = panic

  unfoldable pub paginate_tasks :
      List StoredTask → ℕ → String → Result StoreError (List StoredTask × String)
  unfolding after_cursor encode_page_token
  paginate_tasks tasks size token =
      if token == ""
      then ok (page_of size tasks)
      else page_from size tasks (decode_page_token token)
