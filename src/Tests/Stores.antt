-- ===== src/Tests/Stores.antt =====
-- The task store at concrete inputs.
use Prim.Native.Char.{nul}
use mathlib.Core.List.{Perm}
use codex_a2a.TaskStore.Cover.{list_pages}
use codex_a2a.TaskStore.Order.{IsSorted}
use codex_a2a.TaskStore.Keyed.{KeepsId, IsKeyed, Written, empty, creates, Written-IsKeyed}
use codex_a2a.TaskStore.Complete.{IsFaithful, list_pages_complete}
use codex_a2a.Base.{
  false, ℕ, zero, suc, ap, subst, length, String, eqb, if◌then◌else◌, ◌≡◌, refl, true, none, some,
  List, [], ◌∷◌, ok, err, ◌==◌, ==_iff, arith,
}
use codex_a2a.Base.Maps.{lookup, insert, remove}
use codex_a2a.TaskStore.Store.{
  Task, StoredTask, parse_error, task_not_found, concurrent_modification, Store, TaskJson,
  clone_task, create, update, get,
}
use codex_a2a.TaskStore.Listing.{
  ListRequest, ListResponse, nonnegative, filter_tasks, matches, TokenCodec, encode_page_token,
  decode_page_token,
}
use codex_a2a.TaskStore.Request.{page_size_of, copy_page}
use codex_a2a.TaskStore.Tokens.{has_underscore, decode_page_token-encode}
use codex_a2a.TaskStore.Ownership.{none_yet, then_updates, other-user}
use codex_a2a.TaskStore.Versions.{update-twice, update-get}
use codex_a2a.TaskStore.Pages.{All}

abbrev task_in : String → Task
task_in state = record {
  id = "t1";
  context_id = "c";
  state = state;
  history = [];
  artifacts = [];
  rest = "";
}

-- A task is written as its state.
abbrev json : TaskJson
json = record { marshal = λ t. ok t.state; unmarshal = λ s. ok (task_in s) }

abbrev stored_by : String → String → ℕ → ℕ → StoredTask
stored_by user state version time = record {
  task = task_in state;
  user = user;
  version = version;
  last_updated = time;
}

abbrev store : Store
store = ("t1", stored_by "ann" "working" 1 10) ∷ []

abbrev updated_store : Store
updated_store = ("t1", stored_by "ann" "done" 2 20) ∷ []

found : lookup "t1" store ≡ some (stored_by "ann" "working" 1 10)
unfolding lookup
found = refl

clones : (s : String) → clone_task json (task_in s) ≡ ok (task_in s)
unfolding clone_task
clones s = refl

other-user_example :
    (lookup "t1" (update json "bob" 20 (task_in "done") 0 store).1
      ≡ some (stored_by "ann" "working" 1 10))
    × (get json "bob" "t1" (update json "bob" 20 (task_in "done") 0 store).1 ≡ err task_not_found)
other-user_example =
    other-user json "bob" "t1" (stored_by "ann" "working" 1 10)
      (λ e. ground (arith, ==_iff "ann" "bob", e)) store
      (update json "bob" 20 (task_in "done") 0 store).1 found
      (then_updates 20 (task_in "done") 0 none_yet)

read_first : get json "ann" "t1" store ≡ ok (task_in "working", 1)
unfolding get lookup clone_task
read_first = refl

updated : update json "ann" 20 (task_in "done") 1 store ≡ (ok 2, updated_store)
unfolding update lookup insert remove clone_task
updated = refl

update-twice_example :
    update json "ann" 30 (task_in "late") 1 updated_store
    ≡ (err concurrent_modification, updated_store)
update-twice_example =
    update-twice json "ann" 20 30 (task_in "working") (task_in "done") (task_in "late")
      (task_in "late") 1 2 store updated_store (λ e. ground (arith, e)) read_first updated refl
      (clones "late")

update-get_example : get json "ann" "t1" updated_store ≡ ok (task_in "done", 2)
update-get_example =
    update-get json "ann" 20 (task_in "done") (task_in "done") (task_in "done") 1 2 store
      updated_store updated (clones "done") (clones "done")

-- Tokens that are written in the clear, with a time that is one digit.
abbrev tokens : TokenCodec
tokens = record {
  format_time = λ t. if eqb t 7 then "7" else "5";
  parse_time = λ s. if s == "7" then some 7 else some 5;
  encode = λ s. s;
  decode = λ s. ok s;
}

abbrev newer : StoredTask
newer = stored_by "ann" "working" 1 7

abbrev older : StoredTask
older = stored_by "ann" "working" 1 5

abbrev all_tasks : ListRequest
all_tasks = record {
  context_id = "";
  status = "";
  page_size = nonnegative 0;
  page_token = "";
  history_length = none;
  status_after = none;
  include_artifacts = true;
}

abbrev response : ListResponse
response = record {
  tasks = task_in "working" ∷ [];
  total_size = 1;
  page_size = 50;
  next_page_token = "";
}

-- The store with a task of another user.
abbrev shared_store : Store
shared_store =
    (
      "t2",
      record (stored_by "bob" "working" 1 12) { task = record (task_in "working") { id = "t2" } },
    )
    ∷ store

plain_time : has_underscore (tokens.format_time 7) ≡ false
unfolding has_underscore
plain_time = refl

-- The token of a task whose id has an underscore is refused.
decode_page_token-encode_example :
    decode_page_token tokens (encode_page_token tokens 7 "a_b")
    ≡ (if has_underscore "a_b" then err parse_error else ok (7, "a_b"))
decode_page_token-encode_example =
    decode_page_token-encode tokens 7 "a_b" (λ text. refl) refl plain_time

-- A time is written as so many characters.
abbrev strokes : ℕ → String
strokes zero = ""
strokes (suc n) = String.◌∷◌ nul (strokes n)

abbrev count_strokes : String → ℕ
count_strokes String.[] = zero
count_strokes (String.◌∷◌ c s) = suc (count_strokes s)

abbrev stroke_tokens : TokenCodec
stroke_tokens = record {
  format_time = strokes;
  parse_time = λ s. some (count_strokes s);
  encode = λ s. s;
  decode = λ s. ok s;
}

count-strokes : (n : ℕ) → count_strokes (strokes n) ≡ n
count-strokes zero = refl
count-strokes (suc n) = ap suc (count-strokes n)

strokes_plain : (n : ℕ) → has_underscore (strokes n) ≡ false
unfolding has_underscore
strokes_plain zero = refl
strokes_plain (suc n) = strokes_plain n

stroke_tokens-IsFaithful : IsFaithful stroke_tokens
stroke_tokens-IsFaithful = record {
  decodes = λ text. refl;
  nonempty = λ text given. given;
  parses = λ time. ap some (count-strokes time);
  plain = strokes_plain;
}

-- A task is written as its id.
abbrev named_task : String → Task
named_task id = record {
  id = id;
  context_id = "c";
  state = "working";
  history = [];
  artifacts = [];
  rest = "";
}

abbrev id_json : TaskJson
id_json = record { marshal = λ t. ok t.id; unmarshal = λ s. ok (named_task s) }

id_json-KeepsId : KeepsId id_json
unfolding clone_task
id_json-KeepsId task copy e = ground (arith, e)

abbrev named : String → ℕ → StoredTask
named id time = record { task = named_task id; user = "ann"; version = 1; last_updated = time }

abbrev two_tasks : Store
two_tasks = ("b", named "b" 7) ∷ ("a", named "a" 5) ∷ []

two_created :
    (create id_json "ann" 7 (named_task "b") (create id_json "ann" 5 (named_task "a") []).1).1
    ≡ two_tasks
unfolding create clone_task lookup insert remove
two_created = refl

two_tasks-Written : Written id_json two_tasks
two_tasks-Written =
    subst (Written id_json) two_created
      (creates "ann" 7 (named_task "b") (creates "ann" 5 (named_task "a") empty))

both_match : filter_tasks "ann" all_tasks two_tasks ≡ named "b" 7 ∷ named "a" 5 ∷ []
unfolding filter_tasks matches
both_match = refl

plain_ids : All (λ t. has_underscore t.task.id) false (filter_tasks "ann" all_tasks two_tasks)
unfolding filter_tasks matches has_underscore
plain_ids = (refl, (refl, tt))

all_sized : page_size_of all_tasks.page_size ≡ ok 50
unfolding page_size_of
all_sized = refl

list_pages_complete_example :
    (tasks : List StoredTask) × Perm tasks (filter_tasks "ann" all_tasks two_tasks)
    × IsSorted tasks
    × (list_pages id_json stroke_tokens "ann" all_tasks two_tasks (suc (length tasks)) ""
        ≡ copy_page id_json stroke_tokens all_tasks tasks)
list_pages_complete_example =
    list_pages_complete stroke_tokens stroke_tokens-IsFaithful id_json two_tasks "ann" all_tasks 49
      all_sized refl id_json-KeepsId two_tasks-Written plain_ids

Written-IsKeyed_example : IsKeyed two_tasks
Written-IsKeyed_example = Written-IsKeyed id_json two_tasks id_json-KeepsId two_tasks-Written
