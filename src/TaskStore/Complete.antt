-- ===== src/TaskStore/Complete.antt =====
-- A client that follows the page tokens of `List`, on a store that requests have written.
use Prim.Native.Char.{Char}
use Prim.Native.String.{◌++◌ as text_append}
use mathlib.Core.List.{◌++◌, Perm}
use text.Mathlib.TextLemmas.{nil-append, cons-append}
use codex_a2a.Base.{
  ℕ, suc, String, ◌≡◌, ◌≢◌, sym, ◌∙◌, subst, Bool, true, false, List, [], ◌∷◌, ok, some, length,
}
use codex_a2a.TaskStore.Store.{StoredTask, Store, TaskJson}
use codex_a2a.TaskStore.Listing.{
  TokenCodec, ListRequest, filter_tasks, sort_tasks, listed_before, encode_page_token,
}
use codex_a2a.TaskStore.Tokens.{one-append, has_underscore, decode_page_token-encode}
use codex_a2a.TaskStore.Pages.{All, IsCut, IsTokenOf}
use codex_a2a.TaskStore.Cover.{IsListed, list_pages, list_pages-all}
use codex_a2a.TaskStore.Request.{page_size_of, check_history, copy_page}
use codex_a2a.TaskStore.Order.{
  All-map, IsSorted, after_cursor-listed_before, listed_before_irrefl, listed_before_asym,
  sort_tasks-All, sort_tasks-IsSorted, sort_tasks-perm,
}
use codex_a2a.TaskStore.Keyed.{KeepsId, Written, Written-IsKeyed, filter_tasks-IsDistinct}

-- base64 reads back what it wrote and writes no token as nothing; a time is read back as it was
-- written, without an underscore.
pub record IsFaithful (codec : TokenCodec) : Type 0 where
  pub decodes : (text : String) → codec.decode (codec.encode text) ≡ ok text
  pub nonempty : (text : String) → text ≢ "" → codec.encode text ≢ ""
  pub parses : (time : ℕ) → codec.parse_time (codec.format_time time) ≡ some time
  pub plain : (time : ℕ) → has_underscore (codec.format_time time) ≡ false

All-split :
    (f : StoredTask → Bool) (b : Bool) (xs ys : List StoredTask)
    → All f b (xs ++ ys)
    → All f b xs × All f b ys
All-split f b [] ys a = (tt, a)
All-split f b (x ∷ xs) ys a = let (l, r) = All-split f b xs ys a.1 in ((a.0, l), r)

All-here :
    (f : StoredTask → Bool) (b : Bool) (front : List StoredTask) (last : StoredTask)
    (rest : List StoredTask)
    → All f b ((front ++ last ∷ []) ++ rest)
    → f last ≡ b
All-here f b front last rest a =
    (All-split f b front (last ∷ []) (All-split f b (front ++ last ∷ []) rest a).0).1.0

IsSorted-split :
    (front : List StoredTask) (last : StoredTask) (rest : List StoredTask)
    → IsSorted ((front ++ last ∷ []) ++ rest)
    → IsCut last (front ++ last ∷ []) rest
IsSorted-split [] last rest h = (
  (after_cursor-listed_before last last ∙ listed_before_irrefl last, tt),
  All-map rest (λ t e. after_cursor-listed_before last t ∙ e) h.0,
)
IsSorted-split (x ∷ front) last rest h =
    let (below, above) = IsSorted-split front last rest h.1 in
    (
      (
        after_cursor-listed_before last x
            ∙ listed_before_asym x last (All-here (listed_before x) true front last rest h.0),
        below,
      ),
      above,
    )

cons-ne-empty : (c : Char) (t : String) → String.◌∷◌ c t ≢ ""
cons-ne-empty c t e = cc e

underscored-ne-empty : (s t : String) → text_append s (text_append "_" t) ≢ ""
underscored-ne-empty String.[] t e =
    cons-ne-empty _ t (sym (nil-append (text_append "_" t) ∙ one-append _ t) ∙ e)
underscored-ne-empty (String.◌∷◌ c s) t e = cc (cons-append c s (text_append "_" t), e)

module _ (codec : TokenCodec) (faithful : IsFaithful codec) where
  encode_page_token-IsTokenOf :
      (last : StoredTask)
      → has_underscore last.task.id ≡ false
      → IsTokenOf codec (encode_page_token codec last.last_updated last.task.id) last
  encode_page_token-IsTokenOf last h = (
    unfold encode_page_token in
        faithful.nonempty _
          (underscored-ne-empty (codec.format_time last.last_updated) last.task.id),
    rw h at (
        decode_page_token-encode codec last.last_updated last.task.id faithful.decodes
          (faithful.parses last.last_updated) (faithful.plain last.last_updated)),
  )

  sorted-IsListed :
      (tasks : List StoredTask)
      → IsSorted tasks
      → All (λ t. has_underscore t.task.id) false tasks
      → IsListed codec tasks
  sorted-IsListed tasks sorted plain front last rest e = (
    IsSorted-split front last rest (subst IsSorted e sorted),
    encode_page_token-IsTokenOf last (
        All-here (λ t. has_underscore t.task.id) false front last rest
          (subst (λ ts. All (λ t. has_underscore t.task.id) false ts) e plain)),
  )

  -- Where a copy of a task has the task's id, base64 and the times are read back as they were written,
  -- and the clock's reading that sorts the tasks is the one that a token tells: in a store that requests
  -- have written in any order, a client that calls `List` with a valid page size and history length and
  -- follows the tokens of the responses, one call more than there are tasks, reads the copies of exactly
  -- the tasks of its user that match, each once, the last update first and equal times by descending id,
  -- provided that no id of theirs has an underscore. Where a task cannot be copied it gets that error.
  pub list_pages_complete :
      (json : TaskJson) (s : Store) (user : String) (req : ListRequest) (k : ℕ)
      → page_size_of req.page_size ≡ ok (suc k)
      → check_history req.history_length ≡ ok tt
      → KeepsId json
      → Written json s
      → All (λ t. has_underscore t.task.id) false (filter_tasks user req s)
      → (tasks : List StoredTask) × Perm tasks (filter_tasks user req s)
        × IsSorted tasks
        × (list_pages json codec user req s (suc (length tasks)) ""
            ≡ copy_page json codec req tasks)
  list_pages_complete json s user req k size history keeps written plain =
      let found = filter_tasks user req s in
      let sorted =
        sort_tasks-IsSorted found
          (filter_tasks-IsDistinct user req s (Written-IsKeyed json s keeps written)) in
      (
        sort_tasks found,
        sort_tasks-perm found,
        sorted,
        list_pages-all json codec user req s k size history (
            sorted-IsListed (sort_tasks found) sorted
              (sort_tasks-All (λ t. has_underscore t.task.id) false found plain)),
      )
