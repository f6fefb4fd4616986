-- ===== src/TaskStore/Cover.antt =====
-- The pages that a client reads one after the other.
use Prim.Native.String.{String}
use mathlib.Core.List.{◌++◌, append-nil, append_assoc}
use codex_a2a.Base.{
  ℕ, zero, suc, ◌-◌, ◌≤◌, ◌<◌, ◌≡◌, refl, sym, ap, ◌∙◌, inl, inr, false, Bool-cases, some, List, [],
  ◌∷◌, Result, Result-cases, ok, ◌>>=◌, ◌==◌, ==_ne, leb, if◌then◌else◌, length, take, drop,
  get_elem?, length-drop, take-append-drop, arith,
}
use codex_a2a.TaskStore.Store.{Task, StoredTask, StoreError, Store, TaskJson, clone_task}
use codex_a2a.TaskStore.Listing.{
  ListRequest, ListResponse, TokenCodec, filter_tasks, matches, sort_tasks, encode_page_token,
  page_of, paginate_tasks, last_token,
}
use codex_a2a.TaskStore.Request.{page_size_of, check_history, trim_task, copy_page, list}
use codex_a2a.TaskStore.Pages.{IsCut, IsTokenOf, paginate_tasks-token}

module _ (json : TaskJson) (codec : TokenCodec) (user : String) (req : ListRequest)
    (s : Store) where
  abbrev pub with_token : String → ListRequest
  with_token token = record req { page_token = token }

  -- The tasks of a response, and of those that its token leads to.
  abbrev pub follow :
      (String → Result StoreError (List Task))
      → Result StoreError ListResponse
      → Result StoreError (List Task)
  follow next found = do
    resp ← found
    rest ← if resp.next_page_token == "" then ok [] else next resp.next_page_token
    ok (resp.tasks ++ rest)

  -- What a client reads that calls `List` with this token and follows the tokens of the responses, for a
  -- number of calls.
  unfoldable pub list_pages : ℕ → String → Result StoreError (List Task)
  unfolding list
  list_pages zero token = ok []
  list_pages (suc n) token = follow (list_pages n) (list json codec user (with_token token) s)

  filter_tasks_token :
      (token : String) (entries : Store)
      → filter_tasks user (with_token token) entries ≡ filter_tasks user req entries
  unfolding filter_tasks matches
  filter_tasks_token token [] = refl
  filter_tasks_token token ((id, stored) ∷ entries) = rw (filter_tasks_token token entries) refl

  copy_page_token :
      (token : String) (page : List StoredTask)
      → copy_page json codec (with_token token) page ≡ copy_page json codec req page
  unfolding copy_page trim_task
  copy_page_token token [] = refl
  copy_page_token token (stored ∷ page) = rw (copy_page_token token page) refl

  -- The end of `List`, on a page with its token.
  abbrev pub response : ℕ → List StoredTask × String → Result StoreError ListResponse
  response size page = copy_page json codec req page.0 >>= λ tasks. ok (record {
    tasks = tasks;
    total_size = length (filter_tasks user req s);
    page_size = size;
    next_page_token = page.1;
  })

  list_token :
      (token : String) (k : ℕ) (page : List StoredTask × String)
      → page_size_of req.page_size ≡ ok (suc k)
      → check_history req.history_length ≡ ok tt
      → paginate_tasks codec (sort_tasks (filter_tasks user req s)) (suc k) token ≡ ok page
      → list json codec user (with_token token) s ≡ response (suc k) page
  unfolding list
  list_token token k page size history found =
      rw (size, history, filter_tasks_token token s, found, copy_page_token token page.0) refl

  -- Copies of two lists, one after the other.
  abbrev copies_then :
      List StoredTask → Result StoreError (List Task) → Result StoreError (List Task)
  copies_then front rest = do
    before ← copy_page json codec req front
    after ← rest
    ok (before ++ after)

  copy_page-append :
      (front rest : List StoredTask)
      → copy_page json codec req (front ++ rest) ≡ copies_then front (copy_page json codec req rest)
  unfolding copy_page
  copy_page-append [] rest = elim (Result-cases (copy_page json codec req rest)) [
    | inl (after, q) ↦ rw q refl
    | inr (inl (e, q)) ↦ rw q refl
    | inr (inr q) ↦ rw q refl
  ]
  copy_page-append (x ∷ front) rest = elim (Result-cases (clone_task json x.task)) [
    | inl (t, q) ↦ elim (Result-cases (copy_page json codec req front)) [
      | inl (before, p) ↦ elim (Result-cases (copy_page json codec req rest)) [
        | inl (after, r) ↦ rw (q, copy_page-append front rest, p, r) refl
        | inr (inl (e, r)) ↦ rw (q, copy_page-append front rest, p, r) refl
        | inr (inr r) ↦ rw (q, copy_page-append front rest, p, r) refl
      ]
      | inr (inl (e, p)) ↦ rw (q, copy_page-append front rest, p) refl
      | inr (inr p) ↦ rw (q, copy_page-append front rest, p) refl
    ]
    | inr (inl (e, q)) ↦ rw q refl
    | inr (inr q) ↦ rw q refl
  ]

  last_response :
      (next : String → Result StoreError (List Task)) (size : ℕ) (page : List StoredTask)
      → follow next (response size (page, "")) ≡ copy_page json codec req page
  last_response next size page = elim (Result-cases (copy_page json codec req page)) [
    | inl (tasks, q) ↦ rw (q, append-nil tasks) refl
    | inr (inl (e, q)) ↦ rw q refl
    | inr (inr q) ↦ rw q refl
  ]

  next_response :
      (next : String → Result StoreError (List Task)) (size : ℕ) (page : List StoredTask)
      (token : String)
      → (token == "") ≡ false
      → follow next (response size (page, token)) ≡ copies_then page (next token)
  next_response next size page token given = elim (Result-cases (copy_page json codec req page)) [
    | inl (tasks, q) ↦ rw (q, given) refl
    | inr (inl (e, q)) ↦ rw q refl
    | inr (inr q) ↦ rw q refl
  ]

-- The last task of a page that is full.
last_of :
    (n : ℕ) (xs : List StoredTask)
    → n < length xs
    → (init : List StoredTask) × (last : StoredTask) × (take (suc n) xs ≡ init ++ last ∷ [])
      × (get_elem? xs n ≡ some last)
last_of n [] h = absurd (omega (arith, h))
last_of zero (x ∷ xs) h = ([], x, refl, refl)
last_of (suc n) (x ∷ xs) h =
    let (init, last, full, there) = last_of n xs (omega (arith, h)) in
    (x ∷ init, last, ap (◌∷◌ x) full, there)

-- A list in the order of listing, whose tasks all have tokens that can be read back.
abbrev pub IsListed : TokenCodec → List StoredTask → Type 0
IsListed codec tasks =
    (front : List StoredTask) (last : StoredTask) (rest : List StoredTask)
    → tasks ≡ (front ++ last ∷ []) ++ rest
    → IsCut last (front ++ last ∷ []) rest
      × IsTokenOf codec (encode_page_token codec last.last_updated last.task.id) last

-- A list that is cut in front of `rest`, whose first elements end with `last`.
cut_behind :
    (k : ℕ) (front rest init : List StoredTask) (last : StoredTask)
    → take (suc k) rest ≡ init ++ last ∷ []
    → front ++ rest ≡ ((front ++ init) ++ last ∷ []) ++ drop (suc k) rest
cut_behind k front rest init last full =
    ap (λ xs. front ++ xs) (sym (take-append-drop (suc k) rest))
    ∙ sym (append_assoc front (take (suc k) rest) (drop (suc k) rest))
    ∙ ap (λ xs. xs ++ drop (suc k) rest)
        (ap (λ xs. front ++ xs) full ∙ sym (append_assoc front init (last ∷ [])))

module _ (json : TaskJson) (codec : TokenCodec) (user : String) (req : ListRequest) (s : Store)
    (k : ℕ) (size : page_size_of req.page_size ≡ ok (suc k))
    (history : check_history req.history_length ≡ ok tt)
    (listed : IsListed codec (sort_tasks (filter_tasks user req s))) where
  -- With so many calls, what is read from a page on are copies of the rest of the list.
  abbrev Follows : ℕ → Type 0
  Follows n =
      (front rest : List StoredTask)
      → sort_tasks (filter_tasks user req s) ≡ front ++ rest
      → length rest ≤ n
      → follow json codec user req s (list_pages json codec user req s n)
          (response json codec user req s (suc k) (page_of codec (suc k) rest))
        ≡ copy_page json codec req rest

  -- A token leads to the page behind its task.
  called_page :
      (token : String) (n : ℕ) (rest : List StoredTask)
      → paginate_tasks codec (sort_tasks (filter_tasks user req s)) (suc k) token
        ≡ ok (page_of codec (suc k) rest)
      → list_pages json codec user req s (suc n) token
        ≡ follow json codec user req s
            (list_pages json codec user req s n)
            (response json codec user req s (suc k) (page_of codec (suc k) rest))
  unfolding list_pages
  called_page token n rest page =
      ap (follow json codec user req s (list_pages json codec user req s n))
        (list_token json codec user req s token k (page_of codec (suc k) rest) size history page)

  followed_full :
      (n : ℕ)
      → Follows n
      → (front rest : List StoredTask) → sort_tasks (filter_tasks user req s) ≡ front ++ rest
      → length rest ≤ suc n
      → leb (length rest) (suc k) ≡ false
      → follow json codec user req s (list_pages json codec user req s (suc n)) (
          response json codec user req s
            (suc k)
            (take (suc k) rest, last_token codec (get_elem? rest k)))
        ≡ copy_page json codec req rest
  followed_full n next front rest split enough more =
      let (init, last, full, there) = last_of k rest (ground (arith, more)) in
      let cut = split ∙ cut_behind k front rest init last full in
      let (ordered, given) = listed (front ++ init) last (drop (suc k) rest) cut in
      let token = encode_page_token codec last.last_updated last.task.id in
      let page =
        ap (λ ts. paginate_tasks codec ts (suc k) token) cut
        ∙ paginate_tasks-token codec ((front ++ init) ++ last ∷ []) (drop (suc k) rest) last (suc k)
            token ordered given in
      let later =
        called_page token n (drop (suc k) rest) page
        ∙ next ((front ++ init) ++ last ∷ []) (drop (suc k) rest) cut
            (ground (arith, enough, length-drop (suc k) rest)) in
      rw there (
        next_response json codec user req s (list_pages json codec user req s (suc n)) (suc k)
          (take (suc k) rest) token (==_ne token "" given.0)
        ∙ ap (copies_then json codec user req s (take (suc k) rest)) later
        ∙ sym (copy_page-append json codec user req s (take (suc k) rest) (drop (suc k) rest))
        ∙ ap (copy_page json codec req) (take-append-drop (suc k) rest))

  pred_suc : suc k - 1 ≡ k
  pred_suc = omega arith

  followed : (n : ℕ) → Follows n
  followed zero front rest split enough = elim (Bool-cases (leb (length rest) (suc k))) [
    | inl fits ↦ rw fits (last_response json codec user req s _ (suc k) rest)
    | inr more ↦ ground (arith, enough, more)
  ]
  followed (suc n) front rest split enough = elim (Bool-cases (leb (length rest) (suc k))) [
    | inl fits ↦ rw fits (last_response json codec user req s _ (suc k) rest)
    | inr more ↦ rw (more, pred_suc) (followed_full n (followed n) front rest split enough more)
  ]

  -- Where the tasks are in the order of listing and their tokens can be read back, a client that
  -- follows the tokens of `List` reads copies of every task once and in that order, when it makes
  -- one call more than there are tasks at most.
  pub list_pages-all :
      list_pages json codec user req s (suc (length (sort_tasks (filter_tasks user req s)))) ""
      ≡ copy_page json codec req (sort_tasks (filter_tasks user req s))
  unfolding paginate_tasks
  list_pages-all =
      let tasks = sort_tasks (filter_tasks user req s) in
      called_page "" (length tasks) tasks refl ∙ followed (length tasks) [] tasks refl (omega arith)
