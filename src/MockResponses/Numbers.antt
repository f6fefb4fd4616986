-- ===== src/MockResponses/Numbers.antt =====
-- internal/service/mock_responses.go: the item that is served and the numbers of the responses.
use Prim.Native.String.{◌++◌}
use Prim.Native.Nat.{◌^◌}
use codex_a2a.Base.{
  ℕ, suc, ◌+◌, ◌≤◌, ◌<◌, String, ◌≡◌, refl, inl, inr, ◌⊎◌, true, not, ◌||◌, Bool-cases, Option,
  none, some, [], ◌∷◌, Error, Result, ok, err, panic, wrap_err, bind-ok, ◌==◌, arith,
}
use codex_a2a.Base.Maps.{Map, lookup}
use codex_a2a.Base.Text.{decimal}
use codex_a2a.Value.{Value, str, null, bool, num, raw, arr, obj}
use codex_a2a.MockResponses.{
  ObjectJson, MockRequest, Written, event_stream, http_error, add_uint64, stream_body,
  mock_responses_item, checked_item, is_text, message_item, clone_json_map, numbered, encoded,
  cloned, with_body, serve_mock,
}

text_value : (v : Option Value) → is_text v ≡ true → (t : String) × (v ≡ some (str t))
text_value (some (str s)) h = (s, refl)
text_value (some null) h = ground (arith, h)
text_value (some (bool b)) h = ground (arith, h)
text_value (some (num n)) h = ground (arith, h)
text_value (some (raw r)) h = ground (arith, h)
text_value (some (arr vs)) h = ground (arith, h)
text_value (some (obj fs)) h = ground (arith, h)
text_value none h = ground (arith, h)

checked-text :
    (read item : Map Value)
    → checked_item read ≡ ok item
    → (t : String) × (lookup "type" item ≡ some (str t))
checked-text [] item h = ground (arith, h)
checked-text (entry ∷ entries) item h =
    elim (Bool-cases (is_text (lookup "type" (entry ∷ entries)))) [
      | inl q ↦
          (let same : (entry ∷ entries) ≡ item = ground (arith, rw q at h) in
            rw (← same) (text_value (lookup "type" (entry ∷ entries)) q))
      | inr q ↦ ground (arith, rw q at h)
    ]

module _ (json : ObjectJson) where
  -- An item that `NewMockResponsesHandler` accepts has a type that is a text, whether it is made from
  -- the response text or decoded from JSON.
  pub mock_responses_item-type :
      (text item_json : String) (item : Map Value)
      → mock_responses_item json text item_json ≡ ok item
      → (t : String) × (lookup "type" item ≡ some (str t))
  unfolding mock_responses_item lookup
  mock_responses_item-type text item_json item h = elim (Bool-cases (item_json == "")) [
    | inl q ↦
        (let same : message_item text ≡ item = ground (arith, rw q at h) in
          rw (← same) ("message", refl))
    | inr q ↦
        (let (read, decoded, kept) =
            bind-ok (wrap_err "decode mock responses item JSON" (json.unmarshal item_json)) _ item
              (rw q at h) in
          checked-text read item kept)
  ]

  module _ (item : Map Value) where
    -- A number of requests that the handler serves one after the other.
    pub data Served (c : ℕ) : ℕ → ℕ → Type 0 where
      idle : Served c 0 c
      next :
          {n d e : ℕ} {w : Written} (req : MockRequest)
          → Served c n d
          → serve_mock json item d req ≡ ok (e, w)
          → Served c (suc n) e

    -- What a request does to the counter, and what it is answered with.
    abbrev IsCounted : ℕ → ℕ × Written → Type 0
    IsCounted c (d, event_stream body) =
        (d ≡ add_uint64 c) × ((text : String) × (body ≡ stream_body ("resp-" ++ decimal d) text))
    IsCounted c (d, http_error message status) = (d ≡ c) ⊎ (d ≡ add_uint64 c)

    abbrev IfOk : ℕ → Result Error (ℕ × Written) → Type 0
    IfOk c (ok served) = IsCounted c served
    IfOk c (err e) = Unit {0}
    IfOk c panic = Unit {0}

    encoded-IfOk : (c : ℕ) (r : Result Error String) → IfOk c (encoded json (add_uint64 c) r)
    encoded-IfOk c (ok text) = (refl, (text, refl))
    encoded-IfOk c (err e) = inr refl
    encoded-IfOk c panic = tt

    cloned-IfOk : (c : ℕ) (r : Result Error (Map Value)) → IfOk c (cloned json c r)
    cloned-IfOk c (ok copy) =
        encoded-IfOk c (json.marshal (numbered json (lookup "id" copy) (add_uint64 c) copy))
    cloned-IfOk c (err e) = inl refl
    cloned-IfOk c panic = tt

    with_body-IfOk : (c : ℕ) (r : Result Error Unit) → IfOk c (with_body json c item r)
    with_body-IfOk c (ok u) = cloned-IfOk c (clone_json_map json item)
    with_body-IfOk c (err e) = inl refl
    with_body-IfOk c panic = tt

    serve_mock-IfOk : (c : ℕ) (req : MockRequest) → IfOk c (serve_mock json item c req)
    unfolding serve_mock
    serve_mock-IfOk c req =
        elim (Bool-cases (
          not (req.method == "POST")
          || not (req.path == "/v1/responses")
          || not (req.raw_query == ""))) [
            | inl q ↦ rw q (inl refl)
            | inr q ↦ rw q (with_body-IfOk c req.body)
          ]

    served :
        (c d : ℕ) (w : Written) (req : MockRequest)
        → serve_mock json item c req ≡ ok (d, w)
        → IsCounted c (d, w)
    served c d w req h = rw h at (serve_mock-IfOk c req)

    counter_grows :
        (c d : ℕ) (w : Written) → c + 1 < 2 ^ 64 → IsCounted c (d, w) → (c ≤ d) × (d ≤ c + 1)
    counter_grows c d (event_stream body) small (e, rest) = ground (arith, e, small)
    counter_grows c d (http_error message status) small (inl e) = ground (arith, e)
    counter_grows c d (http_error message status) small (inr e) = ground (arith, e, small)

    Served-bounds : (c n d : ℕ) → c + n < 2 ^ 64 → Served c n d → (c ≤ d) × (d ≤ c + n)
    Served-bounds c n d small idle = omega arith
    Served-bounds c n e small (next {n = m} {d = d} {w = w} req first h) =
        let before = Served-bounds c m d (omega (arith, small)) first in
        let grown = counter_grows d e w (omega (arith, before, small)) (served d e w req h) in
        omega (arith, before, grown)

    -- Where two requests to a handler are answered with streams, `n` others are served in between,
    -- and the counter before the first, `n` and 2 are less than 2^64 in sum, each stream has the
    -- counter after its request as the number of its response id, and the second number is greater.
    pub serve_mock-numbers :
        (c c' n d d' : ℕ) (first second : MockRequest) (before after : String)
        → c + n + 2 < 2 ^ 64
        → serve_mock json item c first ≡ ok (c', event_stream before)
        → Served c' n d
        → serve_mock json item d second ≡ ok (d', event_stream after)
        → (c' < d')
          × ((text : String) × (before ≡ stream_body ("resp-" ++ decimal c') text))
          × ((text : String) × (after ≡ stream_body ("resp-" ++ decimal d') text))
    serve_mock-numbers c c' n d d' first second before after small one between two =
        let (counted, (text, same)) = served c c' (event_stream before) first one in
        let (counted', (text', same')) = served d d' (event_stream after) second two in
        let apart = Served-bounds c' n d (ground (arith, counted, small)) between in
        (ground (arith, counted, counted', apart, small), (text, same), (text', same'))
