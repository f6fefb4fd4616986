-- ===== src/MockResponses.antt =====
-- internal/service/mock_responses.go: a Responses endpoint that answers every request alike.
pub mod Numbers
use Prim.Native.String.{◌++◌}
use Prim.Native.Nat.{◌%◌, ◌^◌}
use codex_a2a.Base.{
  ℕ, zero, suc, ◌+◌, ◌-◌, ◌≤◌, ◌<◌, String, ◌≡◌, refl, sym, ap, ◌∙◌, inl, inr, ◌⊎◌, Bool, true,
  false, not, ◌||◌, Bool-cases, Option, none, some, Option-cases, List, [], ◌∷◌, Error, errorf,
  error_text, Result, ok, err, panic, ◌>>=◌, wrap_err, wrap_err-ok, bind-ok, ◌==◌, arith, length,
  if◌then◌else◌,
}
use codex_a2a.Base.Maps.{Map, lookup, insert}
use codex_a2a.Base.Text.{decimal, quote}
use codex_a2a.Value.{Value, Fields, str, arr, obj, cons, nil, field, end}

-- JSON objects, as Go's library writes and reads them.
pub record ObjectJson : Type 0 where
  pub marshal : Map Value → Result Error String
  pub unmarshal : String → Result Error (Map Value)

abbrev pub is_text : Option Value → Bool
is_text (some (str s)) = true
is_text _ = false

abbrev pub message_item : String → Map Value
message_item text =
    ("type", str "message")
    ∷ ("role", str "assistant")
    ∷ (
      "content",
      arr (cons (obj (field "type" (str "output_text") (field "text" (str text) end))) nil),
    )
    ∷ []

abbrev pub checked_item : Map Value → Result Error (Map Value)
checked_item [] = err (errorf "mock responses item JSON must decode to a non-empty object")
checked_item (entry ∷ entries) =
    if is_text (lookup "type" (entry ∷ entries))
    then ok (entry ∷ entries)
    else err (errorf "mock responses item JSON must contain a string type field")

-- What `ServeHTTP` reads of a request, and what it writes.
pub record MockRequest : Type 0 where
  pub method : String
  pub path : String
  pub raw_query : String
  pub body : Result Error Unit

pub data Written : Type 0 where
  http_error : (message : String) → (status : ℕ) → Written
  event_stream : (body : String) → Written

abbrev pub add_uint64 : ℕ → ℕ
add_uint64 n = (n + 1) % 2 ^ 64

-- The texts of the three events.
unfoldable pub stream_body : String → String → String
stream_body id item_json =
    "event: response.created\n"
    ++ ("data: {\"type\":\"response.created\",\"response\":{\"id\":"
        ++ (quote id
            ++ ("}}\n\n"
                ++ ("event: response.output_item.done\n"
                    ++ ("data: {\"type\":\"response.output_item.done\",\"output_index\":0,\"item\":"
                        ++ (item_json
                            ++ ("}\n\n"
                                ++ ("event: response.completed\n"
                                    ++ ("data: {\"type\":\"response.completed\",\"response\":{\"id\":"
                                        ++ (quote id
                                            ++ (",\"status\":\"completed\",\"output\":["
                                                ++ (item_json ++ "]}}\n\n"))))))))))))

module _ (json : ObjectJson) where
  -- `mockResponsesItem`
  unfoldable pub mock_responses_item : String → String → Result Error (Map Value)
  mock_responses_item text item_json =
      if item_json == ""
      then ok (message_item text)
      else (wrap_err "decode mock responses item JSON" (json.unmarshal item_json) >>= checked_item)

  -- `cloneJSONMap`
  abbrev pub clone_json_map : Map Value → Result Error (Map Value)
  clone_json_map input = json.marshal input >>= λ blob. json.unmarshal blob

  abbrev pub numbered : Option Value → ℕ → Map Value → Map Value
  numbered (some id) n item = item
  numbered none n item = insert "id" (str ("item-" ++ decimal n)) item

  abbrev pub encoded : ℕ → Result Error String → Result Error (ℕ × Written)
  encoded id (ok text) = ok (id, event_stream (stream_body ("resp-" ++ decimal id) text))
  encoded id (err e) = ok (id, http_error ("encode response item: " ++ error_text e) 500)
  encoded id panic = panic

  abbrev pub cloned : ℕ → Result Error (Map Value) → Result Error (ℕ × Written)
  cloned counter (ok item) =
      let id = add_uint64 counter in encoded id (json.marshal (numbered (lookup "id" item) id item))
  cloned counter (err e) =
      ok (counter, http_error ("clone mock response item: " ++ error_text e) 500)
  cloned counter panic = panic

  abbrev pub with_body : ℕ → Map Value → Result Error Unit → Result Error (ℕ × Written)
  with_body counter item (ok u) = cloned counter (clone_json_map item)
  with_body counter item (err e) =
      ok (counter, http_error ("read request body: " ++ error_text e) 400)
  with_body counter item panic = panic

  -- `ServeHTTP` of a handler that holds this item: the counter after it, and what is written.
  unfoldable pub serve_mock : Map Value → ℕ → MockRequest → Result Error (ℕ × Written)
  serve_mock item counter req =
      let served = with_body counter item req.body in
      if not (req.method == "POST")
        || not (req.path == "/v1/responses")
        || not (req.raw_query == "")
      then ok (counter, http_error "forbidden" 403)
      else served

-- `NewMockResponsesHandler`: the counter starts at 0.
pub record MockHandler : Type 0 where
  pub counter : ℕ
  pub item : Map Value

unfoldable pub new_mock_responses_handler : ObjectJson → String → String → Result Error MockHandler
new_mock_responses_handler json text item_json =
    mock_responses_item json text item_json >>= λ item. ok (record { counter = 0; item = item })
