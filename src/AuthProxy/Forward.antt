-- ===== src/AuthProxy/Forward.antt =====
-- internal/service/auth_proxy.go: the handler, with one retry.
use Prim.Native.String.{◌++◌}
use mathlib.Core.List.{◌++◌ as append}
use codex_a2a.Base.{
  ℕ, String, Bool, true, false, not, ◌||◌, Option, List, [], ◌∷◌, Error, errorf, error_text, Result,
  ok, err, panic, ◌>>=◌, ◌then_on◌, wrap_err, ◌==◌, eqb, ltb, if◌then◌else◌,
}
use codex_a2a.Base.Text.{quote}
use codex_a2a.AuthProxy.Auth.{
  ProxyAuth, ProxyAuthMethod, api_key, chatgpt, chatgpt_auth_tokens, retries_unauthorized,
}
use codex_a2a.AuthProxy.Headers.{Header, clone_forward_headers, copy_http_headers, set}

-- A `url.URL`: what the code reads of it.
pub record Url : Type 0 where
  pub scheme : String
  pub host : String
  pub text : String

unfoldable pub parse_auth_proxy_upstream :
    (String → Result Error Url) → String → String → Result Error Url
parse_auth_proxy_upstream parse name raw_url =
    wrap_err ("parse " ++ (name ++ " upstream URL")) (parse raw_url) >>= λ url.
    (if url.scheme == "" || url.host == ""
      then err (errorf (name ++ " upstream URL must include scheme and host"))
      else ok url)

pub record Handler : Type 0 where
  pub api_key_upstream_url : Url
  pub chatgpt_upstream_url : Url

-- `NewAuthProxyHandler`, with whether a token provider is given.
unfoldable pub new_auth_proxy_handler :
    (String → Result Error Url) → String → String → Bool → Result Error Handler
new_auth_proxy_handler parse api_key_url chatgpt_url has_auth =
    if has_auth
    then (parse_auth_proxy_upstream parse "API key" api_key_url >>= λ first.
        (parse_auth_proxy_upstream parse "ChatGPT" chatgpt_url >>= λ second.
        ok (record { api_key_upstream_url = first; chatgpt_upstream_url = second })))
    else err (errorf "auth token provider is required")

unfoldable pub upstream_url_for : Handler → ProxyAuthMethod → Result Error Url
upstream_url_for h method =
    if method == api_key
    then ok h.api_key_upstream_url
    else if method == chatgpt || method == chatgpt_auth_tokens
    then ok h.chatgpt_upstream_url
    else err (errorf ("unsupported auth method " ++ quote method))

pub record Request : Type 0 where
  pub method : String
  pub url : String
  pub header : Header
  pub body : String

pub record Response : Type 0 where
  pub status_code : ℕ
  pub header : Header
  pub body : String

-- What the handler does to the outside, in order.
pub data Act : Type 0 where
  asked_auth : (refresh : Bool) → Act
  sent : Request → Act
  closed_body : Response → Act

-- What it has done, and what it returns.
abbrev pub Acts : Type 0 → Type 0
Acts A = List Act × Result Error A

-- What the code calls: `CanonicalHeaderKey`, the token provider and the HTTP client, whose answers
-- may differ from one call to the next, and whether a request can be built for a URL.
pub record Outside : Type 0 where
  pub canonical : String → String
  pub current_auth : Bool → Result Error ProxyAuth
  pub new_request : String → Result Error Unit
  pub send : ℕ → Request → Result Error Response

module _ (o : Outside) (h : Handler) where
  abbrev with_account : String → Header → Header
  with_account id header =
      if id == "" then header else set o.canonical "ChatGPT-Account-Id" id header

  unfoldable pub request_for : Header → String → ProxyAuth → Url → Request
  request_for incoming body auth url = record {
    method = "POST";
    url = url.text;
    header = with_account auth.account_id (
        set o.canonical "Authorization" ("Bearer " ++ auth.bearer_token)
          (clone_forward_headers o.canonical incoming));
    body = body;
  }

  -- `doForward`, the `n`-th call of it.
  unfoldable pub do_forward : ℕ → Header → String → ProxyAuth → Acts Response
  do_forward n incoming body auth =
      (
        [],
        upstream_url_for h auth.method >>= λ url.
            (wrap_err "build upstream request" (o.new_request url.text) >>= λ built.
            ok (request_for incoming body auth url)),
      )
      then_on λ req. (sent req ∷ [], wrap_err "send upstream request" (o.send n req))

  abbrev pub retry : Header → String → Response → Acts Response
  retry incoming body resp =
      (closed_body resp ∷ asked_auth true ∷ [], o.current_auth true)
      then_on do_forward 1 incoming body

  abbrev pub answered : Header → String → ProxyAuth → Response → Acts Response
  answered incoming body auth resp =
      let again = retry incoming body resp in
      if not (eqb resp.status_code 401) || not (retries_unauthorized auth.method)
      then ([], ok resp)
      else again

  -- `forwardWithRetry`
  unfoldable pub forward_with_retry : Header → String → Acts Response
  forward_with_retry incoming body = (asked_auth false ∷ [], o.current_auth false) then_on λ auth.
      (do_forward 0 incoming body auth then_on answered incoming body auth)

-- A request to the proxy. `body` is what reading it gives.
pub record Incoming : Type 0 where
  pub method : String
  pub path : String
  pub raw_query : String
  pub header : Header
  pub body : Result Error String

-- What is written back: `http.Error`, or a status with headers and a body.
pub data Written : Type 0 where
  http_error : (message : String) → (status : ℕ) → Written
  relayed : (status : ℕ) → Header → (body : String) → Written

module _ (o : Outside) (h : Handler) where
  -- The body of the answer is closed when the handler returns.
  abbrev pub relay : Acts Response → Acts Written
  relay (acts, ok resp) = (
    append acts (closed_body resp ∷ []),
    ok (relayed resp.status_code (copy_http_headers o.canonical [] resp.header) resp.body),
  )
  relay (acts, err e) = (acts, ok (http_error ("forward request: " ++ error_text e) 502))
  relay (acts, panic) = (acts, panic)

  abbrev pub forward_body : Header → Result Error String → Acts Written
  forward_body header (ok body) = relay (forward_with_retry o h header body)
  forward_body header (err e) = ([], ok (http_error ("read request body: " ++ error_text e) 400))
  forward_body header panic = ([], panic)

  -- `ServeHTTP`
  unfoldable pub serve_http : Incoming → Acts Written
  serve_http req =
      let forwarded = forward_body req.header req.body in
      if not (req.method == "POST")
        || not (req.path == "/v1/responses")
        || not (req.raw_query == "")
      then ([], ok (http_error "forbidden" 403))
      else forwarded

-- `flushingWriter.Write`: the result of the writer below it, and whether it flushes.
unfoldable pub flushing_write : (String → ℕ × Option Error) → String → (ℕ × Option Error) × Bool
flushing_write write p = (write p, ltb 0 (write p).0)
