-- ===== src/Tests/Proxies.antt =====
-- The proxy, the mock endpoint, the command line and the launch of a process in concrete runs.
use Prim.Native.String.{◌++◌}
use mathlib.Core.List.{◌++◌ as append}
use codex_a2a.Base.{
  ℕ, ◌<◌, String, ◌≡◌, ◌≢◌, ◌↔◌, refl, false, true, none, some, [], ◌∷◌, Error, errorf, Result, ok,
  err, eqb, ◌==◌, if◌then◌else◌, arith,
}
use codex_a2a.Base.Maps.{lookup, insert, remove}
use codex_a2a.Base.Text.{split, trim_space, decimal}
use codex_a2a.CommandLine.{
  Flags, default_flags, config_from_flags, AsksFor, config_from_flags-AsksFor,
}
use codex_a2a.Config.{
  RequestOptions, default_config, request_options_from_config, merged_codex_config, validate,
  validate_approval_policy, normalize_sandbox,
}
use codex_a2a.Value.{str}
use codex_a2a.AuthProxy.Auth.{
  ProxyAuth, Decoders, current_auth, chatgpt_account_id, parse_proxy_auth_method, needs_account_id,
  retries_unauthorized,
}
use codex_a2a.AuthProxy.Headers.{Header, copy_http_headers, values_of, is_hop_by_hop}
use codex_a2a.AuthProxy.Forward.{
  Outside, Handler, Response, Incoming, request_for, upstream_url_for, do_forward,
  forward_with_retry, serve_http,
}
use codex_a2a.AuthProxy.Credentials.{forwarded_values, request_for-header, all_values, copy-values}
use codex_a2a.AuthProxy.Retry.{Forwarding, forward_with_retry-Forwarding}
use codex_a2a.AuthProxy.Service.{received, closed, serve_http-closes, serve_http-allowed}
use codex_a2a.AuthProxy.Usable.{IsUsable, current_auth-IsUsable}
use codex_a2a.MockResponses.{
  ObjectJson, MockRequest, event_stream, add_uint64, stream_body, serve_mock,
}
use codex_a2a.MockResponses.Numbers.{idle, serve_mock-numbers}
use codex_a2a.Client.Launch
use codex_a2a.AuthProxy.Forward.{Url}
use codex_a2a.AuthProxy.Provider.{new_codex_auth_proxy_handler}
use codex_a2a.Broker.Sessions.{new_broker}
use codex_a2a.Broker.Tasks.{register}
use codex_a2a.Broker.Invariant.{client_of}
use codex_a2a.Runtime.{new_task_runtime}
use codex_a2a.CommandLine.Serve.{Serving, run_a2a_server, run_auth_proxy}
use codex_a2a.CommandLine.Shutdown.{
  Stops, run_a2a_server-Stops, LeavesHelper, run_auth_proxy-LeavesHelper,
}
use codex_a2a.Tests.Samples.{config, empty, one_task}

-- `CanonicalHeaderKey` on the names that occur.
abbrev canonical : String → String
canonical name = if name == "ChatGPT-Account-Id" then "Chatgpt-Account-Id" else name

canonical_idem : (name : String) → canonical (canonical name) ≡ canonical name
canonical_idem name = ground arith

abbrev handler : Handler
handler = record {
  api_key_upstream_url = record { scheme = "https"; host = "api"; text = "https://api" };
  chatgpt_upstream_url = record { scheme = "https"; host = "chat"; text = "https://chat" };
}

abbrev auth : ProxyAuth
auth = record { method = "chatgpt"; bearer_token = "t"; account_id = "acc" }

-- The first answer is a 401, the second a 200.
abbrev reply : ℕ → Response
reply n = record {
  status_code = if eqb n 0 then 401 else 200;
  header = ("Connection", "close" ∷ []) ∷ ("X", "1" ∷ []) ∷ [];
  body = "answer";
}

abbrev outside : Outside
outside = record {
  canonical = canonical;
  current_auth = λ refresh. ok auth;
  new_request = λ url. ok tt;
  send = λ n req. ok (reply n);
}

abbrev incoming : Header
incoming = ("Authorization", "Bearer mine" ∷ []) ∷ ("Accept", "text" ∷ []) ∷ []

request_for-header_example :
    lookup "Authorization"
      (request_for outside handler incoming "body" auth handler.chatgpt_upstream_url).header
    ≡ forwarded_values canonical auth incoming "Authorization"
request_for-header_example =
    request_for-header outside handler refl refl incoming "body" auth handler.chatgpt_upstream_url
      "Authorization"

copy-values_example :
    values_of (lookup "X" (copy_http_headers canonical [] (reply 0).header))
    ≡ append
        (values_of (lookup "X" []))
        (if is_hop_by_hop "X" then [] else all_values canonical "X" (reply 0).header)
copy-values_example = copy-values canonical canonical_idem "X" (reply 0).header []

forward_with_retry-Forwarding_example :
    Forwarding outside handler incoming "body" (forward_with_retry outside handler incoming "body")
forward_with_retry-Forwarding_example =
    forward_with_retry-Forwarding outside handler incoming "body"

abbrev post : Incoming
post = record {
  method = "POST";
  path = "/v1/responses";
  raw_query = "";
  header = incoming;
  body = ok "body";
}

serve_http-closes_example :
    received outside handler 0 (serve_http outside handler post).0
    ≡ closed (serve_http outside handler post).0
serve_http-closes_example = serve_http-closes outside handler post

serve_http-allowed_example : ((serve_http outside handler post).0 ≢ []) ↔ (
    (post.method ≡ "POST")
    × (post.path ≡ "/v1/responses")
    × (post.raw_query ≡ "")
    × ((body : String) × (post.body ≡ ok body)))
serve_http-allowed_example = serve_http-allowed outside handler post

-- Two bodies are closed: that of the 401 and that of the answer.
both_closed : closed (serve_http outside handler post).0 ≡ reply 0 ∷ reply 1 ∷ []
unfolding serve_http forward_with_retry do_forward upstream_url_for retries_unauthorized
both_closed = refl

abbrev decoders : Decoders
decoders = record {
  base64 = λ s. ok s;
  claims = λ s. ok s;
  status = λ raw. ok (record {
    auth_method = some "chatgpt";
    auth_token = some " h.acc.s ";
    requires_openai_auth = none;
  });
}

abbrev from_helper : ProxyAuth
from_helper = record { method = "chatgpt"; bearer_token = "h.acc.s"; account_id = "acc" }

reported : current_auth decoders (λ params. ok "{}") false ≡ ok from_helper
unfolding current_auth parse_proxy_auth_method needs_account_id chatgpt_account_id split trim_space
reported = refl

current_auth-IsUsable_example : IsUsable from_helper
current_auth-IsUsable_example =
    current_auth-IsUsable decoders (λ params. ok "{}") false from_helper reported

abbrev json : ObjectJson
json = record { marshal = λ m. ok "{}"; unmarshal = λ s. ok (("type", str "message") ∷ []) }

abbrev mock_post : MockRequest
mock_post = record { method = "POST"; path = "/v1/responses"; raw_query = ""; body = ok tt }

abbrev stream : ℕ → String
stream n = stream_body ("resp-" ++ decimal n) "{}"

served_one :
    (n : ℕ)
    → serve_mock json [] n mock_post ≡ ok (add_uint64 n, event_stream (stream (add_uint64 n)))
unfolding serve_mock lookup
served_one n = refl

serve_mock-numbers_example :
    (1 < 2)
    × ((text : String) × (stream 1 ≡ stream_body ("resp-" ++ decimal 1) text))
    × ((text : String) × (stream 2 ≡ stream_body ("resp-" ++ decimal 2) text))
serve_mock-numbers_example =
    serve_mock-numbers json [] 0 1 0 1 2 mock_post mock_post (stream 1) (stream 2) (omega arith)
      (served_one 0) idle (served_one 1)

-- A process that refuses to be greeted.
abbrev rude : codex_a2a.Client.Launch.Outside
rude = record {
  environ = "CODEX_HOME=/home" ∷ [];
  mkdir_all = λ dir. ok tt;
  open_pipe = λ pipe. ok tt;
  start = λ command. ok tt;
  request = λ method params. err (errorf "refused");
  notify = λ method params. ok tt;
}

abbrev parse : String → Result Error Url
parse text = ok (record { scheme = "https"; host = text; text = text })

abbrev flags : Flags
flags = record (default_flags (default_config "/w")) {
  dangerously_bypass_approvals_and_sandbox = true;
  default_cwd = "/w";
}

abbrev unrestricted : RequestOptions
unrestricted = record {
  cwd = "/w";
  model = (config_from_flags config flags).default_model;
  approval_policy = "never";
  sandbox = "danger-full-access";
  codex_config =
      merged_codex_config (config_from_flags config flags).codex_config flags.mcp_server_urls
        flags.responses_api_base_url;
}

bypassed : request_options_from_config (config_from_flags config flags) ≡ ok unrestricted
unfolding config_from_flags request_options_from_config validate_approval_policy normalize_sandbox
bypassed = refl

config_from_flags-AsksFor_example :
    (unrestricted.cwd ≡ "/w") × (unrestricted.cwd ≢ "") × AsksFor flags unrestricted
config_from_flags-AsksFor_example = config_from_flags-AsksFor config flags unrestricted bypassed

-- A server with a request that is still served when its time is over.
abbrev slow : Serving
slow = record {
  listened = ok tt;
  served = none;
  aborted = false;
  shut_down = err (errorf "context deadline exceeded");
}

run_auth_proxy-LeavesHelper_example :
    LeavesHelper rude
      (new_codex_auth_proxy_handler rude parse config "api" "chat").1
      (run_auth_proxy rude parse slow config "api" "chat")
run_auth_proxy-LeavesHelper_example =
    run_auth_proxy-LeavesHelper rude parse slow config "api" "chat"

new_start : new_broker config ≡ ok empty
unfolding new_broker validate validate_approval_policy normalize_sandbox
new_start = refl

still_active : lookup "t1" one_task.tasks ≡ some 0
unfolding one_task register lookup insert remove
still_active = refl

still_held : client_of one_task 0 ≡ some 7
unfolding one_task register new_task_runtime
still_held = refl

run_a2a_server-Stops_example : Stops 7 one_task (run_a2a_server (λ b. one_task) slow config)
run_a2a_server-Stops_example =
    run_a2a_server-Stops (λ b. one_task) slow config empty "t1" 0 7 new_start still_active
      still_held
