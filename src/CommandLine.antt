-- ===== src/CommandLine.antt =====
-- cmd/codex-a2a/main.go: the configuration that the flags make, and what is run with it. Parsing the
-- flags and serving HTTP are Go's library.
pub mod Serve
pub mod Shutdown
use Prim.Native.String.{◌++◌}
use mathlib.Core.List.{◌++◌ as append}
use codex_a2a.Base.{
  String, ◌≡◌, ◌≢◌, ◌⊎◌, inl, inr, refl, Bool, true, false, not, ◌||◌, Bool-cases, bind-ok, ==_iff,
  arith, ◌∙◌, Option, none, some, List, [], ◌∷◌, ok, ◌==◌, ==_ne, if◌then◌else◌,
}
use codex_a2a.Base.Maps.{Map, insert}
use codex_a2a.Base.Text.{has_prefix, join, quote}
use codex_a2a.Value.{Value, str}
use codex_a2a.Config.{
  Config, RequestOptions, require, normalize_sandbox, validate_approval_policy,
  request_options_from_config, merged_codex_config,
}

-- `flagString` and `multiStringFlag`, and their `Set`, which never fails.
pub record FlagString : Type 0 where
  pub value : String
  pub set : Bool

unfoldable pub set_flag : String → FlagString → FlagString
set_flag value f = record { value = value; set = true }

unfoldable pub add_flag : String → List String → List String
add_flag value urls = append urls (value ∷ [])

-- `String` of both, the second on a pointer that may be nil.
unfoldable pub flag_text : FlagString → String
flag_text f = f.value

unfoldable pub flags_text : Option (List String) → String
flags_text none = ""
flags_text (some urls) = join "," urls

-- The values of the flags after `flag.Parse`.
pub record Flags : Type 0 where
  pub mode : String
  pub listen : String
  pub base_url : String
  pub agent_name : String
  pub agent_description : String
  pub default_cwd : String
  pub responses_api_base_url : String
  pub auth_proxy_api_key_upstream_url : String
  pub auth_proxy_upstream_url : String
  pub default_model : FlagString
  pub model : FlagString
  pub default_approval_policy : String
  pub default_sandbox : String
  pub dangerously_bypass_approvals_and_sandbox : Bool
  pub model_reasoning_effort : String
  pub developer_instructions : FlagString
  pub codex_cli : String
  pub codex_app_server_bin : String
  pub codex_client_name : String
  pub codex_client_title : String
  pub codex_client_version : String
  pub mock_responses_text : String
  pub mock_responses_item_json : String
  pub mcp_server_urls : List String

-- What the flags are before any is given.
unfoldable pub default_flags : Config → Flags
default_flags cfg = record {
  mode = "a2a";
  listen = "127.0.0.1:9001";
  base_url = "";
  agent_name = cfg.agent_name;
  agent_description = cfg.agent_description;
  default_cwd = cfg.default_cwd;
  responses_api_base_url = "";
  auth_proxy_api_key_upstream_url = "https://api.openai.com/v1/responses";
  auth_proxy_upstream_url = "https://chatgpt.com/backend-api/codex/responses";
  default_model = record { value = cfg.default_model; set = false };
  model = record { value = ""; set = false };
  default_approval_policy = cfg.default_approval_policy;
  default_sandbox = cfg.default_sandbox;
  dangerously_bypass_approvals_and_sandbox = false;
  model_reasoning_effort = "";
  developer_instructions = record { value = ""; set = false };
  codex_cli = cfg.codex_cli;
  codex_app_server_bin = "";
  codex_client_name = cfg.codex_client_name;
  codex_client_title = cfg.codex_client_title;
  codex_client_version = cfg.codex_client_ver;
  mock_responses_text = "ok";
  mock_responses_item_json = "";
  mcp_server_urls = [];
}

abbrev model_of : FlagString → FlagString → String → String
model_of model default_model before =
    if model.set then model.value else if default_model.set then default_model.value else before

abbrev with_entry : Bool → String → String → Map Value → Map Value
with_entry given key value config = if given then insert key (str value) config else config

abbrev is_given : String → Bool
is_given value = if value == "" then false else true

-- What `main` makes of the configuration.
unfoldable pub config_from_flags : Config → Flags → Config
config_from_flags cfg f = record {
  agent_name = f.agent_name;
  agent_description = f.agent_description;
  base_url = f.base_url;
  default_cwd = f.default_cwd;
  default_model = model_of f.model f.default_model cfg.default_model;
  default_approval_policy =
      if f.dangerously_bypass_approvals_and_sandbox then "never" else f.default_approval_policy;
  default_sandbox =
      if f.dangerously_bypass_approvals_and_sandbox
      then "danger-full-access"
      else f.default_sandbox;
  responses_api_base_url = f.responses_api_base_url;
  codex_cli = f.codex_cli;
  codex_app_server_bin = f.codex_app_server_bin;
  codex_args = cfg.codex_args;
  codex_client_name = f.codex_client_name;
  codex_client_title = f.codex_client_title;
  codex_client_ver = f.codex_client_version;
  child_env = cfg.child_env;
  codex_config =
      with_entry f.developer_instructions.set "developer_instructions"
        f.developer_instructions.value
        (with_entry (is_given f.model_reasoning_effort) "model_reasoning_effort"
          f.model_reasoning_effort cfg.codex_config);
  mcp_server_urls = f.mcp_server_urls;
}

-- What `main` runs.
pub data Service : Type 0 where
  a2a_server : Config → (listen : String) → Service
  auth_proxy :
      Config → (listen : String) → (api_key_url : String) → (chatgpt_url : String) → Service
  mock_responses : (listen : String) → (text : String) → (item_json : String) → Service
  fatal : String → Service

unfoldable pub select_service : Config → Flags → Service
select_service cfg f =
    if f.mode == "a2a"
    then a2a_server cfg f.listen
    else if f.mode == "auth-proxy"
    then auth_proxy cfg f.listen f.auth_proxy_api_key_upstream_url f.auth_proxy_upstream_url
    else if f.mode == "mock-responses"
    then mock_responses f.listen f.mock_responses_text f.mock_responses_item_json
    else fatal ("unsupported mode " ++ quote f.mode)

-- `cardBaseURL`
unfoldable pub card_base_url : Config → String → String
card_base_url cfg listen =
    if cfg.base_url == ""
    then (if listen == ""
        then "http://127.0.0.1:9001"
        else if has_prefix ":" listen
        then "http://127.0.0.1" ++ listen
        else "http://" ++ listen)
    else cfg.base_url

-- The handler of "/" in `runA2AServer`: nothing where it answers 404.
unfoldable pub root_page : String → String → Option String
root_page card_name path = if path == "/" then some (card_name ++ "\n") else none

-- A mode of the sandbox in one of its spellings, and as it is sent to Codex.
abbrev pub IsSandbox : String → String → Type 0
IsSandbox given sent =
    ((given ≡ "") × (sent ≡ ""))
    ⊎ ((((given ≡ "read-only") ⊎ (given ≡ "readOnly")) × (sent ≡ "read-only"))
        ⊎ ((((given ≡ "workspace-write") ⊎ (given ≡ "workspaceWrite")) × (sent ≡ "workspace-write"))
            ⊎ (((given ≡ "danger-full-access") ⊎ (given ≡ "dangerFullAccess"))
                × (sent ≡ "danger-full-access"))))

-- The four policies, or none.
abbrev pub IsPolicy : String → Type 0
IsPolicy policy =
    (policy ≡ "")
    ⊎ ((policy ≡ "untrusted")
        ⊎ ((policy ≡ "on-failure") ⊎ ((policy ≡ "on-request") ⊎ (policy ≡ "never"))))

-- The approvals and the sandbox that the flags ask for.
abbrev pub AsksFor : Flags → RequestOptions → Type 0
AsksFor f o =
    ((f.dangerously_bypass_approvals_and_sandbox ≡ true)
      × (o.approval_policy ≡ "never")
      × (o.sandbox ≡ "danger-full-access"))
    ⊎ ((f.dangerously_bypass_approvals_and_sandbox ≡ false)
        × (o.approval_policy ≡ f.default_approval_policy)
        × IsPolicy o.approval_policy
        × IsSandbox f.default_sandbox o.sandbox)

normalize_sandbox-IsSandbox :
    (mode sent : String) → normalize_sandbox mode ≡ ok sent → IsSandbox mode sent
unfolding normalize_sandbox
normalize_sandbox-IsSandbox mode sent h = elim (Bool-cases (mode == "")) [
  | inl q ↦ inl (ground (arith, q, ==_iff mode ""), ground (arith, q, h))
  | inr q ↦ elim (Bool-cases (mode == "read-only" || mode == "readOnly")) [
    | inl p ↦ inr (
        inl (
          ground (arith, p, ==_iff mode "read-only", ==_iff mode "readOnly"),
          ground (arith, q, p, h),
        ))
    | inr p ↦ elim (Bool-cases (mode == "workspace-write" || mode == "workspaceWrite")) [
      | inl w ↦ inr (
          inr (
            inl (
              ground (arith, w, ==_iff mode "workspace-write", ==_iff mode "workspaceWrite"),
              ground (arith, q, p, w, h),
            )))
      | inr w ↦ inr (
          inr (
            inr (
              ground (
                arith,
                q,
                p,
                w,
                h,
                ==_iff mode "danger-full-access",
                ==_iff mode "dangerFullAccess",
              ),
              ground (arith, q, p, w, h),
            )))
    ]
  ]
]

validate_approval_policy-IsPolicy :
    (policy : String) → validate_approval_policy policy ≡ ok tt → IsPolicy policy
unfolding validate_approval_policy
validate_approval_policy-IsPolicy policy h = ground (
  arith,
  h,
  ==_iff policy "",
  ==_iff policy "untrusted",
  ==_iff policy "on-failure",
  ==_iff policy "on-request",
  ==_iff policy "never",
)

full_access :
    (sent : String) → normalize_sandbox "danger-full-access" ≡ ok sent → sent ≡ "danger-full-access"
unfolding normalize_sandbox
full_access sent h = ground (arith, h)

-- Whatever the flags are, where a request gets its options, its working directory is that of the flags
-- and not empty. With -dangerously-bypass-approvals-and-sandbox it never asks for approval and has no
-- sandbox; without it the approval policy is that of the flags, one of the four or none, and the sandbox
-- is the one that -default-sandbox names: it is off only where that flag says so.
pub config_from_flags-AsksFor :
    (cfg : Config) (f : Flags) (o : RequestOptions)
    → request_options_from_config (config_from_flags cfg f) ≡ ok o
    → (o.cwd ≡ f.default_cwd) × (o.cwd ≢ "") × AsksFor f o
unfolding config_from_flags request_options_from_config
config_from_flags-AsksFor cfg f o h =
    let c = config_from_flags cfg f in
    let (u, given, rest) = bind-ok (require (not (c.default_cwd == "")) _) _ o h in
    let (v, valid, last) = bind-ok (validate_approval_policy c.default_approval_policy) _ o rest in
    let (sandbox, normal, made) = bind-ok (normalize_sandbox c.default_sandbox) _ o last in
    let policy = validate_approval_policy-IsPolicy c.default_approval_policy valid in
    let mode = normalize_sandbox-IsSandbox c.default_sandbox sandbox normal in
    let allowed : o.approval_policy ≡ c.default_approval_policy = ground (arith, made) in
    let sent : o.sandbox ≡ sandbox = ground (arith, made) in
    (
      ground (arith, made),
      ground (arith, made, given, ==_iff f.default_cwd ""),
      elim (Bool-cases f.dangerously_bypass_approvals_and_sandbox) [
        | inl q ↦ inl (q, rw q at allowed, sent ∙ full_access sandbox (rw q at normal))
        | inr q ↦ inr (q, rw q at allowed, rw allowed policy, rw sent (rw q at mode))
      ],
    )
