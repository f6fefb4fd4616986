-- ===== src/Config.antt =====
-- internal/service/config.go: the server's configuration and the options of each request.
pub mod Options
pub mod Merge
use Prim.Native.String.{◌++◌}
use codex_a2a.Base.{
  ℕ, suc, ◌+◌, String, Bool, true, false, not, ◌&&◌, ◌||◌, List, [], ◌∷◌, Error, errorf, Result, ok,
  err, ◌>>=◌, ◌>>◌, ◌==◌, eqb, length, if◌then◌else◌,
}
use codex_a2a.Base.Maps.{Map, insert}
use codex_a2a.Base.Text.{trim_space, trim_right, decimal, quote}
use codex_a2a.Value.{
  Value, Values, Fields, null, bool, num, str, raw, arr, obj, nil, cons, end, field,
}

pub record Config : Type 0 where
  pub agent_name : String
  pub agent_description : String
  pub base_url : String
  pub default_cwd : String
  pub default_model : String
  pub default_approval_policy : String
  pub default_sandbox : String
  pub responses_api_base_url : String
  pub codex_cli : String
  pub codex_app_server_bin : String
  pub codex_args : List String
  pub codex_client_name : String
  pub codex_client_title : String
  pub codex_client_ver : String
  pub child_env : List String
  pub codex_config : Map Value
  pub mcp_server_urls : List String

pub record RequestOptions : Type 0 where
  pub cwd : String
  pub model : String
  pub approval_policy : String
  pub sandbox : String
  pub codex_config : Map Value

abbrev pub responses_proxy_provider_name : String
responses_proxy_provider_name = "amber_responses_proxy"

-- `DefaultConfig`, where the process runs in `cwd`.
unfoldable pub default_config : String → Config
default_config cwd = record {
  agent_name = "Codex A2A";
  agent_description = "A task-oriented A2A server backed by Codex app-server.";
  base_url = "";
  default_cwd = cwd;
  default_model = "";
  default_approval_policy = "on-request";
  default_sandbox = "read-only";
  responses_api_base_url = "";
  codex_cli = "codex";
  codex_app_server_bin = "";
  codex_args = [];
  codex_client_name = "codex_a2a";
  codex_client_title = "Codex A2A Wrapper";
  codex_client_ver = "0.1.0";
  child_env = [];
  codex_config =
      ("analytics.enabled", bool false)
      ∷ ("personality", str "none")
      ∷ ("history.persistence", str "none")
      ∷ ("check_for_update_on_startup", bool false)
      ∷ ("commit_attribution", str "")
      ∷ [];
  mcp_server_urls = [];
}

unfoldable pub validate_approval_policy : String → Result Error Unit
validate_approval_policy policy =
    if policy == ""
    then ok tt
    else if policy == "untrusted"
        || policy == "on-failure"
        || policy == "on-request"
        || policy == "never"
    then ok tt
    else err (errorf ("unsupported approval policy " ++ quote policy))

unfoldable pub normalize_sandbox : String → Result Error String
normalize_sandbox mode =
    if mode == ""
    then ok ""
    else if mode == "read-only" || mode == "readOnly"
    then ok "read-only"
    else if mode == "workspace-write" || mode == "workspaceWrite"
    then ok "workspace-write"
    else if mode == "danger-full-access" || mode == "dangerFullAccess"
    then ok "danger-full-access"
    else err (errorf ("unsupported sandbox " ++ quote mode))

unfoldable pub validate_sandbox : String → Result Error Unit
validate_sandbox mode = normalize_sandbox mode >> ok tt

abbrev pub require : Bool → String → Result Error Unit
require true message = ok tt
require false message = err (errorf message)

-- `Config.validate`
unfoldable pub validate : Config → Result Error Unit
unfolding validate_sandbox
validate c = do
  require (not (c.default_cwd == "")) "default cwd is required"
  validate_approval_policy c.default_approval_policy
  validate_sandbox c.default_sandbox
  require (not (c.codex_client_name == "")) "codex client name is required"
  require (not (c.codex_client_ver == "")) "codex client version is required"
  require (not (c.codex_app_server_bin == "" && c.codex_cli == ""))
      "either codex app-server bin or codex cli must be configured"

mutual
  -- `cloneConfigValue`
  pub clone_config_value : Value → Value
  clone_config_value (obj fs) = obj (clone_fields fs)
  clone_config_value (arr vs) = arr (clone_values vs)
  clone_config_value null = null
  clone_config_value (bool b) = bool b
  clone_config_value (num n) = num n
  clone_config_value (str s) = str s
  clone_config_value (raw s) = raw s

  pub clone_values : Values → Values
  clone_values nil = nil
  clone_values (cons v vs) = cons (clone_config_value v) (clone_values vs)

  pub clone_fields : Fields → Fields
  clone_fields end = end
  clone_fields (field k v fs) = field k (clone_config_value v) (clone_fields fs)

-- `for key, value := range base { out[key] = cloneConfigValue(value) }`; a map has each key once
unfoldable pub clone_config : Map Value → Map Value
unfolding clone_config_value
clone_config [] = []
clone_config ((k, v) ∷ base) = (k, clone_config_value v) ∷ clone_config base

abbrev pub mcp_key : ℕ → String
mcp_key idx = "mcp_servers." ++ (decimal idx ++ ".url")

-- `for idx, url := range mcpServerURLs`, from index `idx`
unfoldable pub add_mcp_servers : ℕ → List String → Map Value → Map Value
unfolding insert
add_mcp_servers idx [] out = out
add_mcp_servers idx (url ∷ urls) out =
    add_mcp_servers (suc idx) urls (insert (mcp_key idx) (str url) out)

abbrev pub provider_key : String → String
provider_key name = "model_providers." ++ (responses_proxy_provider_name ++ ("." ++ name))

unfoldable pub add_provider : String → Map Value → Map Value
unfolding insert trim_right
add_provider base_url out = insert (provider_key "supports_websockets") (bool false) (
    insert (provider_key "requires_openai_auth") (bool false) (
      insert (provider_key "wire_api") (str "responses") (
        insert (provider_key "base_url") (str (trim_right "/" base_url)) (
          insert (provider_key "name") (str "Amber Responses Proxy")
            (insert "model_provider" (str responses_proxy_provider_name) out)))))

-- A nil map is read and encoded as the empty map.
unfoldable pub merged_codex_config : Map Value → List String → String → Map Value
unfolding clone_config add_mcp_servers add_provider
merged_codex_config base urls responses_url =
    let size = length base + length urls + (if responses_url == "" then 0 else 6) in
    if eqb size 0
    then []
    else let out = add_mcp_servers 0 urls (clone_config base) in
      if responses_url == "" then out else add_provider responses_url out

unfoldable pub request_options_from_config : Config → Result Error RequestOptions
request_options_from_config c = do
  let config = merged_codex_config c.codex_config c.mcp_server_urls c.responses_api_base_url
  require (not (c.default_cwd == "")) "no cwd configured; set a server default"
  validate_approval_policy c.default_approval_policy
  sandbox ← normalize_sandbox c.default_sandbox
  ok (record {
    cwd = c.default_cwd;
    model = c.default_model;
    approval_policy = c.default_approval_policy;
    sandbox = sandbox;
    codex_config = config;
  })

-- `splitEnv`
unfoldable pub split_env : List String → List String
unfolding trim_space
split_env [] = []
split_env (entry ∷ entries) =
    let rest = split_env entries in
    let trimmed = trim_space entry in if trimmed == "" then rest else trimmed ∷ rest
