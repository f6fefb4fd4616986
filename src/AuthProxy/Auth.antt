-- ===== src/AuthProxy/Auth.antt =====
-- internal/service/auth_proxy.go: the credentials that the Codex helper reports.
use Prim.Native.String.{◌++◌}
use codex_a2a.Base.{
  String, Bool, true, false, not, ◌||◌, Option, none, some, List, [], ◌∷◌, Error, errorf, Result,
  ok, err, ◌>>=◌, wrap_err, ◌==◌, if◌then◌else◌,
}
use codex_a2a.Base.Text.{trim_space, quote, split}
use codex_a2a.Wire.{RawMessage, decode_json}

-- `proxyAuthMethod` is a string type with three constants.
abbrev pub ProxyAuthMethod : Type 0
ProxyAuthMethod = String

abbrev pub api_key : ProxyAuthMethod
api_key = "apikey"

abbrev pub chatgpt : ProxyAuthMethod
chatgpt = "chatgpt"

abbrev pub chatgpt_auth_tokens : ProxyAuthMethod
chatgpt_auth_tokens = "chatgptAuthTokens"

pub record ProxyAuth : Type 0 where
  pub method : ProxyAuthMethod
  pub bearer_token : String
  pub account_id : String

unfoldable pub parse_proxy_auth_method : String → Result Error ProxyAuthMethod
parse_proxy_auth_method raw =
    let name = trim_space raw in
    if name == api_key
    then ok api_key
    else if name == chatgpt
    then ok chatgpt
    else if name == chatgpt_auth_tokens
    then ok chatgpt_auth_tokens
    else err (errorf ("unsupported auth method " ++ quote raw))

unfoldable pub needs_account_id : ProxyAuthMethod → Bool
needs_account_id m =
    if m == chatgpt || m == chatgpt_auth_tokens then true else if m == api_key then false else false

unfoldable pub retries_unauthorized : ProxyAuthMethod → Bool
retries_unauthorized m =
    if m == chatgpt || m == chatgpt_auth_tokens then true else if m == api_key then false else false

-- `getAuthStatusParams`: the code sets both.
pub record AuthStatusParams : Type 0 where
  pub include_token : Option Bool
  pub refresh_token : Option Bool

-- `getAuthStatusResponse`
pub record AuthStatus : Type 0 where
  pub auth_method : Option String
  pub auth_token : Option String
  pub requires_openai_auth : Option Bool

abbrev pub no_status : AuthStatus
no_status = record { auth_method = none; auth_token = none; requires_openai_auth = none }

-- What Go's library decodes: `base64.RawURLEncoding`, the claims of a token, of which only the
-- account id is read ("" where it is left out), and the answer of the helper.
pub record Decoders : Type 0 where
  pub base64 : String → Result Error String
  pub claims : String → Result Error String
  pub status : RawMessage → Result Error AuthStatus

module _ (dec : Decoders) where
  abbrev pub account_id_of : String → Result Error String
  account_id_of id =
      if id == "" then err (errorf "access token does not include chatgpt_account_id") else ok id

  abbrev pub account_id_in : List String → Result Error String
  account_id_in (header ∷ payload ∷ signature ∷ []) =
      wrap_err "decode JWT payload" (dec.base64 payload) >>= λ text.
      (wrap_err "decode JWT claims" (dec.claims text) >>= account_id_of)
  account_id_in _ = err (errorf "access token is not a JWT")

  -- `chatGPTAccountIDFromAccessToken`
  unfoldable pub chatgpt_account_id : String → Result Error String
  chatgpt_account_id token = account_id_in (split "." token)

  -- A pointer to a text that is nil or blank.
  abbrev pub is_blank : Option String → Bool
  is_blank none = true
  is_blank (some s) = trim_space s == ""

  abbrev pub is_false : Option Bool → Bool
  is_false none = false
  is_false (some b) = not b

  abbrev pub text_of : Option String → String
  text_of none = ""
  text_of (some s) = s

  abbrev pub with_account : ProxyAuthMethod → String → Result Error ProxyAuth
  with_account method token =
      if needs_account_id method
      then (chatgpt_account_id token >>= λ id.
          ok (record { method = method; bearer_token = token; account_id = id }))
      else ok (record { method = method; bearer_token = token; account_id = "" })

  abbrev pub auth_of : AuthStatus → Result Error ProxyAuth
  auth_of resp =
      if is_false resp.requires_openai_auth
      then err (errorf "codex helper reported auth is not required")
      else if is_blank resp.auth_method
      then err (errorf "codex helper did not report an auth method")
      else if is_blank resp.auth_token
      then err (errorf "codex helper did not return an auth token")
      else (parse_proxy_auth_method (text_of resp.auth_method) >>= λ method.
          with_account method (trim_space (text_of resp.auth_token)))

  -- `CurrentAuth`; `request` is what the helper answers to `getAuthStatus`.
  unfoldable pub current_auth :
      (AuthStatusParams → Result Error RawMessage) → Bool → Result Error ProxyAuth
  current_auth request refresh =
      wrap_err "get auth status"
        (request (record { include_token = some true; refresh_token = some refresh }))
      >>= λ raw. (wrap_err "decode auth status" (decode_json dec.status no_status raw) >>= auth_of)
