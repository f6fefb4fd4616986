-- ===== src/Client/Lines.antt =====
-- internal/service/codex_client.go: what is computed from lines, environments and exit states.
use Prim.Native.String.{◌++◌}
use mathlib.Core.List.{◌++◌ as append}
use codex_a2a.Base.{
  ℕ, ◌-◌, String, Option, none, some, List, [], ◌∷◌, Error, errorf, wrap, error_text, Result, ok,
  err, panic, ◌==◌, ltb, if◌then◌else◌, length, drop,
}
use codex_a2a.Base.Text.{trim_space, join, quote, has_prefix, drop_text}
use codex_a2a.Config.{Config, split_env}
use codex_a2a.Wire.{RawMessage, IncomingMessage}

-- `rpcEnvelope`; of `rpcError` only the message is used.
pub record Envelope : Type 0 where
  pub id : RawMessage
  pub method : String
  pub params : RawMessage
  pub result : RawMessage
  pub error : Option String

-- `responseMessage`
pub record Response : Type 0 where
  pub result : RawMessage
  pub error : Option String

-- What the loop of `readLoop` does with a line that was read.
pub data Line : Type 0 where
  skipped : Line
  broken : Error → Line
  notified : IncomingMessage → Line
  answered : String → Response → Line

abbrev envelope_line : Envelope → Line
envelope_line env =
    if env.method == ""
    then (if env.id == ""
        then skipped
        else answered env.id (record { result = env.result; error = env.error }))
    else notified (record { id = env.id; method = env.method; params = env.params })

abbrev decoded_line : String → Result Error Envelope → Line
decoded_line line (ok env) = envelope_line env
decoded_line line (err e) = broken (wrap ("decode codex message " ++ quote line) e)
decoded_line line panic = skipped

-- `unmarshal` is `json.Unmarshal`, which does not panic.
unfoldable pub read_line : (String → Result Error Envelope) → String → Line
read_line unmarshal text =
    let line = trim_space text in if line == "" then skipped else decoded_line line (unmarshal line)

abbrev pub stderr_tail_lines : ℕ
stderr_tail_lines = 20

abbrev pub keep_last : ℕ → List String → List String
keep_last n lines = if ltb n (length lines) then drop (length lines - n) lines else lines

-- `appendStderr`: the tail that is kept.
unfoldable pub append_stderr : String → List String → List String
append_stderr text tail =
    let line = trim_space text in
    if line == "" then tail else keep_last stderr_tail_lines (append tail (line ∷ []))

unfoldable pub stderr_summary : List String → String
stderr_summary tail = join "\n" tail

abbrev exit_reason : Option Error → Error
exit_reason none = errorf "codex app-server exited before the protocol completed"
exit_reason (some e) = wrap "codex app-server exited" e

-- The error of `waitLoop`. An exit state wraps no sentinel, so the text is all that matters.
unfoldable pub exit_error : Option Error → List String → Error
unfolding stderr_summary
exit_error exit tail =
    let summary = stderr_summary tail in
    let reason = exit_reason exit in
    if summary == "" then reason else errorf (error_text reason ++ ("\nstderr:\n" ++ summary))

-- `lookupEnv`: the last entry for the key.
abbrev pub or_found : Option String → Option String → Option String
or_found (some later) here = some later
or_found none here = here

unfoldable pub lookup_env : List String → String → Option String
lookup_env [] key = none
lookup_env (entry ∷ env) key =
    or_found (lookup_env env key)
      (if has_prefix (key ++ "=") entry then some (drop_text (key ++ "=") entry) else none)

abbrev home_of : Option String → Option String
home_of none = none
home_of (some home) = if trim_space home == "" then none else some home

-- The directory that `ensureCodexHome` creates.
unfoldable pub ensure_codex_home : List String → Option String
unfolding lookup_env
ensure_codex_home env = home_of (lookup_env env "CODEX_HOME")

abbrev listen_args : List String → List String
listen_args [] = "--listen" ∷ "stdio://" ∷ []
listen_args (a ∷ args) = a ∷ args

-- The command of `launchCodexClient`: its name, arguments and environment.
pub record Command : Type 0 where
  pub name : String
  pub args : List String
  pub env : List String

unfoldable pub codex_command : Config → List String → Command
codex_command cfg environ =
    if cfg.codex_app_server_bin == ""
    then record {
      name = cfg.codex_cli;
      args = "app-server" ∷ "--listen" ∷ "stdio://" ∷ cfg.codex_args;
      env = append environ (split_env cfg.child_env);
    }
    else record {
      name = cfg.codex_app_server_bin;
      args = listen_args cfg.codex_args;
      env = append environ (split_env cfg.child_env);
    }

-- `formatRawJSON`; `indent` is `json.Indent`, nothing where it fails.
abbrev indented_or : Option String → RawMessage → String
indented_or (some text) raw = text
indented_or none raw = trim_space raw

unfoldable pub format_raw_json : (RawMessage → Option String) → RawMessage → String
format_raw_json indent raw = if raw == "" then "{}" else indented_or (indent raw) raw
