-- ===== src/Client/Launch.antt =====
-- internal/service/codex_client.go: how a process is started and greeted.
use Prim.Native.String.{◌++◌}
use mathlib.Core.List.{◌++◌ as append}
use codex_a2a.Base.{
  String, true, Option, none, some, List, [], ◌∷◌, Error, Result, ok, err, panic, ◌then_on◌,
  wrap_err, ◌==◌, if◌then◌else◌,
}
use codex_a2a.Base.Text.{quote}
use codex_a2a.Value.{Value, bool, str, obj, field, end}
use codex_a2a.Config.{Config}
use codex_a2a.Wire.{RawMessage}
use codex_a2a.Client.Lines.{Command, codex_command, ensure_codex_home}

pub data Pipe : Type 0 where
  stdin stdout stderr : Pipe

abbrev pipe_name : Pipe → String
pipe_name stdin = "stdin"
pipe_name stdout = "stdout"
pipe_name stderr = "stderr"

-- What is done to the outside.
pub data Act : Type 0 where
  made_directory : String → Act
  opened : Pipe → Act
  started : Command → Act
  requested : (method : String) → Value → Act
  notified : (method : String) → Value → Act
  killed : Act

-- What the outside answers: the environment of the process, the errors of the calls of Go's library,
-- and what `request` and `notify` return.
pub record Outside : Type 0 where
  pub environ : List String
  pub mkdir_all : String → Result Error Unit
  pub open_pipe : Pipe → Result Error Unit
  pub start : Command → Result Error Unit
  pub request : String → Value → Result Error RawMessage
  pub notify : String → Value → Result Error Unit

-- `initializeParams`
unfoldable pub initialize_params : Config → Value
initialize_params cfg =
    let version = field "version" (str cfg.codex_client_ver) end in
    let info =
      if cfg.codex_client_title == ""
      then version
      else field "title" (str cfg.codex_client_title) version in
    obj (
      field "clientInfo" (obj (field "name" (str cfg.codex_client_name) info))
        (field "capabilities" (obj (field "experimentalApi" (bool true) end)) end))

module _ (o : Outside) where
  -- `initialize`
  unfoldable pub initialize : Config → List Act × Result Error Unit
  initialize cfg =
      let params = initialize_params cfg in
      (
        requested "initialize" params ∷ [],
        wrap_err "initialize codex app-server" (o.request "initialize" params),
      )
      then_on λ answer. (
        notified "initialized" (obj end) ∷ [],
        wrap_err "ack initialize" (o.notify "initialized" (obj end)),
      )

  abbrev pub make_home : Option String → List Act × Result Error Unit
  make_home none = ([], ok tt)
  make_home (some home) =
      (made_directory home ∷ [], wrap_err ("create CODEX_HOME " ++ quote home) (o.mkdir_all home))

  abbrev pub open_pipe : Pipe → List Act × Result Error Unit
  open_pipe pipe = (opened pipe ∷ [], wrap_err ("open codex " ++ pipe_name pipe) (o.open_pipe pipe))

  abbrev pub start_process : Command → List Act × Result Error Unit
  start_process command =
      (started command ∷ [], wrap_err "start codex app-server" (o.start command))

  -- Where `initialize` fails, the client is closed.
  abbrev pub close_on_error : {A : Type 0} → List Act × Result Error A → List Act × Result Error A
  close_on_error (acts, ok u) = (acts, ok u)
  close_on_error (acts, err e) = (append acts (killed ∷ []), err e)
  close_on_error (acts, panic) = (acts, panic)

  -- `launchCodexClient`
  unfoldable pub launch_codex_client : Config → List Act × Result Error Unit
  launch_codex_client cfg =
      let command = codex_command cfg o.environ in
      make_home (ensure_codex_home command.env) then_on λ u.
      (open_pipe stdin then_on λ u.
      (open_pipe stdout then_on λ u.
      (open_pipe stderr then_on λ u.
      (start_process command then_on λ u. close_on_error (initialize cfg)))))
