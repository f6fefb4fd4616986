-- ===== src/Tests/Samples.antt =====
-- A configuration, and brokers that two requests lead to.
use codex_a2a.Base.{false, none, some, [], ◌∷◌}
use codex_a2a.Config.{Config, RequestOptions}
use codex_a2a.Broker.Sessions.{TaskSession, Broker}
use codex_a2a.Broker.Tasks.{register}
use codex_a2a.Runtime.{new_task_runtime}
use codex_a2a.Value.{bool}

abbrev pub config : Config
config = record {
  agent_name = "Codex A2A";
  agent_description = "";
  base_url = "";
  default_cwd = "/workspace";
  default_model = "";
  default_approval_policy = "on-request";
  default_sandbox = "readOnly";
  responses_api_base_url = "http://proxy/v1/";
  codex_cli = "codex";
  codex_app_server_bin = "";
  codex_args = [];
  codex_client_name = "codex_a2a";
  codex_client_title = "";
  codex_client_ver = "0.1.0";
  child_env = [];
  codex_config = ("analytics.enabled", bool false) ∷ [];
  mcp_server_urls = "http://mcp" ∷ [];
}

abbrev pub options : RequestOptions
options = record {
  cwd = "/workspace";
  model = "";
  approval_policy = "on-request";
  sandbox = "read-only";
  codex_config = [];
}

abbrev pub nobody : TaskSession
nobody = record {
  task_id = "";
  context_id = "";
  thread_id = "";
  parent_task_id = "";
  options = record { cwd = ""; model = ""; approval_policy = ""; sandbox = ""; codex_config = [] };
  client = none;
  child_count = 0;
}

abbrev pub empty : Broker
empty = record {
  config = config;
  contexts = [];
  tasks = [];
  session = λ _. nobody;
  next_session = 0;
  runtime = λ _. new_task_runtime "" "" 0 0;
  next_runtime = 0;
  running = [];
  sent = [];
}

abbrev pub first_session : TaskSession
first_session = record {
  task_id = "t1";
  context_id = "c";
  thread_id = "thread-1";
  parent_task_id = "";
  options = options;
  client = some 7;
  child_count = 0;
}

-- One task, active.
unfoldable pub one_task : Broker
unfolding register
one_task = (register empty "t1" "c" first_session 100).1
