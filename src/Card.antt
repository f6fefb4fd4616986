-- ===== src/Card.antt =====
-- internal/service/card.go: the agent card, and the URL it is served with.
use Prim.Native.String.{◌++◌}
use codex_a2a.Base.{String, Bool, true, List, [], ◌∷◌, ◌==◌, if◌then◌else◌}
use codex_a2a.Base.Text.{trim_right, split}
use codex_a2a.Config.{Config}

pub record AgentSkill : Type 0 where
  pub id : String
  pub name : String
  pub description : String
  pub tags : List String
  pub examples : List String

-- The fields of `a2a.AgentCard` that `AgentCard` sets; its one interface speaks JSON-RPC.
pub record AgentCard : Type 0 where
  pub name : String
  pub description : String
  pub version : String
  pub invoke_url : String
  pub default_input_modes : List String
  pub default_output_modes : List String
  pub streaming : Bool
  pub skills : List AgentSkill

abbrev modes : List String
modes = "text/plain" ∷ "application/json" ∷ []

unfoldable pub agent_card : Config → String → AgentCard
unfolding trim_right
agent_card cfg base_url = record {
  name = cfg.agent_name;
  description = cfg.agent_description;
  version = "0.1.0";
  invoke_url = trim_right "/" base_url ++ "/invoke";
  default_input_modes = modes;
  default_output_modes = modes;
  streaming = true;
  skills =
      record {
        id = "codex";
        name = "Codex Software Engineering";
        description =
            "Runs Codex turns behind A2A tasks, including streaming output, approvals, and multi-turn thread context.";
        tags = "coding" ∷ "software-engineering" ∷ "terminal" ∷ "review" ∷ [];
        examples =
            "Inspect this repository and explain the failing tests."
            ∷ "Implement the requested change and summarize the diff." ∷ [];
      }
      ∷ [];
}

-- What `AgentCardHandler` reads of a request: `forwarded` is `Header.Get("X-Forwarded-Proto")`.
pub record CardRequest : Type 0 where
  pub tls : Bool
  pub forwarded : String
  pub host : String

abbrev first_part : List String → String
first_part [] = ""
first_part (part ∷ parts) = part

unfoldable pub request_base_url : Config → CardRequest → String
request_base_url cfg req =
    if cfg.base_url == ""
    then (let scheme =
          if req.forwarded == ""
          then (if req.tls then "https" else "http")
          else first_part (split "," req.forwarded) in
        scheme ++ ("://" ++ req.host))
    else cfg.base_url

-- `AgentCardHandler`: the card that is served.
unfoldable pub served_card : Config → CardRequest → AgentCard
unfolding agent_card request_base_url
served_card cfg req = agent_card cfg (request_base_url cfg req)
