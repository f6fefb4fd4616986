-- ===== src/Config/Options.antt =====
-- Which configurations the server accepts, and what a request sends of them.
use codex_a2a.Base.{String, ◌≡◌, refl, ok, arith, Result-cases, inl, inr, ◌⊎◌}
use codex_a2a.Config.{
  Config, RequestOptions, validate, normalize_sandbox, request_options_from_config,
  validate_sandbox, merged_codex_config,
}

-- The modes that `thread/start` and `thread/fork` are given.
abbrev pub IsCanonical : String → Type 0
IsCanonical mode =
    (mode ≡ "") ⊎ (mode ≡ "read-only") ⊎ (mode ≡ "workspace-write") ⊎ (mode ≡ "danger-full-access")

normalize_sandbox-IsCanonical : (mode m : String) → normalize_sandbox mode ≡ ok m → IsCanonical m
unfolding normalize_sandbox
normalize_sandbox-IsCanonical mode m h = ground arith

IsCanonical-normalize : (m : String) → IsCanonical m → normalize_sandbox m ≡ ok m
unfolding normalize_sandbox
IsCanonical-normalize m (inl e) = rw e
IsCanonical-normalize m (inr (inl e)) = rw e
IsCanonical-normalize m (inr (inr (inl e))) = rw e
IsCanonical-normalize m (inr (inr (inr e))) = rw e

-- An accepted sandbox mode is sent as "" or under one of the three canonical names, and
-- normalising it again changes nothing.
pub normalize_sandbox_idem :
    (mode m : String) → normalize_sandbox mode ≡ ok m → IsCanonical m × (normalize_sandbox m ≡ ok m)
normalize_sandbox_idem mode m h =
    let canonical = normalize_sandbox-IsCanonical mode m h in
    (canonical, IsCanonical-normalize m canonical)

-- A configuration that `validate` accepts at start-up never fails when a request derives its
-- options: these hold its own defaults, the normalised sandbox and the merged Codex configuration.
pub request_options-validate :
    (c : Config)
    → validate c ≡ ok tt
    → (o : RequestOptions) × (request_options_from_config c ≡ ok o)
      × (o.cwd ≡ c.default_cwd)
      × (o.model ≡ c.default_model)
      × (o.approval_policy ≡ c.default_approval_policy)
      × (normalize_sandbox c.default_sandbox ≡ ok o.sandbox)
      × (o.codex_config
          ≡ merged_codex_config c.codex_config c.mcp_server_urls c.responses_api_base_url)
unfolding request_options_from_config validate validate_sandbox
request_options-validate c h = elim (Result-cases (normalize_sandbox c.default_sandbox)) [
  | inl (s, e) ↦ (
    record {
      cwd = c.default_cwd;
      model = c.default_model;
      approval_policy = c.default_approval_policy;
      sandbox = s;
      codex_config = merged_codex_config c.codex_config c.mcp_server_urls c.responses_api_base_url;
    },
    ground arith,
    refl,
    refl,
    refl,
    e,
    refl,
  )
  | inr (inl (x, e)) ↦ ground arith
  | inr (inr e) ↦ ground arith
]
