-- ===== src/Config/Merge.antt =====
-- `mergedCodexConfig`: which entry of the merged configuration comes from where.
use codex_a2a.Base.{ℕ, ◌+◌, String, ◌≡◌, ◌≢◌, refl, false, some, List, arith, ==_ne, eqb}
use codex_a2a.Base.Maps.{Map, lookup, map_laws}
use codex_a2a.Base.Text.{trim_right}
use codex_a2a.Value.{Value, str, bool}
use codex_a2a.Config.{
  merged_codex_config, add_provider, provider_key, responses_proxy_provider_name,
}

add-six-ne-zero : (n : ℕ) → eqb (n + 6) 0 ≡ false
add-six-ne-zero n = ground arith

-- With a Responses API base URL the merged configuration routes the model through the proxy
-- provider, whatever the base configuration and the MCP servers say: the provider is selected, has
-- the base URL without trailing slashes, and needs no OpenAI authentication.
pub merged_codex_config-provider :
    (base : Map Value) (urls : List String) (responses_url : String)
    → responses_url ≢ ""
    → let out = merged_codex_config base urls responses_url in
      (lookup "model_provider" out ≡ some (str responses_proxy_provider_name))
      × (lookup (provider_key "base_url") out ≡ some (str (trim_right "/" responses_url)))
      × (lookup (provider_key "wire_api") out ≡ some (str "responses"))
      × (lookup (provider_key "requires_openai_auth") out ≡ some (bool false))
unfolding merged_codex_config add_provider
merged_codex_config-provider base urls responses_url h =
    simp (==_ne _ _ h, add-six-ne-zero) (simp map_laws (refl, refl, refl, refl))
