-- ===== src/Tests/Configs.antt =====
-- The configuration at concrete inputs.
use codex_a2a.Base.{◌≡◌, refl, some}
use codex_a2a.Base.Maps.{lookup, remove}
use codex_a2a.Base.Text.{quote, decimal, trim_space, to_lower, trim_right}
use codex_a2a.Config.{merged_codex_config, mcp_key}
use codex_a2a.Value.{str}
use codex_a2a.Tests.Samples.{config}

merged_mcp_server :
    lookup
      (mcp_key 0)
      (merged_codex_config config.codex_config config.mcp_server_urls config.responses_api_base_url)
    ≡ some (str "http://mcp")
unfolding merged_codex_config lookup decimal remove
merged_mcp_server = refl

quote_escapes : quote "a\"b" ≡ "\"a\\\"b\""
unfolding quote
quote_escapes = refl

decimal_digits : decimal 1024 ≡ "1024"
unfolding decimal
decimal_digits = refl

trims : trim_space "  yes \n" ≡ "yes"
unfolding trim_space
trims = refl

lowers : to_lower "DeCline" ≡ "decline"
unfolding to_lower
lowers = refl

trims_slashes : trim_right "/" "http://a//" ≡ "http://a"
unfolding trim_right
trims_slashes = refl
