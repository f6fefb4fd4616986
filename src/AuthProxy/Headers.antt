-- ===== src/AuthProxy/Headers.antt =====
-- internal/service/auth_proxy.go: which headers are passed on.
use mathlib.Core.List.{◌++◌ as append}
use codex_a2a.Base.{String, Bool, ◌||◌, Option, none, some, List, [], ◌∷◌, ◌==◌, if◌then◌else◌}
use codex_a2a.Base.Maps.{Map, lookup, insert}

-- `http.Header`
abbrev pub Header : Type 0
Header = Map (List String)

-- `authProxyHopByHopHeaders`
unfoldable pub is_hop_by_hop : String → Bool
is_hop_by_hop name =
    name == "Connection"
    || name == "Keep-Alive"
    || name == "Proxy-Authenticate"
    || name == "Proxy-Authorization"
    || name == "Te"
    || name == "Trailer"
    || name == "Transfer-Encoding"
    || name == "Upgrade"

-- The names that the proxy sets itself.
unfoldable pub is_replaced : String → Bool
is_replaced name = name == "Authorization" || name == "Chatgpt-Account-Id" || name == "Host"

abbrev pub values_of : Option (List String) → List String
values_of none = []
values_of (some values) = values

-- `canonical` is `http.CanonicalHeaderKey`. A range over a header takes its entries in the order of
-- the list, which is any.
module _ (canonical : String → String) where
  -- The loop of `cloneForwardHeaders`, with what `dst` holds.
  abbrev pub clone_into : Header → Header → Header
  clone_into [] dst = dst
  clone_into ((name, values) ∷ src) dst = clone_into src (
      if is_hop_by_hop (canonical name)
      then dst
      else if is_replaced (canonical name)
      then dst
      else insert (canonical name) values dst)

  unfoldable pub clone_forward_headers : Header → Header
  clone_forward_headers src = clone_into src []

  -- `Header.Set` and `Header.Add`
  abbrev pub set : String → String → Header → Header
  set name value h = insert (canonical name) (value ∷ []) h

  abbrev pub add : String → String → Header → Header
  add name value h =
      insert (canonical name) (append (values_of (lookup (canonical name) h)) (value ∷ [])) h

  abbrev pub add_all : String → List String → Header → Header
  add_all name [] h = h
  add_all name (value ∷ values) h = add_all name values (add name value h)

  unfoldable pub copy_http_headers : Header → Header → Header
  copy_http_headers dst [] = dst
  copy_http_headers dst ((name, values) ∷ src) =
      copy_http_headers
        (if is_hop_by_hop (canonical name) then dst else add_all (canonical name) values dst) src
