-- ===== src/AuthProxy/Credentials.antt =====
-- internal/service/auth_proxy.go: the headers of a forwarded request and of the answer, name by name.
use Prim.Native.String.{◌++◌}
use mathlib.Core.List.{◌++◌ as append, append_assoc, append-nil}
use codex_a2a.Base.{
  String, ◌≡◌, refl, ◌∙◌, inl, inr, Bool, true, false, ◌||◌, Bool-cases, Option, none, some, List,
  [], ◌∷◌, ◌==◌, ==_iff, ==_refl, if◌then◌else◌, arith,
}
use codex_a2a.Base.Maps.{lookup, insert, lookup-insert}
use codex_a2a.AuthProxy.Auth.{ProxyAuth}
use codex_a2a.AuthProxy.Headers.{
  Header, is_hop_by_hop, is_replaced, values_of, add, clone_into, clone_forward_headers, add_all,
  copy_http_headers,
}
use codex_a2a.AuthProxy.Forward.{Url, Outside, Handler, request_for}

-- The values of the last entry with this canonical name, and of all of them.
abbrev pub last_values :
    (String → String) → String → Header → Option (List String) → Option (List String)
last_values canonical name [] found = found
last_values canonical name ((other, values) ∷ src) found =
    last_values canonical name src (if canonical other == name then some values else found)

abbrev pub all_values : (String → String) → String → Header → List String
all_values canonical name [] = []
all_values canonical name ((other, values) ∷ src) =
    let rest = all_values canonical name src in
    if canonical other == name then append values rest else rest

-- The names that are not passed on.
abbrev pub is_dropped : String → Bool
is_dropped name = is_hop_by_hop name || is_replaced name

module _ (canonical : String → String) where
  cloned-lookup :
      (name other : String) (values : List String) (dst : Header)
      → lookup name (
          if is_hop_by_hop other
          then dst
          else if is_replaced other
          then dst
          else insert other values dst)
        ≡ (if is_dropped name
            then lookup name dst
            else if other == name
            then some values
            else lookup name dst)
  cloned-lookup name other values dst = elim (Bool-cases (other == name)) [
    | inl q ↦
        (let same : other ≡ name = (==_iff other name).0 q in
          rw same (ground (arith, lookup-insert name name values dst, ==_refl name)))
    | inr q ↦ ground (arith, q, lookup-insert other name values dst)
  ]

  clone_into-lookup :
      (name : String) (src dst : Header)
      → lookup name (clone_into canonical src dst) ≡ (
          if is_dropped name
          then lookup name dst
          else last_values canonical name src (lookup name dst))
  clone_into-lookup name [] dst = ground arith
  clone_into-lookup name ((other, values) ∷ src) dst =
      let here = cloned-lookup name (canonical other) values dst in
      clone_into-lookup name src _ ∙ ground (arith, here)

  pub clone-lookup :
      (name : String) (src : Header)
      → lookup name (clone_forward_headers canonical src)
        ≡ (if is_dropped name then none else last_values canonical name src none)
  unfolding clone_forward_headers lookup
  clone-lookup name src = clone_into-lookup name src []

-- `Host` and the eight hop-by-hop headers, by their names.
abbrev pub withheld_names : List String
withheld_names =
    "Host" ∷ "Connection" ∷ "Keep-Alive" ∷ "Proxy-Authenticate" ∷ "Proxy-Authorization" ∷ "Te"
    ∷ "Trailer" ∷ "Transfer-Encoding" ∷ "Upgrade" ∷ []

abbrev pub is_among : String → List String → Bool
is_among name [] = false
is_among name (other ∷ others) = name == other || is_among name others

is_dropped-withheld :
    (name : String)
    → (name == "Authorization") ≡ false
    → (name == "Chatgpt-Account-Id") ≡ false
    → is_dropped name ≡ is_among name withheld_names
unfolding is_hop_by_hop is_replaced
is_dropped-withheld name a b = rw (a, b) (ground arith)

-- What an incoming header with this canonical name is forwarded as.
abbrev pub forwarded_values : (String → String) → ProxyAuth → Header → String → Option (List String)
forwarded_values canonical auth incoming name =
    let kept = last_values canonical name incoming none in
    if name == "Authorization"
    then some (("Bearer " ++ auth.bearer_token) ∷ [])
    else if name == "Chatgpt-Account-Id"
    then (if auth.account_id == "" then none else some (auth.account_id ∷ []))
    else if is_among name withheld_names
    then none
    else kept

-- The same by the tests of the code.
abbrev kept_values : (String → String) → ProxyAuth → Header → String → Option (List String)
kept_values canonical auth incoming name =
    let kept = last_values canonical name incoming none in
    if name == "Authorization"
    then some (("Bearer " ++ auth.bearer_token) ∷ [])
    else if name == "Chatgpt-Account-Id"
    then (if auth.account_id == "" then none else some (auth.account_id ∷ []))
    else if is_dropped name
    then none
    else kept

kept-forwarded :
    (canonical : String → String) (auth : ProxyAuth) (incoming : Header) (name : String)
    → kept_values canonical auth incoming name ≡ forwarded_values canonical auth incoming name
kept-forwarded canonical auth incoming name = elim (Bool-cases (name == "Authorization")) [
  | inl q ↦ rw q refl
  | inr q ↦ elim (Bool-cases (name == "Chatgpt-Account-Id")) [
    | inl p ↦ rw (q, p) refl
    | inr p ↦ rw (q, p, is_dropped-withheld name q p) refl
  ]
]

module _ (o : Outside) (h : Handler) where
  header-kept :
      o.canonical "Authorization" ≡ "Authorization"
      → o.canonical "ChatGPT-Account-Id" ≡ "Chatgpt-Account-Id"
      → (incoming : Header) (body : String) (auth : ProxyAuth) (url : Url) (name : String)
      → lookup name (request_for o h incoming body auth url).header
        ≡ kept_values o.canonical auth incoming name
  unfolding request_for is_replaced
  header-kept a b incoming body auth url name =
      let base = clone_forward_headers o.canonical incoming in
      let token = ("Bearer " ++ auth.bearer_token) ∷ [] in
      let id = auth.account_id ∷ [] in
      let apart : (name == "Authorization") ≡ true → (name == "Chatgpt-Account-Id") ≡ false =
        λ q. rw ((==_iff name "Authorization").0 q) refl in
      let first = lookup-insert "Authorization" name token base in
      let second = lookup-insert "Chatgpt-Account-Id" name id (insert "Authorization" token base) in
      let cloned = clone-lookup o.canonical name incoming in
      let one = ==_iff name "Authorization" in
      let other = ==_iff name "Chatgpt-Account-Id" in
      let one' = ==_iff "Authorization" name in
      let other' = ==_iff "Chatgpt-Account-Id" name in
      rw (a, b)
        (elim (Bool-cases (auth.account_id == "")) [
          | inl q ↦ rw q (ground (arith, q, apart, cloned, first, one, one', other, other'))
          | inr q ↦ rw q (ground (arith, q, apart, cloned, first, second, one, one', other, other'))
        ])

  -- Where `CanonicalHeaderKey` writes the two names as it is documented to, a forwarded request has,
  -- for every name, exactly these values: the bearer token of the proxy, its account id or none, none
  -- for `Host` and the eight hop-by-hop headers, which are listed by their names, and for any other
  -- name those of the last entry of the caller with that canonical name, or none.
  pub request_for-header :
      o.canonical "Authorization" ≡ "Authorization"
      → o.canonical "ChatGPT-Account-Id" ≡ "Chatgpt-Account-Id"
      → (incoming : Header) (body : String) (auth : ProxyAuth) (url : Url) (name : String)
      → lookup name (request_for o h incoming body auth url).header
        ≡ forwarded_values o.canonical auth incoming name
  request_for-header a b incoming body auth url name =
      header-kept a b incoming body auth url name ∙ kept-forwarded o.canonical auth incoming name

-- The values of a name that an answer already had, and all those of the answer of the upstream.
module _ (canonical : String → String)
    (idem : (name : String) → canonical (canonical name) ≡ canonical name) where
  add_all-lookup :
      (name other : String) (values : List String) (h : Header)
      → canonical other ≡ other
      → values_of (lookup name (add_all canonical other values h)) ≡ (
          if other == name
          then append (values_of (lookup name h)) values
          else values_of (lookup name h))
  add_all-lookup name other [] h e = ground (arith, append-nil (values_of (lookup name h)))
  add_all-lookup name other (value ∷ values) h e =
      let before = values_of (lookup name h) in
      add_all-lookup name other values (add canonical other value h) e
      ∙ rw e (elim (Bool-cases (other == name)) [
        | inl q ↦
            (let same : other ≡ name = (==_iff other name).0 q in
              rw
                (
                  same,
                  ==_refl name,
                  lookup-insert name name (append before (value ∷ [])) h,
                  ==_refl name,
                )
                (append_assoc before (value ∷ []) values))
        | inr q ↦ rw (q, lookup-insert other name _ h, q) refl
      ])

  -- Where `CanonicalHeaderKey` is idempotent, an answer that is copied has for every name the values it
  -- had before, followed by all those of the upstream in their order, or by none for a hop-by-hop name.
  pub copy-values :
      (name : String) (src dst : Header)
      → values_of (lookup name (copy_http_headers canonical dst src))
        ≡ append
            (values_of (lookup name dst))
            (if is_hop_by_hop name then [] else all_values canonical name src)
  unfolding copy_http_headers
  copy-values name [] dst = ground (arith, append-nil (values_of (lookup name dst)))
  copy-values name ((other, values) ∷ src) dst =
      let c = canonical other in
      let before = values_of (lookup name dst) in
      elim (Bool-cases (is_hop_by_hop c)) [
        | inl q ↦ rw q (copy-values name src dst ∙ ground (arith, q, ==_iff c name))
        | inr q ↦ rw q (
            copy-values name src _
            ∙ rw (add_all-lookup name c values dst (idem other)) (
                ground (
                  arith,
                  q,
                  ==_iff c name,
                  append_assoc before values (all_values canonical name src),
                )))
      ]
