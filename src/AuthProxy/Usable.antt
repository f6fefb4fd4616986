-- ===== src/AuthProxy/Usable.antt =====
-- internal/service/auth_proxy.go: what holds of the credentials that the helper reports.
use codex_a2a.Base.{
  String, ◌≡◌, refl, subst, ◌∙◌, ◌⊎◌, ◌≢◌, ==_iff, inl, inr, Bool, true, false, not, Bool-cases,
  some, List, [], ◌∷◌, Error, Result, ok, wrap_err, bind-ok, ◌==◌, arith,
}
use codex_a2a.Base.Text.{split}
use codex_a2a.Wire.{RawMessage, decode_json}
use codex_a2a.AuthProxy.Auth.{
  ProxyAuth, ProxyAuthMethod, api_key, chatgpt, chatgpt_auth_tokens, parse_proxy_auth_method,
  needs_account_id, AuthStatus, AuthStatusParams, Decoders, current_auth, auth_of, account_id_of,
  account_id_in, chatgpt_account_id, with_account, is_blank, is_false, text_of, no_status,
}

-- No account id with an API key, and one with the two methods of ChatGPT; no other method.
abbrev pub HasAccountFor : ProxyAuthMethod → String → Type 0
HasAccountFor m id =
    ((m ≡ api_key) × (id ≡ "")) ⊎ (((m ≡ chatgpt) ⊎ (m ≡ chatgpt_auth_tokens)) × (id ≢ ""))

-- Credentials with one of the three known methods and the account id that it wants.
pub record IsUsable (auth : ProxyAuth) : Type 0 where
  pub account : HasAccountFor auth.method auth.account_id

abbrev Known : ProxyAuthMethod → Type 0
Known m = (m ≡ api_key) ⊎ ((m ≡ chatgpt) ⊎ (m ≡ chatgpt_auth_tokens))

parse-Known : (raw : String) (m : ProxyAuthMethod) → parse_proxy_auth_method raw ≡ ok m → Known m
unfolding parse_proxy_auth_method
parse-Known raw m h = ground (arith, h)

module _ (dec : Decoders) where
  account_id_of-nonempty :
      (id found : String) → account_id_of dec id ≡ ok found → (found == "") ≡ false
  account_id_of-nonempty id found h = ground (arith, h)

  account_id_in-nonempty :
      (parts : List String) (found : String)
      → account_id_in dec parts ≡ ok found
      → (found == "") ≡ false
  account_id_in-nonempty (header ∷ payload ∷ signature ∷ []) found h =
      let (text, first, rest) =
        bind-ok (wrap_err "decode JWT payload" (dec.base64 payload)) _ found h in
      let (id, second, last) =
        bind-ok (wrap_err "decode JWT claims" (dec.claims text)) _ found rest in
      account_id_of-nonempty id found last
  account_id_in-nonempty _ found h = ground (arith, h)

  account_HasAccountFor :
      (m : ProxyAuthMethod) (id : String)
      → Known m
      → needs_account_id m ≡ not (id == "")
      → HasAccountFor m id
  unfolding needs_account_id
  account_HasAccountFor m id (inl a) needs = inl (a, ground (arith, rw a at needs, ==_iff id ""))
  account_HasAccountFor m id (inr (inl a)) needs =
      inr (inl a, ground (arith, rw a at needs, ==_iff id ""))
  account_HasAccountFor m id (inr (inr a)) needs =
      inr (inr a, ground (arith, rw a at needs, ==_iff id ""))

  made_IsUsable :
      (m : ProxyAuthMethod) (token id : String) (auth : ProxyAuth)
      → Known m
      → record { method = m; bearer_token = token; account_id = id } ≡ auth
      → needs_account_id m ≡ not (id == "")
      → IsUsable auth
  made_IsUsable m token id auth known same needs =
      subst IsUsable same (record { account = account_HasAccountFor m id known needs })

  with_account-IsUsable :
      (m : ProxyAuthMethod) (token : String) (auth : ProxyAuth)
      → Known m
      → with_account dec m token ≡ ok auth
      → IsUsable auth
  unfolding chatgpt_account_id
  with_account-IsUsable m token auth known h = elim (Bool-cases (needs_account_id m)) [
    | inl q ↦
        (let (id, got, made) = bind-ok (chatgpt_account_id dec token) _ auth (rw q at h) in
          let some_id = account_id_in-nonempty (split "." token) id got in
          made_IsUsable m token id auth known (ground (arith, made)) (q ∙ rw some_id refl))
    | inr q ↦ made_IsUsable m token "" auth known (ground (arith, rw q at h)) q
  ]

  auth_of-IsUsable :
      (status : AuthStatus) (auth : ProxyAuth) → auth_of dec status ≡ ok auth → IsUsable auth
  auth_of-IsUsable status auth h = elim (Bool-cases (is_false dec status.requires_openai_auth)) [
    | inl q ↦ ground (arith, rw q at h)
    | inr q ↦ elim (Bool-cases (is_blank dec status.auth_method)) [
      | inl p ↦ ground (arith, rw (q, p) at h)
      | inr p ↦ elim (Bool-cases (is_blank dec status.auth_token)) [
        | inl r ↦ ground (arith, rw (q, p, r) at h)
        | inr r ↦
            (let raw = text_of dec status.auth_method in
              let (m, parsed, made) =
                bind-ok (parse_proxy_auth_method raw) _ auth (rw (q, p, r) at h) in
              with_account-IsUsable m _ auth (parse-Known raw m parsed) made)
      ]
    ]
  ]

  -- Credentials that `CurrentAuth` returns are for an API key, without an account id, or for
  -- `chatgpt` or `chatgptAuthTokens`, with an account id that is not empty.
  pub current_auth-IsUsable :
      (request : AuthStatusParams → Result Error RawMessage) (refresh : Bool) (auth : ProxyAuth)
      → current_auth dec request refresh ≡ ok auth
      → IsUsable auth
  unfolding current_auth
  current_auth-IsUsable request refresh auth h =
      let params : AuthStatusParams = record {
        include_token = some true;
        refresh_token = some refresh;
      } in
      let (raw, answered, rest) = bind-ok (wrap_err "get auth status" (request params)) _ auth h in
      let (status, decoded, last) =
        bind-ok (wrap_err "decode auth status" (decode_json dec.status no_status raw)) _ auth
          rest in
      auth_of-IsUsable status auth last
