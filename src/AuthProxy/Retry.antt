-- ===== src/AuthProxy/Retry.antt =====
-- internal/service/auth_proxy.go: how a request is forwarded, and when it is forwarded again.
use codex_a2a.Base.{
  ℕ, String, ◌≡◌, ◌≢◌, ◌⊎◌, refl, subst, inl, inr, Bool, true, false, not, ◌||◌, Bool-cases, List,
  [], ◌∷◌, Error, Result, ok, err, panic, wrap_err, ◌then_on◌, wrap_err-ok, Result-cases, eqb,
  arith,
}
use codex_a2a.AuthProxy.Auth.{ProxyAuth, retries_unauthorized}
use codex_a2a.AuthProxy.Headers.{Header}
use codex_a2a.AuthProxy.Forward.{
  Url, Handler, Request, Response, asked_auth, sent, closed_body, Acts, Outside, upstream_url_for,
  request_for, do_forward, retry, answered, forward_with_retry,
}

-- A response that is returned.
abbrev pub listed : Result Error Response → List Response
listed (ok resp) = resp ∷ []
listed (err e) = []
listed panic = []

module _ (o : Outside) (h : Handler) (incoming : Header) (body : String) where
  -- A request that the proxy may send with these credentials.
  pub record IsFor (refresh : Bool) (auth : ProxyAuth) (req : Request) : Type 0 where
    pub url : Url
    pub current : o.current_auth refresh ≡ ok auth
    pub upstream : upstream_url_for h auth.method ≡ ok url
    pub same : req ≡ request_for o h incoming body auth url

  -- With these credentials no request can be sent: there are none, or no upstream or no request for
  -- them.
  abbrev pub Unsendable : Bool → Type 0
  Unsendable refresh =
      (auth : ProxyAuth) (url : Url)
      → o.current_auth refresh ≡ ok auth
      → upstream_url_for h auth.method ≡ ok url
      → o.new_request url.text ≢ ok tt

  -- An answer that is not tried again.
  abbrev pub Final : ProxyAuth → Result Error Response → Type 0
  Final auth r =
      (resp : Response)
      → r ≡ ok resp
      → (resp.status_code ≢ 401) ⊎ (retries_unauthorized auth.method ≡ false)

  -- The first answer refused credentials that can be refreshed.
  pub record IsRefused (auth : ProxyAuth) (req : Request) (resp : Response) : Type 0 where
    pub first : IsFor false auth req
    pub replied : o.send 0 req ≡ ok resp
    pub unauthorized : resp.status_code ≡ 401
    pub retries : retries_unauthorized auth.method ≡ true

  -- What may happen to a request that is forwarded: nothing is sent; it is sent once; the answer is
  -- refused, and its body closed, but nothing more is sent; it is sent again with new credentials.
  pub data Forwarding : Acts Response → Type 0 where
    unsent :
        {r : Result Error Response}
        → listed r ≡ []
        → Unsendable false
        → Forwarding (asked_auth false ∷ [], r)
    sent_once :
        {auth : ProxyAuth} {req : Request} {r : Result Error Response}
        → IsFor false auth req
        → wrap_err "send upstream request" (o.send 0 req) ≡ r
        → Final auth r
        → Forwarding (asked_auth false ∷ sent req ∷ [], r)
    unsent_again :
        {auth : ProxyAuth} {req : Request} {resp : Response} {r : Result Error Response}
        → IsRefused auth req resp
        → listed r ≡ []
        → Unsendable true
        → Forwarding (asked_auth false ∷ sent req ∷ closed_body resp ∷ asked_auth true ∷ [], r)
    sent_again :
        {auth again : ProxyAuth} {req second : Request} {resp : Response}
        {r : Result Error Response}
        → IsRefused auth req resp
        → IsFor true again second
        → wrap_err "send upstream request" (o.send 1 second) ≡ r
        → Forwarding
            (asked_auth false ∷ sent req ∷ closed_body resp ∷ asked_auth true ∷ sent second ∷ [], r)

  -- What one call of `doForward` may do.
  data Tried (n : ℕ) (refresh : Bool) (auth : ProxyAuth) : Acts Response → Type 0 where
    kept_back :
        {r : Result Error Response}
        → listed r ≡ []
        → Unsendable refresh
        → Tried n refresh auth ([], r)
    went_out :
        {req : Request} {r : Result Error Response}
        → IsFor refresh auth req
        → wrap_err "send upstream request" (o.send n req) ≡ r
        → Tried n refresh auth (sent req ∷ [], r)

  -- Without credentials, or where those that there are have no upstream or no request.
  no_auth-Unsendable :
      (refresh : Bool)
      → ((auth : ProxyAuth) → o.current_auth refresh ≢ ok auth)
      → Unsendable refresh
  no_auth-Unsendable refresh none auth url current upstream built = none auth current

  auth-Unsendable :
      (refresh : Bool) (auth : ProxyAuth)
      → o.current_auth refresh ≡ ok auth
      → ((url : Url) → upstream_url_for h auth.method ≡ ok url → o.new_request url.text ≢ ok tt)
      → Unsendable refresh
  auth-Unsendable refresh auth current never other url current' upstream built =
      let same : other ≡ auth = ground (arith, current, current') in
      never url (subst (λ a. upstream_url_for h a.method ≡ ok url) same upstream) built

  do_forward-Tried :
      (n : ℕ) (refresh : Bool) (auth : ProxyAuth)
      → o.current_auth refresh ≡ ok auth
      → Tried n refresh auth (do_forward o h n incoming body auth)
  unfolding do_forward
  do_forward-Tried n refresh auth current = elim (Result-cases (upstream_url_for h auth.method)) [
    | inr (inl (e, q)) ↦
        rw q
          (kept_back refl (auth-Unsendable refresh auth current (λ url u b. ground (arith, q, u))))
    | inr (inr q) ↦
        rw q
          (kept_back refl (auth-Unsendable refresh auth current (λ url u b. ground (arith, q, u))))
    | inl (url, q) ↦ elim (Result-cases (o.new_request url.text)) [
      | inr (inl (e, p)) ↦
          rw (q, p)
            (kept_back refl
              (auth-Unsendable refresh auth current (λ other u b. ground (arith, p, q, u, b))))
      | inr (inr p) ↦
          rw (q, p)
            (kept_back refl
              (auth-Unsendable refresh auth current (λ other u b. ground (arith, p, q, u, b))))
      | inl (u, p) ↦
          rw (q, p)
            (went_out (record { url = url; current = current; upstream = q; same = refl }) refl)
    ]
  ]

  again-Forwarding :
      (auth again : ProxyAuth) (req : Request) (resp : Response) (m : Acts Response)
      → IsRefused auth req resp
      → Tried 1 true again m
      → Forwarding (
          (asked_auth false ∷ sent req ∷ closed_body resp ∷ asked_auth true ∷ [], ok again)
          then_on λ a. m)
  again-Forwarding auth again req resp m refused (kept_back e never) = unsent_again refused e never
  again-Forwarding auth again req resp m refused (went_out f e) = sent_again refused f e

  retry-Forwarding :
      (auth : ProxyAuth) (req : Request) (resp : Response)
      → IsRefused auth req resp
      → Forwarding
          ((asked_auth false ∷ sent req ∷ [], ok resp) then_on λ resp. retry o h incoming body resp)
  retry-Forwarding auth req resp refused = elim (Result-cases (o.current_auth true)) [
    | inr (inl (e, q)) ↦
        rw q (unsent_again refused refl (no_auth-Unsendable true (λ a c. ground (arith, q, c))))
    | inr (inr q) ↦
        rw q (unsent_again refused refl (no_auth-Unsendable true (λ a c. ground (arith, q, c))))
    | inl (again, q) ↦ rw q (
        again-Forwarding auth again req resp (do_forward o h 1 incoming body again) refused
          (do_forward-Tried 1 true again q))
  ]

  answered-Forwarding :
      (auth : ProxyAuth) (req : Request) (resp : Response)
      → IsFor false auth req
      → o.send 0 req ≡ ok resp
      → Forwarding
          ((asked_auth false ∷ sent req ∷ [], ok resp) then_on answered o h incoming body auth)
  answered-Forwarding auth req resp f replied =
      elim (Bool-cases (not (eqb resp.status_code 401) || not (retries_unauthorized auth.method))) [
        | inl q ↦ rw q (sent_once f (rw replied refl) (λ r e. ground (arith, q, e)))
        | inr q ↦ rw q (
            retry-Forwarding auth req resp (record {
              first = f;
              replied = replied;
              unauthorized = ground (arith, q);
              retries = ground (arith, q);
            }))
      ]

  first-Forwarding :
      (auth : ProxyAuth) (m : Acts Response)
      → Tried 0 false auth m
      → Forwarding (
          (asked_auth false ∷ [], ok auth) then_on λ a. (m then_on answered o h incoming body auth))
  first-Forwarding auth m (kept_back {r = ok resp} e never) = ground (arith, e)
  first-Forwarding auth m (kept_back {r = err x} e never) = unsent refl never
  first-Forwarding auth m (kept_back {r = panic} e never) = unsent refl never
  first-Forwarding auth m (went_out {req} {r = ok resp} f e) =
      answered-Forwarding auth req resp f
        (wrap_err-ok "send upstream request" (o.send 0 req) resp e)
  first-Forwarding auth m (went_out {r = err x} f e) = sent_once f e (λ r q. ground (arith, q))
  first-Forwarding auth m (went_out {r = panic} f e) = sent_once f e (λ r q. ground (arith, q))

  -- Whatever the provider and the HTTP client answer, what is done and returned for a request that is
  -- forwarded is one of four cases: nothing is sent, and nothing could be with the current credentials;
  -- it is sent once, with these, and the answer returned, which is no 401 to a method that retries;
  -- the answer was such a 401, its body is closed and refreshed credentials are asked for, but nothing
  -- more could be sent with those; or it is then sent once more with the refreshed credentials, and
  -- the second answer returned.
  pub forward_with_retry-Forwarding : Forwarding (forward_with_retry o h incoming body)
  unfolding forward_with_retry
  forward_with_retry-Forwarding = elim (Result-cases (o.current_auth false)) [
    | inr (inl (e, q)) ↦ rw q (unsent refl (no_auth-Unsendable false (λ a c. ground (arith, q, c))))
    | inr (inr q) ↦ rw q (unsent refl (no_auth-Unsendable false (λ a c. ground (arith, q, c))))
    | inl (auth, q) ↦ rw q (
        first-Forwarding auth (do_forward o h 0 incoming body auth)
          (do_forward-Tried 0 false auth q))
  ]
