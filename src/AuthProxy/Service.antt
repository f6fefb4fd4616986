-- ===== src/AuthProxy/Service.antt =====
-- internal/service/auth_proxy.go: the handler as a whole, and the credentials it gets.
use mathlib.Core.List.{◌++◌ as append, append-nil}
use codex_a2a.Base.{
  ℕ, suc, String, ◌≡◌, ◌≢◌, ◌↔◌, refl, sym, ap, ◌∙◌, inl, inr, Bool, not, ◌||◌, Bool-cases, List,
  [], ◌∷◌, Error, Result, ok, err, panic, wrap_err, ◌==◌, ==_iff, arith,
}
use codex_a2a.Base.Maps.{Map}
use codex_a2a.AuthProxy.Forward.{
  Handler, Request, Response, Act, asked_auth, sent, closed_body, Acts, Outside, Incoming,
  forward_with_retry, relay, forward_body, serve_http,
}
use codex_a2a.AuthProxy.Retry.{
  listed, Forwarding, unsent, sent_once, unsent_again, sent_again, forward_with_retry-Forwarding,
}

-- The responses whose bodies are closed, in order.
abbrev pub closed : List Act → List Response
closed [] = []
closed (closed_body resp ∷ acts) = resp ∷ closed acts
closed (sent req ∷ acts) = closed acts
closed (asked_auth refresh ∷ acts) = closed acts

listed-wrap : (p : String) (r : Result Error Response) → listed (wrap_err p r) ≡ listed r
listed-wrap p (ok resp) = refl
listed-wrap p (err e) = refl
listed-wrap p panic = refl

closed-append : (xs ys : List Act) → closed (append xs ys) ≡ append (closed xs) (closed ys)
closed-append [] ys = refl
closed-append (closed_body resp ∷ xs) ys = ap (◌∷◌ resp) (closed-append xs ys)
closed-append (sent req ∷ xs) ys = closed-append xs ys
closed-append (asked_auth refresh ∷ xs) ys = closed-append xs ys

-- What `ServeHTTP` refuses.
abbrev is_forbidden : Incoming → Bool
is_forbidden req =
    not (req.method == "POST") || not (req.path == "/v1/responses") || not (req.raw_query == "")

module _ (o : Outside) (h : Handler) where
  -- The responses that are received, where `n` requests have been sent before.
  abbrev pub received : ℕ → List Act → List Response
  received n [] = []
  received n (sent req ∷ acts) = append (listed (o.send n req)) (received (suc n) acts)
  received n (closed_body resp ∷ acts) = received n acts
  received n (asked_auth refresh ∷ acts) = received n acts

  received-closing :
      (n : ℕ) (acts : List Act) (resp : Response)
      → received n (append acts (closed_body resp ∷ [])) ≡ received n acts
  received-closing n [] resp = refl
  received-closing n (sent req ∷ acts) resp =
      ap (append (listed (o.send n req))) (received-closing (suc n) acts resp)
  received-closing n (closed_body x ∷ acts) resp = received-closing n acts resp
  received-closing n (asked_auth x ∷ acts) resp = received-closing n acts resp

  last_received :
      (req : Request) (n : ℕ) (r : Result Error Response)
      → wrap_err "send upstream request" (o.send n req) ≡ r
      → append (listed (o.send n req)) [] ≡ listed r
  last_received req n r e =
      append-nil (listed (o.send n req))
      ∙ sym (listed-wrap "send upstream request" (o.send n req))
      ∙ ap (λ x. listed x) e

  Forwarding-received :
      (incoming : Map (List String)) (body : String) (m : Acts Response)
      → Forwarding o h incoming body m
      → received 0 m.0 ≡ append (closed m.0) (listed m.1)
  Forwarding-received incoming body m (unsent e never) = sym e
  Forwarding-received incoming body m (sent_once {req} {r} f e final) = last_received req 0 r e
  Forwarding-received incoming body m (unsent_again {resp} f e never) = rw (f.replied, e) refl
  Forwarding-received incoming body m (sent_again {second} {resp} f g e) =
      rw f.replied (ap (◌∷◌ resp) (last_received second 1 _ e))

  relay-closes :
      (m : Acts Response)
      → received 0 m.0 ≡ append (closed m.0) (listed m.1)
      → received 0 (relay o h m).0 ≡ closed (relay o h m).0
  relay-closes (acts, ok resp) e =
      received-closing 0 acts resp ∙ e ∙ sym (closed-append acts (closed_body resp ∷ []))
  relay-closes (acts, err x) e = e ∙ append-nil (closed acts)
  relay-closes (acts, panic) e = e ∙ append-nil (closed acts)

  forward_body-closes :
      (incoming : Map (List String)) (body : Result Error String)
      → received 0 (forward_body o h incoming body).0 ≡ closed (forward_body o h incoming body).0
  forward_body-closes incoming (ok body) =
      relay-closes (forward_with_retry o h incoming body)
        (Forwarding-received incoming body _ (forward_with_retry-Forwarding o h incoming body))
  forward_body-closes incoming (err e) = refl
  forward_body-closes incoming panic = refl

  -- For every request and whatever the outside answers, the bodies that the handler has closed when
  -- it returns are those of the answers that it has received, each once and in their order.
  pub serve_http-closes :
      (req : Incoming) → received 0 (serve_http o h req).0 ≡ closed (serve_http o h req).0
  unfolding serve_http
  serve_http-closes req = elim (Bool-cases (is_forbidden req)) [
    | inl q ↦ rw q refl
    | inr q ↦ rw q (forward_body-closes req.header req.body)
  ]

  relay-nonempty : (m : Acts Response) → m.0 ≢ [] → (relay o h m).0 ≢ []
  relay-nonempty ([], ok resp) n = absurd (n refl)
  relay-nonempty (act ∷ acts, ok resp) n = λ e. ground (arith, e)
  relay-nonempty (acts, err e) n = n
  relay-nonempty (acts, panic) n = n

  Forwarding-nonempty :
      (incoming : Map (List String)) (body : String) (m : Acts Response)
      → Forwarding o h incoming body m
      → m.0 ≢ []
  Forwarding-nonempty incoming body m (unsent e never) = λ e. ground (arith, e)
  Forwarding-nonempty incoming body m (sent_once f e final) = λ e. ground (arith, e)
  Forwarding-nonempty incoming body m (unsent_again f e never) = λ e. ground (arith, e)
  Forwarding-nonempty incoming body m (sent_again f g e) = λ e. ground (arith, e)

  forward_body-acts :
      {P Q R : Type 0} (incoming : Map (List String)) (body : Result Error String)
      → P × Q × R
      → ((forward_body o h incoming body).0 ≢ [])
        ↔ (P × Q × R × ((text : String) × (body ≡ ok text)))
  forward_body-acts incoming (ok body) (p, q, r) = (
    λ n. (p, q, r, (body, refl)),
    λ a.
        relay-nonempty (forward_with_retry o h incoming body)
          (Forwarding-nonempty incoming body _ (forward_with_retry-Forwarding o h incoming body)),
  )
  forward_body-acts incoming (err e) (p, q, r) =
      ((λ n. absurd (n refl)), λ a. ground (arith, a.3.1))
  forward_body-acts incoming panic (p, q, r) = ((λ n. absurd (n refl)), λ a. ground (arith, a.3.1))

  -- The handler calls the provider or the HTTP client exactly for a POST to /v1/responses that has no
  -- query and a body that can be read; any other request touches nothing outside.
  pub serve_http-allowed :
      (req : Incoming)
      → ((serve_http o h req).0 ≢ []) ↔ (
          (req.method ≡ "POST")
          × (req.path ≡ "/v1/responses")
          × (req.raw_query ≡ "")
          × ((body : String) × (req.body ≡ ok body)))
  unfolding serve_http
  serve_http-allowed req = elim (Bool-cases (is_forbidden req)) [
    | inl q ↦ rw q (
      (λ n. absurd (n refl)),
      λ h. ground (
        arith,
        q,
        h,
        ==_iff req.method "POST",
        ==_iff req.path "/v1/responses",
        ==_iff req.raw_query "",
      ),
    )
    | inr q ↦ rw q (
        forward_body-acts req.header req.body (
          ground (
            arith,
            q,
            ==_iff req.method "POST",
            ==_iff req.path "/v1/responses",
            ==_iff req.raw_query "",
          )))
  ]
