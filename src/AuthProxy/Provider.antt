-- ===== src/AuthProxy/Provider.antt =====
-- internal/service/auth_proxy.go: the handler together with the helper process that it starts.
use mathlib.Core.List.{append-nil}
use codex_a2a.Base.{
  String, ◌≡◌, refl, ap, ◌∙◌, ◌⊎◌, inl, inr, Bool, true, false, List, [], ◌∷◌, Error, Result, ok,
  err, panic, ◌then_on◌, arith, if◌then◌else◌,
}
use codex_a2a.Config.{Config}
use codex_a2a.Wire.{IncomingMessage}
use codex_a2a.Client.Launch.{Act, killed, Outside, close_on_error, launch_codex_client}
use codex_a2a.Client.Leaks.{is_running, is_running-append, is_ok, Tidy, launch_codex_client-leaves}
use codex_a2a.AuthProxy.Forward.{Url, Handler, new_auth_proxy_handler}

-- What `Close` of the provider does, the first time it is called: it stops the goroutine that drains
-- the notifications, waits for it and closes the client.
pub data ProviderAct : Type 0 where
  cancelled_drain : ProviderAct
  waited_for_drain : ProviderAct
  closed_client : ProviderAct

-- `codexAuthTokenProvider`: whether its `once` has been done.
pub record Provider : Type 0 where
  pub once : Bool

-- `Close`, which returns no error, as the client's `Close` returns none.
unfoldable pub close_provider : Provider → List ProviderAct × Provider
close_provider p =
    if p.once
    then ([], p)
    else (cancelled_drain ∷ waited_for_drain ∷ closed_client ∷ [], record { once = true })

-- `drainNotifications`: what `next` still returns after the goroutine has stopped, at the first error.
unfoldable pub drain_notifications :
    List (Result Error IncomingMessage) → List (Result Error IncomingMessage)
drain_notifications [] = []
drain_notifications (ok message ∷ results) = drain_notifications results
drain_notifications (err e ∷ results) = results
drain_notifications (panic ∷ results) = results

-- `newCodexAuthTokenProvider`: the provider, besides its goroutine, is its client.
abbrev pub new_codex_auth_token_provider : Outside → Config → List Act × Result Error Unit
new_codex_auth_token_provider o cfg = launch_codex_client o cfg

module _ (o : Outside) (parse : String → Result Error Url) where
  -- `NewCodexAuthProxyHandler`: what it does to the helper process, and its result. The provider has
  -- just been made, so closing it closes the client.
  unfoldable pub new_codex_auth_proxy_handler :
      Config → String → String → List Act × Result Error Handler
  new_codex_auth_proxy_handler cfg api_key_url chatgpt_url =
      new_codex_auth_token_provider o cfg then_on λ u.
      close_on_error o ([], new_auth_proxy_handler parse api_key_url chatgpt_url true)

  closed-Tidy :
      (m : List Act × Result Error Unit) (r : Result Error Handler)
      → Tidy o false m
      → Tidy o false (m then_on λ u. close_on_error o ([], r))
  closed-Tidy (acts, ok u) (ok h) (inl running) =
      inl (ap (λ xs. is_running o xs false) (append-nil acts) ∙ running)
  closed-Tidy (acts, ok u) (err e) (inl running) =
      inl (is_running-append o acts (killed ∷ []) false)
  closed-Tidy (acts, ok u) panic t = inr refl
  closed-Tidy (acts, ok u) (ok h) (inr e) = ground (arith, e)
  closed-Tidy (acts, ok u) (err x) (inr e) = ground (arith, e)
  closed-Tidy (acts, err e) r (inl running) = inl running
  closed-Tidy (acts, err e) r (inr x) = ground (arith, x)
  closed-Tidy (acts, panic) r t = inr refl

  -- Whatever the calls of Go's library and the helper answer, and whatever the URLs are, a helper
  -- process runs after `NewCodexAuthProxyHandler` exactly where it has returned a handler, unless the
  -- program has panicked.
  pub new_codex_auth_proxy_handler-leaves :
      (cfg : Config) (api_key_url chatgpt_url : String)
      → (is_running o (new_codex_auth_proxy_handler cfg api_key_url chatgpt_url).0 false
          ≡ is_ok (new_codex_auth_proxy_handler cfg api_key_url chatgpt_url).1)
        ⊎ ((new_codex_auth_proxy_handler cfg api_key_url chatgpt_url).1 ≡ panic)
  unfolding new_codex_auth_proxy_handler
  new_codex_auth_proxy_handler-leaves cfg api_key_url chatgpt_url =
      closed-Tidy (launch_codex_client o cfg)
        (new_auth_proxy_handler parse api_key_url chatgpt_url true)
        (launch_codex_client-leaves o cfg)
