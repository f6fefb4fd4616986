-- ===== src/CommandLine/Serve.antt =====
-- cmd/codex-a2a/main.go, lines 92 to 166: serving until a signal, and what is closed on the way out.
-- `log.Fatalf` ends the process at once: calls that were deferred are not made.
use Prim.Native.String.{◌++◌}
use mathlib.Core.List.{◌++◌ as append}
use codex_a2a.Base.{
  String, Bool, if◌then◌else◌, false, Option, none, some, List, [], ◌∷◌, Error, error_text, Result,
  ok, err, panic,
}
use codex_a2a.Client.Launch.{Act, killed, Outside}
use codex_a2a.AuthProxy.Forward.{Url, Handler}
use codex_a2a.AuthProxy.Provider.{
  ProviderAct, cancelled_drain, waited_for_drain, closed_client, close_provider,
  new_codex_auth_proxy_handler,
}
use codex_a2a.MockResponses.{ObjectJson, MockHandler, new_mock_responses_handler}
use codex_a2a.Config.{Config}
use codex_a2a.Broker.Sessions.{Broker}
use codex_a2a.Executor.Execute.{new_executor, close_executor}

-- How the program ends: `main` returns, or `log.Fatalf` with a text, or a panic of the goroutine that
-- runs `main`, or one of any other goroutine, which makes no deferred call of `main`.
pub data Ending : Type 0 where
  returned : Ending
  exited : String → Ending
  crashed died : Ending

-- What the outside answers while a server runs: `net.Listen`, an error of `Serve` that is not
-- `http.ErrServerClosed` and ends the program before `main` does, a panic of another goroutine, of which
-- the first to end the program is meant, and `Shutdown`, which gives up on
-- the requests that are still served when its five seconds have passed.
pub record Serving : Type 0 where
  pub listened : Result Error Unit
  pub served : Option Error
  pub aborted : Bool
  pub shut_down : Result Error Unit

abbrev after_shutdown : Result Error Unit → Ending
after_shutdown (ok u) = returned
after_shutdown (err e) = exited ("shutdown: " ++ error_text e)
after_shutdown panic = crashed

abbrev while_serving : Option Error → Result Error Unit → Ending
while_serving (some e) shut_down = exited ("serve: " ++ error_text e)
while_serving none shut_down = after_shutdown shut_down

abbrev after_listen : Serving → Result Error Unit → Ending
after_listen s (ok u) = if s.aborted then died else while_serving s.served s.shut_down
after_listen s (err e) = exited ("listen: " ++ error_text e)
after_listen s panic = crashed

-- `serveUntilSignal`, up to its return or the end of the process.
unfoldable pub serve_until_signal : Serving → Ending
serve_until_signal s = after_listen s s.listened

-- A deferred call is made on a return and on a panic of its own goroutine.
abbrev pub deferred : {A : Type 0} → (A → A) → A → Ending → A × Ending
deferred f a returned = (f a, returned)
deferred f a (exited message) = (a, exited message)
deferred f a crashed = (f a, crashed)
deferred f a died = (a, died)

-- `runA2AServer`: `requests` is what the requests do to the executor's broker while they are served.
abbrev pub run_executor : (Broker → Broker) → Serving → Result Error Broker → Option Broker × Ending
run_executor requests s (ok b) =
    let (d, ending) = deferred close_executor (requests b) (serve_until_signal s) in
    (some d, ending)
run_executor requests s (err e) = (none, exited ("configure executor: " ++ error_text e))
run_executor requests s panic = (none, crashed)

unfoldable pub run_a2a_server : (Broker → Broker) → Serving → Config → Option Broker × Ending
unfolding serve_until_signal close_executor new_executor
run_a2a_server requests s cfg = run_executor requests s (new_executor cfg)

-- What `Close` of the provider does to the helper process.
abbrev pub provider_closed : List ProviderAct → List Act
provider_closed [] = []
provider_closed (cancelled_drain ∷ acts) = provider_closed acts
provider_closed (waited_for_drain ∷ acts) = provider_closed acts
provider_closed (closed_client ∷ acts) = killed ∷ provider_closed acts

abbrev pub close_helper : List Act → List Act
close_helper acts = append acts (provider_closed (close_provider (record { once = false })).0)

abbrev pub run_handler : Serving → List Act × Result Error Handler → List Act × Ending
run_handler s (acts, ok h) = deferred close_helper acts (serve_until_signal s)
run_handler s (acts, err e) = (acts, exited ("configure auth proxy: " ++ error_text e))
run_handler s (acts, panic) = (acts, crashed)

-- `runAuthProxy`: what it does to the helper process.
unfoldable pub run_auth_proxy :
    Outside → (String → Result Error Url) → Serving → Config → String → String → List Act × Ending
unfolding serve_until_signal close_provider
run_auth_proxy o parse s cfg api_key_url chatgpt_url =
    run_handler s (new_codex_auth_proxy_handler o parse cfg api_key_url chatgpt_url)

abbrev run_mock : Serving → Result Error MockHandler → Ending
run_mock s (ok h) = serve_until_signal s
run_mock s (err e) = exited ("configure mock responses handler: " ++ error_text e)
run_mock s panic = crashed

-- `runMockResponses`
unfoldable pub run_mock_responses : ObjectJson → Serving → String → String → Ending
unfolding serve_until_signal
run_mock_responses json s text item_json =
    run_mock s (new_mock_responses_handler json text item_json)
