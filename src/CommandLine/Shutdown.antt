-- ===== src/CommandLine/Shutdown.antt =====
-- cmd/codex-a2a/main.go: which processes are left when the program ends.
use codex_a2a.Base.{
  ℕ, String, ◌≡◌, refl, ◌∙◌, ◌⊎◌, inl, inr, Bool, true, false, ◌&&◌, Option, none, some, List, [],
  ◌∷◌, Error, Result, ok, err, panic, eqb, ◌==◌, Bool-cases, Option-cases, arith, if◌then◌else◌,
}
use codex_a2a.Base.Maps.{Map, lookup}
use codex_a2a.Config.{Config}
use codex_a2a.Broker.Sessions.{Broker, new_broker, without}
use codex_a2a.Broker.Tasks.{release_client, close_tasks, close}
use codex_a2a.Broker.Invariant.{client_of}
use codex_a2a.Client.Launch.{Act, killed, Outside}
use codex_a2a.Client.Leaks.{is_running, is_running-append, is_ok}
use codex_a2a.AuthProxy.Forward.{Url, Handler}
use codex_a2a.AuthProxy.Provider.{
  close_provider, new_codex_auth_proxy_handler, new_codex_auth_proxy_handler-leaves,
}
use codex_a2a.Executor.Execute.{new_executor, close_executor}
use codex_a2a.CommandLine.Serve.{
  close_helper, run_handler, run_auth_proxy, Ending, returned, exited, crashed, died, Serving,
  serve_until_signal, deferred, run_a2a_server,
}

abbrev pub runs : ℕ → List ℕ → Bool
runs c [] = false
runs c (d ∷ ds) = let rest = runs c ds in if eqb d c then true else rest

runs-without_self : (c : ℕ) (ps : List ℕ) → runs c (without c ps) ≡ false
runs-without_self c [] = refl
runs-without_self c (p ∷ ps) = ground (arith, runs-without_self c ps)

runs-without : (c d : ℕ) (ps : List ℕ) → runs c ps ≡ false → runs c (without d ps) ≡ false
runs-without c d [] h = refl
runs-without c d (p ∷ ps) h = ground (arith, h, runs-without c d ps)

-- The process is closed, or its session still holds it.
abbrev Held : ℕ → ℕ → Broker → Type 0
Held c q b = ((b.session q).client ≡ some c) ⊎ (runs c b.running ≡ false)

release_client-absent :
    (c q : ℕ) (b : Broker) → runs c b.running ≡ false → runs c (release_client q b).running ≡ false
unfolding release_client
release_client-absent c q b h = elim (Option-cases (b.session q).client) [
  | inl e ↦ rw e h
  | inr (d, e) ↦ rw e (runs-without c d b.running h)
]

release_client-stops :
    (c q : ℕ) (b : Broker) → Held c q b → runs c (release_client q b).running ≡ false
unfolding release_client
release_client-stops c q b (inl e) = rw e (runs-without_self c b.running)
release_client-stops c q b (inr h) = release_client-absent c q b h

release_client-kept :
    (q p : ℕ) (b : Broker)
    → eqb p q ≡ false
    → ((release_client p b).session q).client ≡ (b.session q).client
unfolding release_client
release_client-kept q p b h = ground (arith, h)

release_client-Held : (c q p : ℕ) (b : Broker) → Held c q b → Held c q (release_client p b)
release_client-Held c q p b (inl e) = elim (Bool-cases (eqb p q)) [
  | inl same ↦
      (let one : p ≡ q = ground (arith, same) in inr (rw one (release_client-stops c q b (inl e))))
  | inr other ↦ inl (release_client-kept q p b other ∙ e)
]
release_client-Held c q p b (inr h) = inr (release_client-absent c p b h)

release_client-runtime : (q : ℕ) (b : Broker) → (release_client q b).runtime ≡ b.runtime
unfolding release_client
release_client-runtime q b = ground arith

close_tasks-absent :
    (c : ℕ) (es : Map ℕ) (b : Broker)
    → runs c b.running ≡ false
    → runs c (close_tasks es b).running ≡ false
unfolding close_tasks
close_tasks-absent c [] b h = h
close_tasks-absent c ((t, r) ∷ es) b h =
    close_tasks-absent c es (release_client (b.runtime r).session b)
      (release_client-absent c (b.runtime r).session b h)

close_tasks-stops :
    (c : ℕ) (t : String) (r : ℕ) (es : Map ℕ) (b : Broker)
    → lookup t es ≡ some r
    → Held c (b.runtime r).session b
    → runs c (close_tasks es b).running ≡ false
unfolding close_tasks lookup
close_tasks-stops c t r [] b e h = ground (arith, e)
close_tasks-stops c t r ((u, q) ∷ es) b e h =
    let p = (b.runtime q).session in
    elim (Bool-cases (u == t)) [
      | inl here ↦
          (let one : q ≡ r = ground (arith, here, e) in
            close_tasks-absent c es (release_client p b) (release_client-stops c p b (rw one h)))
      | inr there ↦
          close_tasks-stops c t r es (release_client p b) (ground (arith, there, e))
            (rw (release_client-runtime p b) (release_client-Held c (b.runtime r).session p b h))
    ]

close-stops :
    (c : ℕ) (t : String) (r : ℕ) (b : Broker)
    → lookup t b.tasks ≡ some r
    → client_of b r ≡ some c
    → runs c (close b).running ≡ false
unfolding close
close-stops c t r b active holds = close_tasks-stops c t r b.tasks b active (inl holds)

-- What becomes of a process that an active task holds when the requests are over.
abbrev pub Stops : ℕ → Broker → Option Broker × Ending → Type 0
Stops c served (some b, returned) = runs c b.running ≡ false
Stops c served (some b, exited message) = b ≡ served
Stops c served (some b, crashed) = runs c b.running ≡ false
Stops c served (some b, died) = b ≡ served
Stops c served (none, ending) = ⊥

deferred-Stops :
    (c : ℕ) (t : String) (r : ℕ) (b : Broker) (ending : Ending)
    → lookup t b.tasks ≡ some r
    → client_of b r ≡ some c
    → Stops c b (some (deferred close_executor b ending).0, (deferred close_executor b ending).1)
unfolding close_executor
deferred-Stops c t r b returned active holds = close-stops c t r b active holds
deferred-Stops c t r b (exited message) active holds = refl
deferred-Stops c t r b crashed active holds = close-stops c t r b active holds
deferred-Stops c t r b died active holds = refl

-- When the a2a server ends by returning from `main`, or by a panic of the goroutine that runs `main`, the
-- process of every task that is still active has been closed. When `log.Fatalf` or a panic of any other
-- goroutine ends it, the deferred `Close` is not made and the broker, with every such process, is as the
-- requests left it.
pub run_a2a_server-Stops :
    (requests : Broker → Broker) (s : Serving) (cfg : Config) (b : Broker) (t : String) (r c : ℕ)
    → new_broker cfg ≡ ok b
    → lookup t (requests b).tasks ≡ some r
    → client_of (requests b) r ≡ some c
    → Stops c (requests b) (run_a2a_server requests s cfg)
unfolding run_a2a_server new_executor
run_a2a_server-Stops requests s cfg b t r c start active holds =
    rw start (deferred-Stops c t r (requests b) (serve_until_signal s) active holds)

abbrev is_cut_short : Ending → Bool
is_cut_short (exited message) = true
is_cut_short returned = false
is_cut_short crashed = false
is_cut_short died = true

module _ (o : Outside) where
  abbrev pub LeavesHelper : Result Error Handler → List Act × Ending → Type 0
  LeavesHelper x (acts, ending) =
      (is_running o acts false ≡ is_ok x && is_cut_short ending) ⊎ (x ≡ panic)

  deferred-LeavesHelper :
      (acts : List Act) (h : Handler) (ending : Ending)
      → is_running o acts false ≡ true
      → LeavesHelper (ok h) (deferred close_helper acts ending)
  unfolding close_provider
  deferred-LeavesHelper acts h returned running = inl (is_running-append o acts (killed ∷ []) false)
  deferred-LeavesHelper acts h (exited message) running = inl running
  deferred-LeavesHelper acts h died running = inl running
  deferred-LeavesHelper acts h crashed running = inl (is_running-append o acts (killed ∷ []) false)

  handler-LeavesHelper :
      (s : Serving) (acts : List Act) (x : Result Error Handler)
      → (is_running o acts false ≡ is_ok x) ⊎ (x ≡ panic)
      → LeavesHelper x (run_handler s (acts, x))
  handler-LeavesHelper s acts (ok h) (inl running) =
      deferred-LeavesHelper acts h (serve_until_signal s) running
  handler-LeavesHelper s acts (ok h) (inr e) = ground (arith, e)
  handler-LeavesHelper s acts (err e) (inl running) = inl running
  handler-LeavesHelper s acts (err e) (inr p) = ground (arith, p)
  handler-LeavesHelper s acts panic h = inr refl

  -- Whatever the calls of Go's library and the helper answer, the auth proxy leaves its helper process
  -- running exactly where its handler was made and `log.Fatalf`, or a panic of another goroutine than
  -- that of `main`, ended the server, unless making the handler panicked.
  pub run_auth_proxy-LeavesHelper :
      (parse : String → Result Error Url) (s : Serving) (cfg : Config)
      (api_key_url chatgpt_url : String)
      → LeavesHelper
          (new_codex_auth_proxy_handler o parse cfg api_key_url chatgpt_url).1
          (run_auth_proxy o parse s cfg api_key_url chatgpt_url)
  unfolding run_auth_proxy
  run_auth_proxy-LeavesHelper parse s cfg api_key_url chatgpt_url =
      handler-LeavesHelper s (new_codex_auth_proxy_handler o parse cfg api_key_url chatgpt_url).0
        (new_codex_auth_proxy_handler o parse cfg api_key_url chatgpt_url).1
        (new_codex_auth_proxy_handler-leaves o parse cfg api_key_url chatgpt_url)
