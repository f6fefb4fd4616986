-- ===== src/Client/Leaks.antt =====
-- internal/service/codex_client.go: `launchCodexClient` leaves a process running only where it returns it.
use mathlib.Core.List.{◌++◌ as append}
use codex_a2a.Base.{
  String, ◌≡◌, refl, ap, ◌∙◌, ◌⊎◌, inl, inr, Bool, true, false, ◌||◌, Option, none, some, List, [],
  ◌∷◌, Error, Result, ok, err, panic, ◌then_on◌, wrap_err, Result-cases,
}
use codex_a2a.Config.{Config}
use codex_a2a.Client.Lines.{Command, codex_command, ensure_codex_home}
use codex_a2a.Client.Launch.{
  stdin, stdout, stderr, Act, made_directory, opened, started, requested, notified, killed, Outside,
  initialize, make_home, open_pipe, close_on_error, launch_codex_client, initialize_params,
}

abbrev pub is_ok : {A : Type 0} → Result Error A → Bool
is_ok (ok a) = true
is_ok (err e) = false
is_ok panic = false

module _ (o : Outside) where
  -- Whether a process runs after these acts.
  abbrev pub is_running : List Act → Bool → Bool
  is_running [] running = running
  is_running (started command ∷ acts) running = is_running acts (is_ok (o.start command) || running)
  is_running (killed ∷ acts) running = is_running acts false
  is_running (made_directory home ∷ acts) running = is_running acts running
  is_running (opened pipe ∷ acts) running = is_running acts running
  is_running (requested method params ∷ acts) running = is_running acts running
  is_running (notified method params ∷ acts) running = is_running acts running

  pub is_running-append :
      (xs ys : List Act) (b : Bool) → is_running (append xs ys) b ≡ is_running ys (is_running xs b)
  is_running-append [] ys b = refl
  is_running-append (started command ∷ xs) ys b = is_running-append xs ys _
  is_running-append (killed ∷ xs) ys b = is_running-append xs ys false
  is_running-append (made_directory home ∷ xs) ys b = is_running-append xs ys b
  is_running-append (opened pipe ∷ xs) ys b = is_running-append xs ys b
  is_running-append (requested method params ∷ xs) ys b = is_running-append xs ys b
  is_running-append (notified method params ∷ xs) ys b = is_running-append xs ys b

  -- A process runs afterwards exactly where there is no error, or the program has panicked.
  abbrev pub Tidy : {A : Type 0} → Bool → List Act × Result Error A → Type 0
  Tidy before m = (is_running m.0 before ≡ is_ok m.1) ⊎ (m.1 ≡ panic)

  quiet-Tidy :
      (m k : List Act × Result Error Unit)
      → is_running m.0 false ≡ false
      → Tidy false k
      → Tidy false (m then_on λ u. k)
  quiet-Tidy (acts, ok u) k q (inl h) =
      inl (is_running-append acts k.0 false ∙ ap (is_running k.0) q ∙ h)
  quiet-Tidy (acts, ok u) k q (inr h) = inr h
  quiet-Tidy (acts, err e) k q h = inl q
  quiet-Tidy (acts, panic) k q h = inr refl

  close_on_error-Tidy :
      (m : List Act × Result Error Unit)
      → is_running m.0 true ≡ true
      → Tidy true (close_on_error o m)
  close_on_error-Tidy (acts, ok u) q = inl q
  close_on_error-Tidy (acts, err e) q = inl (is_running-append acts (killed ∷ []) true)
  close_on_error-Tidy (acts, panic) q = inr refl

  initialize-running : (cfg : Config) → is_running (initialize o cfg).0 true ≡ true
  unfolding initialize
  initialize-running cfg = elim (Result-cases (o.request "initialize" (initialize_params cfg))) [
    | inl (raw, q) ↦ rw q refl
    | inr (inl (e, q)) ↦ rw q refl
    | inr (inr q) ↦ rw q refl
  ]

  start-Tidy :
      (command : Command) (r : Result Error Unit) (k : List Act × Result Error Unit)
      → o.start command ≡ r
      → Tidy true k
      → Tidy false ((started command ∷ [], wrap_err "start codex app-server" r) then_on λ u. k)
  start-Tidy command (ok u) k q (inl h) = inl (ap (λ r. is_running k.0 (is_ok r || false)) q ∙ h)
  start-Tidy command (ok u) k q (inr h) = inr h
  start-Tidy command (err e) k q h = inl (ap (λ r. is_ok r || false) q)
  start-Tidy command panic k q h = inr refl

  home-running : (home : Option String) → is_running (make_home o home).0 false ≡ false
  home-running none = refl
  home-running (some home) = refl

  -- Whatever the calls of Go's library and the process answer, a process runs after
  -- `launchCodexClient` exactly where it has returned a client, unless the program has panicked: where
  -- the greeting fails, the process is killed.
  pub launch_codex_client-leaves :
      (cfg : Config)
      → (is_running (launch_codex_client o cfg).0 false ≡ is_ok (launch_codex_client o cfg).1)
        ⊎ ((launch_codex_client o cfg).1 ≡ panic)
  unfolding launch_codex_client
  launch_codex_client-leaves cfg =
      let command = codex_command cfg o.environ in
      quiet-Tidy (make_home o (ensure_codex_home command.env)) _
        (home-running (ensure_codex_home command.env))
        (quiet-Tidy (open_pipe o stdin) _ refl (
          quiet-Tidy (open_pipe o stdout) _ refl (
            quiet-Tidy (open_pipe o stderr) _ refl (
              start-Tidy command (o.start command) _ refl
                (close_on_error-Tidy (initialize o cfg) (initialize-running cfg))))))
