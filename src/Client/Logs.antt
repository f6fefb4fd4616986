-- ===== src/Client/Logs.antt =====
-- internal/service/codex_client.go: the tail of stderr and the environment that are kept.
use mathlib.Core.List.{◌++◌ as append, append_assoc, append-nil}
use codex_a2a.Base.{
  ℕ, zero, suc, ◌+◌, ◌-◌, ◌≤◌, String, ◌≡◌, refl, sym, ap, ◌∙◌, inl, inr, Bool-cases, Option, none,
  some, List, [], ◌∷◌, ltb, ◌==◌, if◌then◌else◌, length, drop, length-append, length-drop, arith,
}
use codex_a2a.Base.Text.{trim_space}
use codex_a2a.Client.Lines.{keep_last, stderr_tail_lines, append_stderr, lookup_env, or_found}

-- The lines that are not blank, trimmed.
abbrev pub trimmed_lines : List String → List String
trimmed_lines [] = []
trimmed_lines (text ∷ texts) =
    let line = trim_space text in
    if line == "" then trimmed_lines texts else line ∷ trimmed_lines texts

-- `stderrLoop` on these lines.
abbrev pub append_lines : List String → List String → List String
append_lines [] tail = tail
append_lines (text ∷ texts) tail = append_lines texts (append_stderr text tail)

-- The same, written as a drop.
keep_last-drop : (n : ℕ) (xs : List String) → keep_last n xs ≡ drop (length xs - n) xs
keep_last-drop n xs = elim (Bool-cases (ltb n (length xs))) [
  | inl q ↦ rw q refl
  | inr q ↦
      (let none_over : length xs - n ≡ 0 = ground (arith, q) in
        rw q (sym (ap (λ k. drop k xs) none_over)))
]

drop-append :
    (n : ℕ) (xs ys : List String) → n ≤ length xs → drop n (append xs ys) ≡ append (drop n xs) ys
drop-append zero xs ys h = refl
drop-append (suc n) [] ys h = ground (arith, h)
drop-append (suc n) (x ∷ xs) ys h = drop-append n xs ys (omega (arith, h))

abbrev no_lines : List String
no_lines = []

drop_nil : (n : ℕ) → drop n no_lines ≡ []
drop_nil zero = refl
drop_nil (suc n) = refl

drop-drop : (m n : ℕ) (xs : List String) → drop m (drop n xs) ≡ drop (n + m) xs
drop-drop m zero xs = ap (λ k. drop k xs) (omega arith)
drop-drop m (suc n) [] = drop_nil m ∙ sym (drop_nil (suc n + m))
drop-drop m (suc n) (x ∷ xs) =
    (let shift : suc (n + m) ≡ suc n + m = omega arith in
      drop-drop m n xs ∙ ap (λ k. drop k (x ∷ xs)) shift)

keep_last-append :
    (n : ℕ) (xs ys : List String)
    → keep_last n (append (keep_last n xs) ys) ≡ keep_last n (append xs ys)
keep_last-append n xs ys =
    let a = length xs - n in
    let b = length (append (drop a xs) ys) - n in
    let all : a + b ≡ length (append xs ys) - n =
      omega (arith, length-append (drop a xs) ys, length-append xs ys, length-drop a xs) in
    ap (λ zs. keep_last n (append zs ys)) (keep_last-drop n xs)
    ∙ keep_last-drop n (append (drop a xs) ys)
    ∙ ap (λ zs. drop b zs) (sym (drop-append a xs ys (omega arith)))
    ∙ drop-drop b a (append xs ys)
    ∙ ap (λ k. drop k (append xs ys)) all
    ∙ sym (keep_last-drop n (append xs ys))

length-keep_last : (n : ℕ) (xs : List String) → length (keep_last n xs) ≤ n
length-keep_last n xs = rw (keep_last-drop n xs, length-drop (length xs - n) xs) (omega arith)

append_lines-keep_last :
    (texts kept : List String)
    → append_lines texts (keep_last stderr_tail_lines kept)
      ≡ keep_last stderr_tail_lines (append kept (trimmed_lines texts))
unfolding append_stderr
append_lines-keep_last [] kept = ap (keep_last stderr_tail_lines) (sym (append-nil kept))
append_lines-keep_last (text ∷ texts) kept = elim (Bool-cases (trim_space text == "")) [
  | inl q ↦ rw q (append_lines-keep_last texts kept)
  | inr q ↦ rw q (
      ap (append_lines texts) (keep_last-append stderr_tail_lines kept (trim_space text ∷ []))
      ∙ append_lines-keep_last texts (append kept (trim_space text ∷ []))
      ∙ ap (keep_last stderr_tail_lines)
          (append_assoc kept (trim_space text ∷ []) (trimmed_lines texts)))
]

-- After any lines of stderr, the tail is the last 20 of those that are not blank, trimmed: it is
-- their whole list where there are at most 20, and it never has more.
pub append_lines_lem :
    (texts : List String)
    → (append_lines texts [] ≡ drop (length (trimmed_lines texts) - 20) (trimmed_lines texts))
      × (length (append_lines texts []) ≤ 20)
append_lines_lem texts =
    let same = append_lines-keep_last texts [] in
    (
      same ∙ keep_last-drop 20 (trimmed_lines texts),
      rw same (length-keep_last 20 (trimmed_lines texts)),
    )

or_found_assoc : (a b c : Option String) → or_found (or_found a b) c ≡ or_found a (or_found b c)
or_found_assoc none b c = refl
or_found_assoc (some x) b c = refl

or_found-none : (a : Option String) → or_found a none ≡ a
or_found-none none = refl
or_found-none (some x) = refl

-- In an environment followed by another, a key has the value that the second gives it, and that of
-- the first only where the second does not set it.
pub lookup_env-append :
    (first second : List String) (key : String)
    → lookup_env (append first second) key ≡ or_found (lookup_env second key) (lookup_env first key)
unfolding lookup_env
lookup_env-append [] second key = sym (or_found-none (lookup_env second key))
lookup_env-append (entry ∷ first) second key =
    rw (lookup_env-append first second key)
      (or_found_assoc (lookup_env second key) (lookup_env first key) _)
