-- ===== src/TaskStore/Tokens.antt =====
-- The page token: what can be read back of what was written.
use Prim.Native.Char.{Char}
use Prim.Native.String.{String, ◌++◌}
use text.Mathlib.TextLemmas.{nil-append, cons-append}
use codex_a2a.Base.{
  ℕ, ◌≡◌, refl, ap, ◌∙◌, inl, inr, Bool, true, false, Bool-cases, some, List, [], ◌∷◌, ok, err,
  ◌==◌, if◌then◌else◌, arith,
}
use codex_a2a.TaskStore.Store.{parse_error}
use codex_a2a.TaskStore.Listing.{
  TokenCodec, cons_first, split_underscore, encode_page_token, decode_page_token,
}

unfoldable pub has_underscore : String → Bool
has_underscore String.[] = false
has_underscore (String.◌∷◌ c s) =
    let rest = has_underscore s in if String.◌∷◌ c "" == "_" then true else rest

split-one : (s : String) → has_underscore s ≡ false → split_underscore s ≡ s ∷ []
unfolding has_underscore split_underscore
split-one String.[] h = refl
split-one (String.◌∷◌ c s) h = elim (Bool-cases (String.◌∷◌ c "" == "_")) [
  | inl q ↦ ground (arith, rw q at h)
  | inr q ↦ rw (q, split-one s (rw q at h)) refl
]

pub one-append : (c : Char) (t : String) → (String.◌∷◌ c "") ++ t ≡ String.◌∷◌ c t
one-append c t = cons-append c "" t ∙ ap (λ s. String.◌∷◌ c s) (nil-append t)

-- The first part ends where the text before an underscore does.
split-append :
    (s t : String)
    → has_underscore s ≡ false
    → split_underscore (s ++ ("_" ++ t)) ≡ s ∷ split_underscore t
unfolding has_underscore split_underscore
split-append String.[] t h = ap split_underscore (nil-append ("_" ++ t) ∙ one-append _ t)
split-append (String.◌∷◌ c s) t h = elim (Bool-cases (String.◌∷◌ c "" == "_")) [
  | inl q ↦ ground (arith, rw q at h)
  | inr q ↦
      ap split_underscore (cons-append c s ("_" ++ t)) ∙ rw (q, split-append s t (rw q at h)) refl
]

-- At least two parts.
cons_first-many :
    (c : Char) (a b : String) (rest parts : List String)
    → parts ≡ a ∷ b ∷ rest
    → cons_first c parts ≡ String.◌∷◌ c a ∷ b ∷ rest
cons_first-many c a b rest parts e = rw e refl

abbrev IsMany : List String → Type 0
IsMany parts = (a : String) × (b : String) × (rest : List String) × (parts ≡ a ∷ b ∷ rest)

split-nonempty :
    (s : String) → (a : String) × (rest : List String) × (split_underscore s ≡ a ∷ rest)
unfolding split_underscore
split-nonempty String.[] = ("", [], refl)
split-nonempty (String.◌∷◌ c s) =
    let (a, rest, e) = split-nonempty s in
    elim (Bool-cases (String.◌∷◌ c "" == "_")) [
      | inl q ↦ ("", split_underscore s, rw q refl)
      | inr q ↦ (String.◌∷◌ c a, rest, rw (q, e) refl)
    ]

split-IsMany : (s : String) → has_underscore s ≡ true → IsMany (split_underscore s)
unfolding has_underscore split_underscore
split-IsMany String.[] h = ground (arith, h)
split-IsMany (String.◌∷◌ c s) h = elim (Bool-cases (String.◌∷◌ c "" == "_")) [
  | inl q ↦ (let (a, rest, e) = split-nonempty s in ("", a, rest, rw (q, e) refl))
  | inr q ↦
      (let (a, b, rest, e) = split-IsMany s (rw q at h) in
        (String.◌∷◌ c a, b, rest, rw (q, e) refl))
]

-- Where base64 and the times are read back as they were written, and a time is written without an
-- underscore, a page token is read back exactly when the id of its task has no underscore; any
-- other token is refused.
pub decode_page_token-encode :
    (codec : TokenCodec) (time : ℕ) (id : String)
    → ((text : String) → codec.decode (codec.encode text) ≡ ok text)
    → codec.parse_time (codec.format_time time) ≡ some time
    → has_underscore (codec.format_time time) ≡ false
    → decode_page_token codec (encode_page_token codec time id)
      ≡ (if has_underscore id then err parse_error else ok (time, id))
unfolding decode_page_token encode_page_token
decode_page_token-encode codec time id decodes parses plain =
    elim (Bool-cases (has_underscore id)) [
      | inl q ↦
          (let (a, b, rest, e) = split-IsMany id q in
            rw (q, decodes, split-append (codec.format_time time) id plain, e) refl)
      | inr q ↦
          rw (q, decodes, split-append (codec.format_time time) id plain, split-one id q, parses)
            refl
    ]
