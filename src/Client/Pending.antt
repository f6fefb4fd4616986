-- ===== src/Client/Pending.antt =====
-- The calls that wait for an answer: their channels are open, empty and different.
use codex_a2a.Base.{
  ℕ, suc, ◌<◌, String, ◌≡◌, ◌≢◌, refl, ◌∙◌, ◌⊎◌, inl, inr, false, Bool-cases, none, some, [], ◌∷◌,
  arith, ◌==◌, ==_iff, eqb, eqb_refl,
}
use codex_a2a.Base.Maps.{Map, lookup, remove, update}
use codex_a2a.Client.Lines.{Response}
use codex_a2a.Client.State.{Chan, done_with, answer_all, put, close_chan}

pub record IsFresh (ch : Chan) : Type 0 where
  pub empty : ch.content ≡ none
  pub open_ : ch.shut ≡ false
  pub unowned : ch.owner ≡ none
  pub unheard : ch.received ≡ false

abbrev pub IsAbsent : ℕ → Map ℕ → Type 0
IsAbsent ch [] = Unit {0}
IsAbsent ch ((key, other) ∷ m) = (other ≢ ch) × IsAbsent ch m

-- `next` is the first reference that is not in use.
abbrev pub IsPending : (ℕ → Chan) → ℕ → Map ℕ → Type 0
IsPending chan next [] = Unit {0}
IsPending chan next ((key, ch) ∷ m) =
    (IsFresh (chan ch) × ((chan ch).key ≡ key) × (ch < next) × IsAbsent ch m)
    × IsPending chan next m

remove-IsAbsent : (key : String) (ch : ℕ) (m : Map ℕ) → IsAbsent ch m → IsAbsent ch (remove key m)
unfolding remove
remove-IsAbsent key ch [] h = tt
remove-IsAbsent key ch ((k, c) ∷ m) h = elim (Bool-cases (k == key)) [
  | inl q ↦ rw q (remove-IsAbsent key ch m h.1)
  | inr q ↦ rw q (h.0, remove-IsAbsent key ch m h.1)
]

lookup-IsAbsent :
    (key : String) (c ch : ℕ) (m : Map ℕ) → IsAbsent c m → lookup key m ≡ some ch → c ≢ ch
unfolding lookup
lookup-IsAbsent key c ch [] a h = ground (arith, h)
lookup-IsAbsent key c ch ((k, d) ∷ m) a h = elim (Bool-cases (k == key)) [
  | inl q ↦ (let same = rw q at h in λ e. a.0 (ground (arith, same, e)))
  | inr q ↦ lookup-IsAbsent key c ch m a.1 (rw q at h)
]

module _ (chan : ℕ → Chan) (next : ℕ) where
  pub remove-IsPending :
      (key : String) (m : Map ℕ) → IsPending chan next m → IsPending chan next (remove key m)
  unfolding remove
  remove-IsPending key [] h = tt
  remove-IsPending key ((k, c) ∷ m) (h, rest) = elim (Bool-cases (k == key)) [
    | inl q ↦ rw q (remove-IsPending key m rest)
    | inr q ↦ rw q ((h.0, h.1, h.2, remove-IsAbsent key c m h.3), remove-IsPending key m rest)
  ]

  -- The channel that is found under a key.
  pub record Found (key : String) (ch : ℕ) (m : Map ℕ) : Type 0 where
    pub fresh : IsFresh (chan ch)
    pub named : (chan ch).key ≡ key
    pub used : ch < next
    pub gone : IsAbsent ch (remove key m)

  pub lookup-Found :
      (key : String) (ch : ℕ) (m : Map ℕ)
      → IsPending chan next m
      → lookup key m ≡ some ch
      → Found key ch m
  unfolding lookup remove
  lookup-Found key ch [] h e = ground (arith, e)
  lookup-Found key ch ((k, c) ∷ m) (h, rest) e = elim (Bool-cases (k == key)) [
    | inl q ↦
        (let same : c ≡ ch = ground (arith, rw q at e) in
          rw (← same) (record {
            fresh = h.0;
            named = h.1 ∙ (==_iff k key).0 q;
            used = h.2;
            gone = rw q (remove-IsAbsent key c m h.3);
          }))
    | inr q ↦
        (let found = rw q at e in
          let f = lookup-Found key ch m rest found in
          record {
            fresh = f.fresh;
            named = f.named;
            used = f.used;
            gone = rw q (lookup-IsAbsent key c ch m h.3 found, f.gone);
          })
  ]

  pub update-IsPending :
      (ch : ℕ) (v : Chan) (m : Map ℕ)
      → IsAbsent ch m
      → IsPending chan next m
      → IsPending (update chan ch v) next m
  update-IsPending ch v [] a h = tt
  update-IsPending ch v ((k, c) ∷ m) a (h, rest) =
      let other : update chan ch v c ≡ chan c = ground (arith, a.0) in
      (rw other h, update-IsPending ch v m a.1 rest)

  pub widen-IsPending : (m : Map ℕ) → IsPending chan next m → IsPending chan (suc next) m
  widen-IsPending [] h = tt
  widen-IsPending ((k, c) ∷ m) (h, rest) =
      ((h.0, h.1, ground (arith, h.2), h.3), widen-IsPending m rest)

  -- A reference that is not in use is not pending.
  pub next-IsAbsent : (m : Map ℕ) → IsPending chan next m → IsAbsent next m
  next-IsAbsent [] h = tt
  next-IsAbsent ((k, c) ∷ m) (h, rest) = ((λ e. ground (arith, h.2, e)), next-IsAbsent m rest)

-- What `finish` does to a channel: nothing, or it answers it and closes it.
abbrev pub Answered : Response → Chan → Chan → Type 0
Answered resp before after =
    (after ≡ before) ⊎ (IsFresh before × (after ≡ close_chan (put resp before)))

here-Answered :
    (resp : Response) (ch after : Chan)
    → IsFresh ch
    → Answered resp (close_chan (put resp ch)) after
    → Answered resp ch after
here-Answered resp ch after fresh (inl e) = inr (fresh, e)
here-Answered resp ch after fresh (inr (full, e)) = ground (arith, full.empty)

before-Answered :
    (resp : Response) (c ch : ℕ) (chan : ℕ → Chan) (after : Chan)
    → IsFresh (chan c)
    → Answered resp (update chan c (close_chan (put resp (chan c))) ch) after
    → Answered resp (chan ch) after
before-Answered resp c ch chan after fresh h = elim (Bool-cases (eqb c ch)) [
  | inl q ↦
      (let same : c ≡ ch = ground (arith, q) in
        here-Answered resp (chan ch) after (rw (← same) fresh) (rw (q, same) at h))
  | inr q ↦ rw q at h
]

-- The loop of `finish` meets no channel that is closed or full, and answers pending calls alone.
pub answer_all-IsPending :
    (resp : Response) (next : ℕ) (m : Map ℕ) (chan : ℕ → Chan)
    → IsPending chan next m
    → (heap : ℕ → Chan) × (answer_all resp m chan ≡ done_with heap)
      × ((ch : ℕ) → Answered resp (chan ch) (heap ch))
unfolding answer_all
answer_all-IsPending resp next [] chan h = (chan, refl, λ ch. inl refl)
answer_all-IsPending resp next ((k, c) ∷ m) chan (h, rest) =
    let chan' = update chan c (close_chan (put resp (chan c))) in
    let (heap, done, all) =
      answer_all-IsPending resp next m chan'
        (update-IsPending chan next c (close_chan (put resp (chan c))) m h.3 rest) in
    (
      heap,
      rw (h.0.open_, h.0.empty) done,
      λ ch. before-Answered resp c ch chan (heap ch) h.0 (all ch),
    )

-- The loop of `finish` leaves a channel alone that is not pending, and answers and closes every one
-- that is.
pub record Drained (resp : Response) (m : Map ℕ) (chan heap : ℕ → Chan) : Type 0 where
  pub ends : answer_all resp m chan ≡ done_with heap
  pub left : (ch : ℕ) → IsAbsent ch m → heap ch ≡ chan ch
  pub filled :
      (key : String) (ch : ℕ) → lookup key m ≡ some ch → heap ch ≡ close_chan (put resp (chan ch))

pub answer_all-Drained :
    (resp : Response) (next : ℕ) (m : Map ℕ) (chan : ℕ → Chan)
    → IsPending chan next m
    → (heap : ℕ → Chan) × Drained resp m chan heap
unfolding answer_all lookup
answer_all-Drained resp next [] chan h =
    (chan, record { ends = refl; left = λ ch a. refl; filled = λ key ch e. ground (arith, e) })
answer_all-Drained resp next ((k, c) ∷ m) chan (h, rest) =
    let v = close_chan (put resp (chan c)) in
    let (heap, d) =
      answer_all-Drained resp next m (update chan c v)
        (update-IsPending chan next c v m h.3 rest) in
    let here : heap c ≡ v = d.left c h.3 ∙ rw (eqb_refl c) refl in
    let other : (ch : ℕ) → c ≢ ch → update chan c v ch ≡ chan ch = λ ch n. ground (arith, n) in
    (
      heap,
      record {
        ends = rw (h.0.open_, h.0.empty) d.ends;
        left = λ ch a. d.left ch a.1 ∙ other ch a.0;
        filled = λ key ch e. elim (Bool-cases (k == key)) [
          | inl q ↦ (let same : c ≡ ch = ground (arith, rw q at e) in rw (← same) here)
          | inr q ↦
              (let found = rw q at e in
                let apart = lookup-IsAbsent key c ch m h.3 found in
                rw (← other ch apart) (d.filled key ch found))
        ];
      },
    )
