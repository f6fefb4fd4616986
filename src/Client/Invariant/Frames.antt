-- ===== src/Client/Invariant/Frames.antt =====
-- What moves of one goroutine leave to the others, by what they change.
use codex_a2a.Base.{
  ℕ, eqb, Bool-cases, Error, ◌≤◌, ◌<◌, String, ◌≡◌, ◌≢◌, refl, sym, ap, subst, ◌∙◌, inl, inr, true,
  false, none, some, [], arith,
}
use codex_a2a.Base.Maps.{lookup, update}
use codex_a2a.Client.Lines.{Response}
use codex_a2a.Client.State.{
  Chan, Client, take_pending, register_call, answer_all, closed_response, Sending, done_with,
  blocks, panics,
}
use codex_a2a.Client.Pending.{lookup-Found, answer_all-IsPending, Answered}
use codex_a2a.Client.Invariant.Defs.{IsRead, IsShared, Waits, Frame, KeepsOwned, KeepsCalled}

same-KeepsOwned : (j : ℕ) (ch : Chan) → ch.owner ≡ some j → KeepsOwned j ch ch
same-KeepsOwned j ch mine = record {
  owner = mine;
  shut = refl;
  key = refl;
  empty = λ e. e;
  was_sent = λ e. e;
}

same-KeepsCalled : (ch : Chan) → KeepsCalled ch ch
same-KeepsCalled ch = record { caller = refl; key = refl; received = refl }

module _ (i : ℕ) (c c' : Client) where
  -- A move that leaves the end of the client alone.
  calm-Frame :
      ((ch j : ℕ)
        → j ≢ i
        → (c.chan ch).owner ≡ some j
        → ch < c.next_chan
        → KeepsOwned j (c.chan ch) (c'.chan ch))
      → ((ch : ℕ)
          → (c.chan ch).caller ≢ i
          → ch < c.next_chan
          → KeepsCalled (c.chan ch) (c'.chan ch))
      → c.next_chan ≤ c'.next_chan
      → ((key : String) (resp : Response) → IsRead key resp c.answers → IsRead key resp c'.answers)
      → c'.closed ≡ c.closed
      → c'.finisher ≡ c.finisher
      → c'.events_shut ≡ c.events_shut
      → c'.done_shut ≡ c.done_shut
      → (c.done ≡ none → c'.done ≡ none)
      → Frame i c c'
  calm-Frame owned called grows answers closed finisher events_shut done_shut done = record {
    owned = owned;
    called = called;
    grows = grows;
    answers = answers;
    finishing = λ j other over mine. (closed ∙ over, finisher ∙ mine, events_shut, done_shut, done);
    stays_shut = λ e. done_shut ∙ e;
  }

  -- A move that also leaves the channels of the requests alone.
  pub kept-Frame :
      c'.chan ≡ c.chan
      → c'.next_chan ≡ c.next_chan
      → c'.answers ≡ c.answers
      → c'.closed ≡ c.closed
      → c'.finisher ≡ c.finisher
      → c'.events_shut ≡ c.events_shut
      → c'.done_shut ≡ c.done_shut
      → (c.done ≡ none → c'.done ≡ none)
      → Frame i c c'
  kept-Frame chan next answers =
      calm-Frame (λ ch j other mine used. rw chan (same-KeepsOwned j (c.chan ch) mine))
        (λ ch other used. rw chan (same-KeepsCalled (c.chan ch))) (omega (arith, next))
        (λ key resp read. rw answers read)

  -- A step of `finish`, by the goroutine that runs it.
  pub finish-Frame :
      c.finisher ≡ some i
      → c'.chan ≡ c.chan
      → c'.next_chan ≡ c.next_chan
      → c'.answers ≡ c.answers
      → (c.done_shut ≡ true → c'.done_shut ≡ true)
      → Frame i c c'
  finish-Frame mine chan next answers stays = record {
    owned = λ ch j other own used. rw chan (same-KeepsOwned j (c.chan ch) own);
    called = λ ch other used. rw chan (same-KeepsCalled (c.chan ch));
    grows = omega (arith, next);
    answers = λ key resp read. rw answers read;
    finishing = λ j other over theirs. ground (arith, mine, theirs, other);
    stays_shut = stays;
  }

pub win-Frame :
    (i : ℕ) (c : Client)
    → IsShared c
    → c.closed ≡ false
    → Frame i c (record c { closed = true; finisher = some i })
win-Frame i c s open_ = record {
  owned = λ ch j other mine used. same-KeepsOwned j (c.chan ch) mine;
  called = λ ch other used. same-KeepsCalled (c.chan ch);
  grows = omega arith;
  answers = λ key resp read. read;
  finishing = λ j other over mine. ground (arith, open_, over);
  stays_shut = λ e. e;
}

-- One channel is changed, in a way that its owner and its caller may rely on.
module _ (i d : ℕ) (v : Chan) (c : Client)
    (owned : (j : ℕ) → j ≢ i → (c.chan d).owner ≡ some j → KeepsOwned j (c.chan d) v)
    (called : (c.chan d).caller ≢ i → KeepsCalled (c.chan d) v) where
  changed-KeepsOwned :
      (ch j : ℕ)
      → j ≢ i
      → (c.chan ch).owner ≡ some j
      → ch < c.next_chan
      → KeepsOwned j (c.chan ch) (update c.chan d v ch)
  changed-KeepsOwned ch j other mine used = elim (Bool-cases (eqb d ch)) [
    | inl q ↦
        (let same : d ≡ ch = ground (arith, q) in
          rw (q, ← same) (owned j other (rw (← same) at mine)))
    | inr q ↦ rw q (same-KeepsOwned j (c.chan ch) mine)
  ]

  changed-KeepsCalled :
      (ch : ℕ)
      → (c.chan ch).caller ≢ i
      → ch < c.next_chan
      → KeepsCalled (c.chan ch) (update c.chan d v ch)
  changed-KeepsCalled ch other used = elim (Bool-cases (eqb d ch)) [
    | inl q ↦
        (let same : d ≡ ch = ground (arith, q) in rw (q, ← same) (called (rw (← same) at other)))
    | inr q ↦ rw q (same-KeepsCalled (c.chan ch))
  ]

pub known-Frame :
    (i : ℕ) (key : String) (resp : Response) (ch : ℕ) (c : Client)
    → IsShared c
    → lookup key c.pending ≡ some ch
    → Frame i c (take_pending i key resp ch c)
unfolding take_pending
known-Frame i key resp ch c s found =
    let fresh = (lookup-Found c.chan c.next_chan key ch c.pending s.pendings found).fresh in
    let v = record (c.chan ch) { owner = some i } in
    calm-Frame i c _
      (changed-KeepsOwned i ch v c (λ j other mine. ground (arith, mine, fresh.unowned))
        (λ other. record { caller = refl; key = refl; received = refl }))
      (changed-KeepsCalled i ch v c (λ j other mine. ground (arith, mine, fresh.unowned))
        (λ other. record { caller = refl; key = refl; received = refl }))
      (omega arith) (λ k r read. inr read) refl refl refl refl (λ e. e)

-- The owner of a channel changes what only it may change.
pub owner-Frame :
    (i ch : ℕ) (v : Chan) (c : Client)
    → (c.chan ch).owner ≡ some i
    → KeepsCalled (c.chan ch) v
    → Frame i c (record c { chan = update c.chan ch v })
owner-Frame i ch v c mine called =
    calm-Frame i c _
      (changed-KeepsOwned i ch v c (λ j other theirs. ground (arith, mine, theirs, other))
        (λ o. called))
      (changed-KeepsCalled i ch v c (λ j other theirs. ground (arith, mine, theirs, other))
        (λ o. called))
      (omega arith) (λ k r read. read) refl refl refl refl (λ e. e)

pub hear-Frame :
    (i : ℕ) (key : String) (ch : ℕ) (c : Client)
    → Waits i c key ch
    → Frame i c (record c {
      chan = update c.chan ch (record (c.chan ch) { content = none; received = true });
    })
hear-Frame i key ch c (mine, named, used, unheard) =
    let v = record (c.chan ch) { content = none; received = true } in
    calm-Frame i c _
      (changed-KeepsOwned i ch v c
        (λ j other theirs. record {
          owner = theirs;
          shut = refl;
          key = refl;
          empty = λ e. refl;
          was_sent = λ e. inr refl;
        })
        (λ other. absurd (other mine)))
      (changed-KeepsCalled i ch v c
        (λ j other theirs. record {
          owner = theirs;
          shut = refl;
          key = refl;
          empty = λ e. refl;
          was_sent = λ e. inr refl;
        })
        (λ other. absurd (other mine)))
      (omega arith) (λ k r read. read) refl refl refl refl (λ e. e)

used_before : (c : Client) (ch : ℕ) → ch < c.next_chan → eqb c.next_chan ch ≡ false
used_before c ch used = ground arith

pub register-Frame : (i : ℕ) (key : String) (c : Client) → Frame i c (register_call i key c)
unfolding register_call
register-Frame i key c =
    calm-Frame i c _
      (λ ch j other mine used. rw (used_before c ch used) (same-KeepsOwned j (c.chan ch) mine))
      (λ ch other used. rw (used_before c ch used) (same-KeepsCalled (c.chan ch))) (omega arith)
      (λ k r read. read) refl refl refl refl (λ e. e)

same_heap : (f g : ℕ → Chan) → done_with f ≡ done_with g → f ≡ g
same_heap f g e = ap heap_of e
  where
    heap_of : Sending → ℕ → Chan
    heap_of (done_with h) = h
    heap_of blocks = f
    heap_of panics = f

Answered-KeepsOwned :
    (e : Error) (j : ℕ) (before after : Chan)
    → before.owner ≡ some j
    → Answered (closed_response e) before after
    → KeepsOwned j before after
Answered-KeepsOwned e j before after mine (inl same) = rw same (same-KeepsOwned j before mine)
Answered-KeepsOwned e j before after mine (inr (fresh, q)) = ground (arith, mine, fresh.unowned)

Answered-KeepsCalled :
    (e : Error) (before after : Chan)
    → Answered (closed_response e) before after
    → KeepsCalled before after
Answered-KeepsCalled e before after (inl same) = rw same (same-KeepsCalled before)
Answered-KeepsCalled e before after (inr (fresh, q)) =
    rw q (record { caller = refl; key = refl; received = refl })

-- Where the loop of `finish` ends, it has done to each channel what is allowed.
pub drained_all :
    (e : Error) (heap : ℕ → Chan) (c : Client)
    → IsShared c
    → answer_all (closed_response e) c.pending c.chan ≡ done_with heap
    → (ch : ℕ) → Answered (closed_response e) (c.chan ch) (heap ch)
drained_all e heap c s h ch =
    let (heap', ends, all) =
      answer_all-IsPending (closed_response e) c.next_chan c.pending c.chan s.pendings in
    subst (λ f. Answered (closed_response e) (c.chan ch) (f ch))
      (same_heap heap' heap (sym ends ∙ h)) (all ch)

pub drain-Frame :
    (i : ℕ) (e : Error) (heap : ℕ → Chan) (c : Client)
    → IsShared c
    → answer_all (closed_response e) c.pending c.chan ≡ done_with heap
    → Frame i c (record c { pending = []; chan = heap })
drain-Frame i e heap c s h =
    let all = drained_all e heap c s h in
    calm-Frame i c _
      (λ ch j other mine used. Answered-KeepsOwned e j (c.chan ch) (heap ch) mine (all ch))
      (λ ch other used. Answered-KeepsCalled e (c.chan ch) (heap ch) (all ch)) (omega arith)
      (λ k r read. read) refl refl refl refl (λ e. e)
