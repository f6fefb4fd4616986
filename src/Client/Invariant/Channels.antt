-- ===== src/Client/Invariant/Channels.antt =====
-- What holds of the shared state of a client still holds where its channels are changed.
use mathlib.Core.List.{◌++◌ as append}
use codex_a2a.Base.{
  length, ◌≤◌, ℕ, eqb_refl, eqb, Bool-cases, Error, error_text, String, ◌≡◌, refl, subst, inl, inr,
  true, false, none, some, List, [], ◌∷◌, arith,
}
use codex_a2a.Base.Maps.{Map, lookup, remove, insert, update}
use codex_a2a.Client.Lines.{Response}
use codex_a2a.Client.State.{
  events_capacity, Chan, Client, take_pending, register_call, fresh_chan, answer_all,
  closed_response, done_with, close_chan, put,
}
use codex_a2a.Client.Pending.{
  IsFresh, IsAbsent, IsPending, lookup-Found, Answered, remove-IsPending, update-IsPending,
  widen-IsPending, next-IsAbsent,
}
use codex_a2a.Client.Moves.{holding, closing}
use codex_a2a.Client.Invariant.Defs.{Origin, WasSent, IsShared, IsLocal}
use codex_a2a.Client.Invariant.Frames.{drained_all}

-- A channel that is not fresh is not pending.
stale-IsAbsent :
    (chan : ℕ → Chan) (next ch : ℕ) (m : Map ℕ)
    → ¬ IsFresh (chan ch)
    → IsPending chan next m
    → IsAbsent ch m
stale-IsAbsent chan next ch [] stale h = tt
stale-IsAbsent chan next ch ((k, c) ∷ m) stale (h, rest) =
    ((λ e. stale (rw (← e) h.0)), stale-IsAbsent chan next ch m stale rest)

grown :
    (key k : String) (r resp : Response) (answers : List (String × Response))
    → Origin key resp answers
    → Origin key resp ((k, r) ∷ answers)
grown key k r resp answers (inl read) = inl (inr read)
grown key k r resp answers (inr e) = inr e

-- What holds of all channels still holds when one is changed.
module _ (P : ℕ → Chan → Type 0) (chan : ℕ → Chan) (d : ℕ) (v : Chan) where
  changed : ((ch : ℕ) → P ch (chan ch)) → P d v → (ch : ℕ) → P ch (update chan d v ch)
  changed h hv ch = elim (Bool-cases (eqb d ch)) [
    | inl q ↦ (let same : d ≡ ch = ground (arith, q) in rw q (subst (λ x. P x v) same hv))
    | inr q ↦ rw q (h ch)
  ]

-- What a channel holds and when it is closed.
abbrev HasOrigin : List (String × Response) → Chan → Type 0
HasOrigin answers ch = (resp : Response) → ch.content ≡ some resp → Origin ch.key resp answers

abbrev ShutSent : Chan → Type 0
ShutSent ch = ch.shut ≡ true → WasSent ch

module _ (c : Client) (s : IsShared c) (d : ℕ) (v : Chan) where
  -- One channel is changed that is not pending.
  changed-IsShared :
      ¬ IsFresh (c.chan d)
      → HasOrigin c.answers v
      → ShutSent v
      → IsShared (record c { chan = update c.chan d v })
  changed-IsShared stale origin sent_ = record {
    pendings =
        update-IsPending c.chan c.next_chan d v c.pending
          (stale-IsAbsent c.chan c.next_chan d c.pending stale s.pendings) s.pendings;
    contents = changed (λ ch x. HasOrigin c.answers x) c.chan d v s.contents origin;
    shuts = changed (λ ch x. ShutSent x) c.chan d v s.shuts sent_;
    alive_ = s.alive_;
    in_order = s.in_order;
    bounded = s.bounded;
  }

pub known-IsShared :
    (i : ℕ) (key : String) (resp : Response) (ch : ℕ) (c : Client)
    → IsShared c
    → lookup key c.pending ≡ some ch
    → IsShared (take_pending i key resp ch c)
unfolding take_pending
known-IsShared i key resp ch c s found =
    let f = lookup-Found c.chan c.next_chan key ch c.pending s.pendings found in
    let v = record (c.chan ch) { owner = some i } in
    record {
      pendings =
          update-IsPending c.chan c.next_chan ch v (remove key c.pending) f.gone
            (remove-IsPending c.chan c.next_chan key c.pending s.pendings);
      contents =
          changed (λ x y. HasOrigin ((key, resp) ∷ c.answers) y) c.chan ch v
            (λ x r e. grown (c.chan x).key key resp r c.answers (s.contents x r e))
            (λ r e. grown (c.chan ch).key key resp r c.answers (s.contents ch r e));
      shuts = changed (λ x y. ShutSent y) c.chan ch v s.shuts (s.shuts ch);
      alive_ = s.alive_;
      in_order = s.in_order;
      bounded = s.bounded;
    }

owned-stale : (i : ℕ) (ch : Chan) → ch.owner ≡ some i → ¬ IsFresh ch
owned-stale i ch mine fresh = ground (arith, mine, fresh.unowned)

pub answer-IsShared :
    (i ch : ℕ) (resp : Response) (c : Client)
    → IsShared c
    → IsLocal i c (holding ch resp)
    → IsShared (record c { chan = update c.chan ch (put resp (c.chan ch)) })
answer-IsShared i ch resp c s ((mine, open_, used), empty, from) =
    changed-IsShared c s ch (put resp (c.chan ch)) (owned-stale i (c.chan ch) mine)
      (λ r e. subst (λ x. Origin (c.chan ch).key x c.answers) (ground (arith, e)) from)
      (λ shut. ground (arith, shut, open_))

pub close-IsShared :
    (i ch : ℕ) (c : Client)
    → IsShared c
    → IsLocal i c (closing ch)
    → IsShared (record c { chan = update c.chan ch (close_chan (c.chan ch)) })
close-IsShared i ch c s ((mine, open_, used), was_sent) =
    changed-IsShared c s ch (close_chan (c.chan ch)) (owned-stale i (c.chan ch) mine)
      (s.contents ch) (λ shut. was_sent)

pub hear-IsShared :
    (ch : ℕ) (resp : Response) (c : Client)
    → IsShared c
    → (c.chan ch).content ≡ some resp
    → IsShared (record c {
      chan = update c.chan ch (record (c.chan ch) { content = none; received = true });
    })
hear-IsShared ch resp c s full =
    changed-IsShared c s ch (record (c.chan ch) { content = none; received = true })
      (λ fresh. ground (arith, full, fresh.empty)) (λ r e. ground (arith, e)) (λ shut. inr refl)

pub register-IsShared :
    (i : ℕ) (key : String) (c : Client) → IsShared c → IsShared (register_call i key c)
unfolding register_call insert
register-IsShared i key c s =
    let v = fresh_chan key i in
    let rest = remove-IsPending c.chan c.next_chan key c.pending s.pendings in
    let absent = next-IsAbsent c.chan c.next_chan (remove key c.pending) rest in
    record {
      pendings = (
        rw (eqb_refl c.next_chan) (
          record { empty = refl; open_ = refl; unowned = refl; unheard = refl },
          refl,
          omega arith,
          absent,
        ),
        widen-IsPending (update c.chan c.next_chan v) c.next_chan (remove key c.pending)
            (update-IsPending c.chan c.next_chan c.next_chan v (remove key c.pending) absent rest),
      );
      contents =
          changed (λ x y. HasOrigin c.answers y) c.chan c.next_chan v s.contents
            (λ r e. ground (arith, e));
      shuts = changed (λ x y. ShutSent y) c.chan c.next_chan v s.shuts (λ e. ground (arith, e));
      alive_ = s.alive_;
      in_order = s.in_order;
      bounded = s.bounded;
    }

drained-HasOrigin :
    (e : Error) (answers : List (String × Response)) (before after : Chan)
    → HasOrigin answers before
    → Answered (closed_response e) before after
    → HasOrigin answers after
drained-HasOrigin e answers before after h (inl same) = rw same h
drained-HasOrigin e answers before after h (inr (fresh, q)) =
    rw q (λ r full. inr (error_text e, ground (arith, full)))

drained-ShutSent :
    (e : Error) (before after : Chan)
    → ShutSent before
    → Answered (closed_response e) before after
    → ShutSent after
drained-ShutSent e before after h (inl same) = rw same h
drained-ShutSent e before after h (inr (fresh, q)) = rw q (λ shut. inl (closed_response e, refl))

pub drain-IsShared :
    (e : Error) (heap : ℕ → Chan) (c : Client)
    → IsShared c
    → answer_all (closed_response e) c.pending c.chan ≡ done_with heap
    → IsShared (record c { pending = []; chan = heap })
drain-IsShared e heap c s h =
    let all = drained_all e heap c s h in
    record {
      pendings = tt;
      contents = λ ch. drained-HasOrigin e c.answers (c.chan ch) (heap ch) (s.contents ch) (all ch);
      shuts = λ ch. drained-ShutSent e (c.chan ch) (heap ch) (s.shuts ch) (all ch);
      alive_ = s.alive_;
      in_order = s.in_order;
      bounded = s.bounded;
    }

-- A move that leaves the channels of the requests and the notifications alone.
pub calm-IsShared :
    {c c' : Client}
    → IsShared c
    → c'.pending ≡ c.pending
    → c'.chan ≡ c.chan
    → c'.next_chan ≡ c.next_chan
    → c'.answers ≡ c.answers
    → append c'.received_events c'.events ≡ c'.sent_events
    → length c'.events ≤ events_capacity
    → (c'.closed ≡ false
        → (c'.finisher ≡ none)
          × (c'.events_shut ≡ false)
          × (c'.done ≡ none)
          × (c'.done_shut ≡ false))
    → IsShared c'
calm-IsShared s pending chan next answers in_order bounded alive_ = record {
  pendings = rw (pending, chan, next) s.pendings;
  contents = λ ch resp. rw (chan, answers) (s.contents ch resp);
  shuts = λ ch. rw chan (s.shuts ch);
  alive_ = alive_;
  in_order = in_order;
  bounded = bounded;
}
