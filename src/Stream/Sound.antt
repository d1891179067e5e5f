-- ===== src/Stream/Sound.antt =====
-- Panics of a stream's operations (internal/sse/hub.go): sending on closed channels and closing
-- channels again.
use nx_panel.Base.{
  ℕ, ◌+◌, ◌-◌, ◌%◌, ◌^◌, ◌≤◌, ◌<◌, ◌≡◌, refl, sym, ap, ◌∙◌, inl, inr, true, false, not, List, [],
  ◌∷◌, ◌++◌, arith, nat_beq, nat_beq_iff, ◌==◌, nat_eq, text_eq, if◌then◌else◌, Bool-cases, length,
  keep, length-drop, Text, codes,
}
use nx_panel.Base.Result.{Result, ok, ◌>>=◌, >>=-eq-ok}
use nx_panel.Stream.{
  Event, Channel, Panic, Stream, empty_channel, new_stream, contains, offer, send, shut,
  close_channel, set, visit, subscribe_snapshot, unsubscribe, remember, publish_locked, publish,
  data_event, close_locked, publish_done, publish_end, receive,
}
use nx_panel.Stream.Visits.{
  IsDistinct, IsVisited, visit-IsVisited, contains-keep, keep-IsDistinct, set_ne,
}

-- Each subscriber is one of the numbers given out, and its channel is open; a closed stream has no
-- subscribers and is closed once; the history is bounded.
pub record IsSound (s : Stream) : Type 0 where
  pub distinct : IsDistinct s.subs
  pub is_open : (i : ℕ) → contains i s.subs ≡ true → (s.channels i).is_closed ≡ false
  pub given : (i : ℕ) → contains i s.subs ≡ true → i ≤ s.next_sub
  pub no_subs : s.closed ≡ true → s.subs ≡ []
  pub done_once : s.done ≡ s.closed
  pub bound : s.max_hist ≡ 200
  pub short : length s.history ≤ 200

pub data Call : Type 0 where
  subscribe : Call
  leave : ℕ → Call
  send_event : Event → Call
  finish : Text → ℕ → Call
  shut_down : ℕ → Call
  read : ℕ → Call

pub perform : Call → Stream → Result Panic Stream
perform subscribe s = ok (subscribe_snapshot s).1
perform (leave i) s = unsubscribe i s
perform (send_event e) s = publish e s
perform (finish text now) s = publish_done text now s
perform (shut_down now) s = close_locked now s
perform (read i) s = ok (receive i s)

pub perform_all : List Call → Stream → Result Panic Stream
perform_all [] s = ok s
perform_all (c ∷ cs) s = do t ← perform c s; perform_all cs t

-- The operation succeeds, in a sound stream that has given out at most one more number.
abbrev pub IsFine : Stream → Result Panic Stream → Type 0
IsFine s r = (t : Stream) × (r ≡ ok t) × IsSound t × (t.next_sub ≤ s.next_sub + 1)

offer-is_closed : (e : Event) (c : Channel) → (offer e c).is_closed ≡ c.is_closed
unfolding offer
offer-is_closed e c = ground arith

pub remember-le : (e : Event) (s : Stream) → IsSound s → length (remember e s) ≤ 200
unfolding remember
remember-le e s h =
    let all_events = s.history ++ e ∷ [] in
    let long = length-drop (length all_events - s.max_hist) all_events in
    ground (arith, h.bound, h.short)

pub sent : (e : Event) (s : Stream) → IsSound s → IsVisited (send e) (offer e) s.subs s.channels
unfolding send
sent e s h =
    visit-IsVisited (send e) (offer e) s.subs s.channels h.distinct
      (λ i m. rw (send, h.is_open i m) refl)

pub publish_locked-IsFine :
    (e : Event) (s : Stream) → IsSound s → s.closed ≡ false → IsFine s (publish_locked e s)
unfolding publish_locked
publish_locked-IsFine e s h o =
    let v = sent e s h in
    (
      record s { history = remember e s; channels = v.after },
      rw v.runs refl,
      record {
        distinct = h.distinct;
        is_open = λ i m.
            ap (λ c. c.is_closed) (v.each i)
            ∙ rw m (offer-is_closed e (s.channels i) ∙ h.is_open i m);
        given = h.given;
        no_subs = h.no_subs;
        done_once = h.done_once;
        bound = h.bound;
        short = remember-le e s h;
      },
      omega arith,
    )

publish-IsFine : (e : Event) (s : Stream) → IsSound s → IsFine s (publish e s)
unfolding publish
publish-IsFine e s h = elim (Bool-cases s.closed) [
  | inl closed ↦ (s, rw (publish, closed) refl, h, omega arith)
  | inr o ↦
      let (t, runs, sound, le) = publish_locked-IsFine e s h o in
      (t, ap (λ b. if b then ok s else publish_locked e s) o ∙ runs, sound, le)
]

close_locked-IsFine : (now : ℕ) (s : Stream) → IsSound s → IsFine s (close_locked now s)
unfolding close_locked
close_locked-IsFine now s h = elim (Bool-cases s.closed) [
  | inl closed ↦ (s, rw (close_locked, closed) refl, h, omega arith)
  | inr o ↦
      let v =
        visit-IsVisited close_channel shut s.subs s.channels h.distinct
          (λ i m. unfold close_channel in rw (close_channel, h.is_open i m) refl) in
      (
        record s { closed = true; closed_at = now; done = true; channels = v.after; subs = [] },
        rw (close_locked, h.done_once, o, v.runs) refl,
        record {
          distinct = tt;
          is_open = λ i m. cc m;
          given = λ i m. cc m;
          no_subs = λ e. refl;
          done_once = refl;
          bound = h.bound;
          short = h.short;
        },
        omega arith,
      )
]

unsubscribe-IsFine : (i : ℕ) (s : Stream) → IsSound s → IsFine s (unsubscribe i s)
unfolding unsubscribe
unsubscribe-IsFine i s h = elim (Bool-cases (contains i s.subs)) [
  | inr gone ↦ (s, rw (unsubscribe, gone) refl, h, omega arith)
  | inl there ↦
      let left = keep (λ k. not (k == i)) s.subs in
      let closes : close_channel (s.channels i) ≡ ok (shut (s.channels i)) =
        unfold close_channel in rw (close_channel, h.is_open i there) refl in
      let chans = set i (shut (s.channels i)) s.channels in
      (
        record s { channels = chans; subs = left },
        rw (unsubscribe, there, closes) refl,
        record {
          distinct = keep-IsDistinct _ s.subs h.distinct;
          is_open = λ j m.
              let (was, ne) = contains-keep j i s.subs m in
              ap (λ c. c.is_closed) (set_ne i j (shut (s.channels i)) s.channels (λ e. ne (sym e)))
              ∙ h.is_open j was;
          given = λ j m. h.given j (contains-keep j i s.subs m).0;
          no_subs = λ c. ap (λ js. keep (λ k. not (k == i)) js) (h.no_subs c);
          done_once = h.done_once;
          bound = h.bound;
          short = h.short;
        },
        omega arith,
      )
]

pub subscribe_snapshot-IsFine :
    (s : Stream) → IsSound s → s.next_sub + 1 < 2 ^ 64 → IsFine s (ok (subscribe_snapshot s).1)
unfolding subscribe_snapshot
subscribe_snapshot-IsFine s h lt = elim (Bool-cases s.closed) [
  | inl closed ↦ (s, rw (subscribe_snapshot, closed) refl, h, omega arith)
  | inr o ↦
      let id = (s.next_sub + 1) % 2 ^ 64 in
      let same : id ≡ s.next_sub + 1 = omega arith in
      let fresh : contains id s.subs ≡ false = elim (Bool-cases (contains id s.subs)) [
        | inl there ↦ absurd (omega (arith, h.given id there))
        | inr gone ↦ gone
      ] in
      (
        record s { next_sub = id; subs = id ∷ s.subs; channels = set id empty_channel s.channels },
        rw (subscribe_snapshot, o) refl,
        record {
          distinct = (fresh, h.distinct);
          is_open = λ j m. ground (arith, h.is_open j);
          given = λ j m. ground (arith, nat_beq_iff id j, h.given j);
          no_subs = λ c. cc (o, c);
          done_once = h.done_once;
          bound = h.bound;
          short = h.short;
        },
        omega arith,
      )
]

receive_open :
    (i j : ℕ) (s : Stream)
    → (s.channels j).is_closed ≡ false
    → ((receive i s).channels j).is_closed ≡ false
unfolding receive
receive_open i j s o = elim (Bool-cases (nat_beq i j)) [
  | inl same ↦ rw same (ap (λ k. (s.channels k).is_closed) ((nat_beq_iff i j).0 same) ∙ o)
  | inr other ↦ rw other o
]

receive-IsFine : (i : ℕ) (s : Stream) → IsSound s → IsFine s (ok (receive i s))
unfolding receive
receive-IsFine i s h = (
  receive i s,
  refl,
  record {
    distinct = h.distinct;
    is_open = λ j m. receive_open i j s (h.is_open j m);
    given = h.given;
    no_subs = h.no_subs;
    done_once = h.done_once;
    bound = h.bound;
    short = h.short;
  },
  omega arith,
)

pub ok_eq : {a b : Stream} → ◌≡◌ {A = Result Panic Stream} (ok a) (ok b) → b ≡ a
ok_eq h = cc h

publish_locked-keeps :
    (e : Event) (s : Stream) {t : Stream}
    → publish_locked e s ≡ ok t
    → (t.closed ≡ s.closed) × (t.next_sub ≡ s.next_sub)
unfolding publish_locked
publish_locked-keeps e s {t} h =
    let (channels, (made, runs)) = >>=-eq-ok (visit (send e) s.subs s.channels) _ h in
    (ap (λ u. u.closed) (ok_eq made), ap (λ u. u.next_sub) (ok_eq made))

-- A sound and open stream, with the numbers that `s` has given out.
abbrev IsOpenFine : Stream → Result Panic Stream → Type 0
IsOpenFine s r =
    (t : Stream) × (r ≡ ok t) × IsSound t × (t.closed ≡ false) × (t.next_sub ≡ s.next_sub)

publish_locked-IsOpenFine :
    (e : Event) (s : Stream) → IsSound s → s.closed ≡ false → IsOpenFine s (publish_locked e s)
publish_locked-IsOpenFine e s h o =
    let (t, runs, sound, le) = publish_locked-IsFine e s h o in
    let (same, count) = publish_locked-keeps e s runs in (t, runs, sound, same ∙ o, count)

publish_end-IsFine :
    (text : Text) (now : ℕ) (s : Stream)
    → IsSound s
    → s.closed ≡ false
    → IsFine s (publish_end text now s)
unfolding publish_end
publish_end-IsFine text now s h o =
    let first : IsOpenFine s (if text == [] then ok s else publish_locked (data_event text) s) =
      elim (Bool-cases (text == [])) [
        | inl same ↦ rw same (s, refl, h, o, refl)
        | inr other ↦ rw other (publish_locked-IsOpenFine (data_event text) s h o)
      ] in
    let (t, runs, sound, still, count) = first in
    let (u, runs2, sound2, still2, count2) =
      publish_locked-IsOpenFine (data_event (codes "[DONE]")) t sound still in
    let (v, runs3, sound3, le) = close_locked-IsFine now u sound2 in
    (v, rw (publish_end, runs, runs2) runs3, sound3, omega (arith, count, count2, le))

publish_done-IsFine :
    (text : Text) (now : ℕ) (s : Stream) → IsSound s → IsFine s (publish_done text now s)
unfolding publish_done
publish_done-IsFine text now s h = elim (Bool-cases s.closed) [
  | inl closed ↦ (s, rw (publish_done, closed) refl, h, omega arith)
  | inr o ↦
      let (t, runs, sound, le) = publish_end-IsFine text now s h o in
      (t, ap (λ b. if b then ok s else publish_end text now s) o ∙ runs, sound, le)
]

perform-IsFine :
    (c : Call) (s : Stream) → IsSound s → s.next_sub + 1 < 2 ^ 64 → IsFine s (perform c s)
unfolding perform
perform-IsFine subscribe s h lt = subscribe_snapshot-IsFine s h lt
perform-IsFine (leave i) s h lt = unsubscribe-IsFine i s h
perform-IsFine (send_event e) s h lt = publish-IsFine e s h
perform-IsFine (finish text now) s h lt = publish_done-IsFine text now s h
perform-IsFine (shut_down now) s h lt = close_locked-IsFine now s h
perform-IsFine (read i) s h lt = receive-IsFine i s h

perform_all-IsSound :
    (cs : List Call) (s : Stream)
    → IsSound s
    → s.next_sub + length cs < 2 ^ 64
    → (t : Stream) × (perform_all cs s ≡ ok t) × IsSound t
unfolding perform_all
perform_all-IsSound [] s h lt = (s, refl, h)
perform_all-IsSound (c ∷ cs) s h lt =
    let (t, runs, sound, le) = perform-IsFine c s h (omega arith) in
    let (u, rest, sound2) = perform_all-IsSound cs t sound (omega (arith, le)) in
    (u, rw runs rest, sound2)

pub new_stream-IsSound : IsSound new_stream
new_stream-IsSound = record {
  distinct = tt;
  is_open = λ i m. refl;
  given = λ i m. cc m;
  no_subs = λ e. refl;
  done_once = refl;
  bound = refl;
  short = omega arith;
}

-- Whatever calls a new stream gets, fewer than 2 ^ 64, in whatever order, none of them panics. Then
-- every subscriber's channel is open, a closed stream has no subscribers, and the history holds at
-- most 200 events.
pub perform_all-new_stream :
    (cs : List Call)
    → length cs < 2 ^ 64
    → (t : Stream) × (perform_all cs new_stream ≡ ok t) × IsSound t
perform_all-new_stream cs lt = perform_all-IsSound cs new_stream new_stream-IsSound (omega arith)
