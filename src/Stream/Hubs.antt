-- ===== src/Stream/Hubs.antt =====
-- The streams of a hub: what is made, closed and pruned.
use nx_panel.Base.{
  ℕ, ◌+◌, ◌≡◌, refl, sym, ap, ◌∙◌, inl, inr, not, true, false, [], ◌∷◌, leb, ◌==◌, text_beq_iff,
  Bool-cases, keep, none, some, arith, nat_eq, text_eq, if◌then◌else◌, Option-cases, length, Text,
}
use nx_panel.Base.Store.{find, put, IsMap, find-keep, find-put, find-put_self, put-IsMap}
use nx_panel.Stream.{
  Stream, Hub, new_stream, create_stream, should_prune, prune_closed_before, close_locked,
  close_stream, close_channel, visit,
}
use nx_panel.Base.Result.{ok, >>=-eq-ok, ok-injective}
use mathlib.Core.Path.{subst}

prune_closed_before-keep :
    (cutoff : ℕ) (h : Hub)
    → (prune_closed_before cutoff h).0 ≡ keep (λ e. not (should_prune cutoff e.1)) h
unfolding prune_closed_before
prune_closed_before-keep cutoff [] = refl
prune_closed_before-keep cutoff ((id, s) ∷ h) = elim (Bool-cases (should_prune cutoff s)) [
  | inl old ↦ rw old (prune_closed_before-keep cutoff h)
  | inr kept ↦ rw kept (ap (λ r. (id, s) ∷ r) (prune_closed_before-keep cutoff h))
]

prune_closed_before_count :
    (cutoff : ℕ) (h : Hub)
    → (prune_closed_before cutoff h).1 + length (prune_closed_before cutoff h).0 ≡ length h
unfolding prune_closed_before
prune_closed_before_count cutoff [] = refl
prune_closed_before_count cutoff ((id, s) ∷ h) = elim (Bool-cases (should_prune cutoff s)) [
  | inl old ↦ rw old (omega (arith, prune_closed_before_count cutoff h))
  | inr kept ↦ rw kept (omega (arith, prune_closed_before_count cutoff h))
]

find-prune_closed_before :
    (cutoff : ℕ) (id : Text) (h : Hub) (s : Stream)
    → IsMap h
    → find id h ≡ some s
    → find id (prune_closed_before cutoff h).0 ≡ (if should_prune cutoff s then none else some s)
find-prune_closed_before cutoff id h s d there =
    ap (find id) (prune_closed_before-keep cutoff h)
    ∙ find-keep (λ e. not (should_prune cutoff e.1)) id h d
    ∙ rw there (elim (Bool-cases (should_prune cutoff s)) [
      | inl old ↦ rw old refl
      | inr kept ↦ rw kept refl
    ])

-- What closing an open stream writes of the time.
closed_stream :
    (now : ℕ) (s t : Stream)
    → s.closed ≡ false
    → close_locked now s ≡ ok t
    → (t.closed ≡ true) × (t.closed_at ≡ now)
unfolding close_locked
closed_stream now s t is_open h = elim (Bool-cases s.done) [
  | inl done ↦ absurd (cc (rw (is_open, done) at h))
  | inr undone ↦
      let (channels, (stored, visited)) =
        >>=-eq-ok (visit close_channel s.subs s.channels) _ (rw (is_open, undone) at h) in
      let whole = ok-injective stored in
      (sym (ap (λ (r : Stream). r.closed) whole), sym (ap (λ (r : Stream). r.closed_at) whole))
]

-- A hub in which an open stream is closed, without a panic, at `now`: pruning keeps the stream as
-- long as it is open, whatever the cutoff, and afterwards forgets it exactly if `now` is not after
-- the cutoff; the number that is reported is that of the streams that are gone.
pub prune_closed_before-close_stream :
    (cutoff now : ℕ) (id : Text) (h h' : Hub) (s : Stream)
    → IsMap h
    → find id h ≡ some s
    → s.closed ≡ false
    → close_stream id now h ≡ ok h'
    → (find id (prune_closed_before cutoff h).0 ≡ some s)
      × (find id (prune_closed_before cutoff h').0 ≡ (if leb now cutoff then none else find id h'))
      × ((prune_closed_before cutoff h').1 + length (prune_closed_before cutoff h').0 ≡ length h')
unfolding close_stream should_prune
prune_closed_before-close_stream cutoff now id h h' s d there is_open closing =
    let (t, (stored, closed)) =
      >>=-eq-ok (close_locked now s) _ (rw (close_stream, there) at closing) in
    let (shut, late) = closed_stream now s t is_open closed in
    let whole : h' ≡ put id t h = sym (ok-injective stored) in
    let here : find id h' ≡ some t = ap (find id) whole ∙ find-put_self id t h in
    let d' : IsMap h' = subst (λ m. IsMap m) (sym whole) (put-IsMap id t h d) in
    (
      find-prune_closed_before cutoff id h s d there ∙ rw is_open refl,
      find-prune_closed_before cutoff id h' t d' here ∙ rw (shut, late, here) refl,
      prune_closed_before_count cutoff h',
    )

create_stream_old :
    (id : Text) (h : Hub) (s : Stream) → find id h ≡ some s → create_stream id h ≡ (s, h)
unfolding create_stream
create_stream_old id h s there = rw (create_stream, there) refl

create_stream_new :
    (id : Text) (h : Hub)
    → find id h ≡ none
    → create_stream id h ≡ (new_stream, put id new_stream h)
unfolding create_stream
create_stream_new id h gone = rw (create_stream, gone) refl

-- After a call of `CreateStream` the hub holds the stream that it returns, and the other streams as
-- before. Whatever becomes of a stream of the hub, a further call returns it as it is then, with its
-- subscribers and its history, and changes nothing.
pub create_stream-put :
    (id j : Text) (h : Hub) (s : Stream)
    → (find j (create_stream id h).1 ≡ (if id == j then some (create_stream id h).0 else find j h))
      × (create_stream id (put id s h) ≡ (s, put id s h))
create_stream-put id j h s = (
  elim (Option-cases (find id h)) [
    | inl gone ↦ rw (create_stream_new id h gone) (find-put id j new_stream h)
    | inr (t, there) ↦ rw (create_stream_old id h t there) (elim (Bool-cases (id == j)) [
      | inl same ↦ rw same (ap (λ k. find k h) (sym ((text_beq_iff id j).0 same)) ∙ there)
      | inr other ↦ rw other refl
    ])
  ],
  create_stream_old id (put id s h) s (find-put_self id s h),
)
