-- ===== src/Stream/Delivery.antt =====
-- What a subscriber of a stream gets (internal/sse/hub.go).
use nx_panel.Base.{
  ℕ, zero, suc, ◌+◌, ◌-◌, ◌%◌, ◌^◌, ◌≤◌, ◌<◌, ◌≡◌, refl, sym, ap, ◌∙◌, true, false, List, [], ◌∷◌,
  ◌++◌, append-nil, append_assoc, arith, nat_beq, nat_beq_iff, nat_eq, text_eq, if◌then◌else◌,
  length, drop, length-append, length-drop,
}
use nx_panel.Base.Result.{Result, ok, ◌>>=◌}
use nx_panel.Stream.{
  Event, Channel, Panic, Stream, Snapshot, empty_channel, contains, offer, set, subscribe_snapshot,
  remember, publish_locked, publish,
}
use nx_panel.Stream.Sound.{IsSound, sent, publish_locked-IsFine, subscribe_snapshot-IsFine, ok_eq}

pub publish_list : List Event → Stream → Result Panic Stream
publish_list [] s = ok s
publish_list (e ∷ es) s = do t ← publish e s; publish_list es t

-- The last 200 events.
abbrev pub latest : List Event → List Event
latest es = drop (length es - 200) es

drop_le : (n : ℕ) (a b : List Event) → n ≤ length a → drop n (a ++ b) ≡ drop n a ++ b
drop_le zero a b le = refl
drop_le (suc n) [] b le = absurd (omega arith)
drop_le (suc n) (c ∷ a) b le = drop_le n a b (omega arith)

drop-nil : (k : ℕ) → drop {A = Event} k [] ≡ []
drop-nil zero = refl
drop-nil (suc k) = refl

drop-drop : (n m : ℕ) (a : List Event) → drop m (drop n a) ≡ drop (n + m) a
drop-drop zero m a = ap (λ k. drop k a) (omega arith)
drop-drop (suc n) m [] = drop-nil m ∙ sym (drop-nil (suc n + m))
drop-drop (suc n) m (c ∷ a) =
    let step : suc n + m ≡ suc (n + m) = omega arith in rw step (drop-drop n m a)

latest-latest : (a b : List Event) → latest (latest a ++ b) ≡ latest (a ++ b)
latest-latest a b =
    let k = length a - 200 in
    let whole : (drop k a ++ b) ≡ drop k (a ++ b) = sym (drop_le k a b (omega arith)) in
    let long = length-append a b in
    let cut = length-drop k (a ++ b) in
    let sum : k + (length (a ++ b) - k - 200) ≡ length (a ++ b) - 200 = omega (arith, long) in
    rw (whole, cut, drop-drop k (length (a ++ b) - k - 200) (a ++ b), sum) refl

remember-latest :
    (e : Event) (s : Stream) → s.max_hist ≡ 200 → remember e s ≡ latest (s.history ++ e ∷ [])
unfolding remember
remember-latest e s bound = ground arith

-- One event, as the subscriber `i` of an open stream sees it.
record IsPublished (e : Event) (s : Stream) (i : ℕ) : Type 0 where
  after : Stream
  runs : publish e s ≡ ok after
  sound : IsSound after
  still : after.closed ≡ false
  there : contains i after.subs ≡ true
  queued : after.channels i ≡ offer e (s.channels i)
  kept : after.history ≡ remember e s

publish-IsPublished :
    (e : Event) (s : Stream) (i : ℕ)
    → IsSound s
    → s.closed ≡ false
    → contains i s.subs ≡ true
    → IsPublished e s i
unfolding publish publish_locked
publish-IsPublished e s i h o m =
    let v = sent e s h in
    let t : Stream = record s { history = remember e s; channels = v.after } in
    let made : publish_locked e s ≡ ok t = rw (publish_locked, v.runs) refl in
    let (u, runs, sound, le) = publish_locked-IsFine e s h o in
    let same : u ≡ t = ok_eq (sym made ∙ runs) in
    record {
      after = t;
      runs = ap (λ b. if b then ok s else publish_locked e s) o ∙ made;
      sound = rw same at sound;
      still = o;
      there = m;
      queued = v.each i ∙ rw m refl;
      kept = refl;
    }

offer-room :
    (e : Event) (c : Channel) → length c.queue < 256 → (offer e c).queue ≡ c.queue ++ e ∷ []
unfolding offer
offer-room e c lt = ground arith

publish_list-queue :
    (es : List Event) (s : Stream) (i : ℕ)
    → IsSound s
    → s.closed ≡ false
    → contains i s.subs ≡ true
    → length (s.channels i).queue + length es ≤ 256
    → (t : Stream) × (publish_list es s ≡ ok t)
      × IsSound t
      × ((t.channels i).queue ≡ (s.channels i).queue ++ es)
      × (latest t.history ≡ latest (s.history ++ es))
unfolding publish_list
publish_list-queue [] s i h o m le =
    (s, refl, h, sym (append-nil (s.channels i).queue), ap latest (sym (append-nil s.history)))
publish_list-queue (e ∷ es) s i h o m le =
    let p = publish-IsPublished e s i h o m in
    let grown : (p.after.channels i).queue ≡ (s.channels i).queue ++ e ∷ [] =
      ap (λ c. c.queue) p.queued ∙ offer-room e (s.channels i) (omega arith) in
    let long : length (p.after.channels i).queue ≡ length (s.channels i).queue + 1 =
      ap length grown ∙ length-append (s.channels i).queue (e ∷ []) ∙ omega arith in
    let (t, runs, sound, queue, history) =
      publish_list-queue es p.after i p.sound p.still p.there (omega (arith, long)) in
    (
      t,
      rw p.runs runs,
      sound,
      queue ∙ ap (λ q. q ++ es) grown ∙ append_assoc (s.channels i).queue (e ∷ []) es,
      history
          ∙ ap (λ q. latest (q ++ es)) (p.kept ∙ remember-latest e s h.bound)
          ∙ latest-latest (s.history ++ e ∷ []) es
          ∙ ap latest (append_assoc s.history (e ∷ []) es),
    )

short-latest : (es : List Event) → length es ≤ 200 → latest es ≡ es
short-latest es le = let z : length es - 200 ≡ 0 = omega arith in rw z refl

-- A new subscriber of a sound, open stream gets the history as it stands, and then up to 256 later
-- events, all of them and in order, if it does not read; a later snapshot is the last 200 of both.
pub publish_list-subscribe_snapshot :
    (es : List Event) (s : Stream)
    → IsSound s
    → s.closed ≡ false
    → s.next_sub + 1 < 2 ^ 64
    → length es ≤ 256
    → (t : Stream) × (publish_list es (subscribe_snapshot s).1 ≡ ok t)
      × ((subscribe_snapshot s).0.history ≡ s.history)
      × ((t.channels (subscribe_snapshot s).0.id).queue ≡ es)
      × (t.history ≡ latest (s.history ++ es))
unfolding subscribe_snapshot
publish_list-subscribe_snapshot es s h o lt le =
    let id = (s.next_sub + 1) % 2 ^ 64 in
    let snap : Snapshot = record { history = s.history; closed = false; id = id } in
    let joined : Stream = record s {
      next_sub = id;
      subs = id ∷ s.subs;
      channels = set id empty_channel s.channels;
    } in
    let made : subscribe_snapshot s ≡ (snap, joined) =
      ap
        (λ b.
          if b then (record { history = s.history; closed = true; id = 0 }, s) else (snap, joined))
        o in
    let (u, runs, sound, bounded) = subscribe_snapshot-IsFine s h lt in
    let same : u ≡ joined = ok_eq (sym (ap (λ p. ok p.1) made) ∙ runs) in
    let here : nat_beq id id ≡ true = (nat_beq_iff id id).1 refl in
    let new_queue : (joined.channels id).queue ≡ [] = rw here refl in
    let room : length (joined.channels id).queue + length es ≤ 256 = rw new_queue (omega arith) in
    let (t, published, still_sound, queue, history) =
      publish_list-queue es joined id (rw same at sound) o (rw here refl) room in
    (
      t,
      ap (λ p. publish_list es p.1) made ∙ published,
      ap (λ p. p.0.history) made,
      ap (λ p. (t.channels p.0.id).queue) made ∙ queue ∙ ap (λ q. q ++ es) new_queue,
      sym (short-latest t.history still_sound.short) ∙ history,
    )
