-- ===== src/Stream.antt =====
-- Streams of server-sent events and their hub (internal/sse/hub.go). Each operation is what runs
-- under the stream's mutex. A channel is its buffer and whether it is closed; channels are named by
-- the number of their subscription. What makes the runtime panic is an error: sending on a closed
-- channel, and closing one twice. The order of `subs` is that of a `range` loop, which Go leaves open.
pub mod Visits
pub mod Sound
pub mod Delivery
pub mod Hubs
mod Tests
use nx_panel.Base.{
  ℕ, zero, suc, ◌+◌, ◌-◌, ◌*◌, ◌/◌, ◌%◌, ◌^◌, ◌≤◌, ◌<◌, min, max, String, ◌≡◌, refl, sym, ap, ◌∙◌,
  ◌≢◌, ◌↔◌, ◌⊎◌, inl, inr, Bool, true, false, not, ◌&&◌, ◌||◌, Option, none, some, List, [], ◌∷◌,
  ◌++◌, map, reverse, append-nil, append_assoc, arith, ltb, leb, nat_beq, nat_beq_iff, Eq, ◌==◌,
  nat_eq, text_eq, text_beq, text_beq_iff, if◌then◌else◌, ltb→lt, lt→ltb, leb→le, le→leb, tests,
  Bool-cases, Option-cases, length, get_elem?, take, drop, keep, any, all, All, All-append,
  All-drop, length-append, length-take, length-drop, length-keep, drop-append, take-append, Text,
  codes, is_upper, is_lower, is_digit, is_space, lower, to_lower, trim_left, trim_space,
}
use nx_panel.Base.Result.{Result, ok, err, ◌>>=◌, ◌>>◌}
use nx_panel.Base.Store.{Store, find, put, remove}

pub record Event : Type 0 where
  pub id : Text
  pub event : Text
  pub data_text : Text

pub record Channel : Type 0 where
  pub queue : List Event
  pub is_closed : Bool

pub data Panic : Type 0 where
  send_on_closed close_of_closed : Panic

pub record Stream : Type 0 where
  pub subs : List ℕ
  pub channels : ℕ → Channel
  pub next_sub : ℕ
  pub done : Bool
  pub closed : Bool
  pub closed_at : ℕ
  pub history : List Event
  pub max_hist : ℕ

abbrev pub buffer_size : ℕ
buffer_size = 256

abbrev pub empty_channel : Channel
empty_channel = record { queue = []; is_closed = false }

-- The stream that `CreateStream` makes
abbrev pub new_stream : Stream
new_stream = record {
  subs = [];
  channels = λ i. empty_channel;
  next_sub = 0;
  done = false;
  closed = false;
  closed_at = 0;
  history = [];
  max_hist = 200;
}

abbrev pub contains : ℕ → List ℕ → Bool
contains i js = any (λ j. j == i) js

-- What a `select` with a default does to an open channel.
pub offer : Event → Channel → Channel
offer e c = if ltb (length c.queue) buffer_size then record c { queue = c.queue ++ e ∷ [] } else c

pub send : Event → Channel → Result Panic Channel
send e c = if c.is_closed then err send_on_closed else ok (offer e c)

abbrev pub shut : Channel → Channel
shut c = record c { is_closed = true }

pub close_channel : Channel → Result Panic Channel
close_channel c = if c.is_closed then err close_of_closed else ok (shut c)

abbrev pub set : ℕ → Channel → (ℕ → Channel) → ℕ → Channel
set i c f j = if i == j then c else f j

-- A `range` loop over the subscribers' channels.
pub visit : (Channel → Result Panic Channel) → List ℕ → (ℕ → Channel) → Result Panic (ℕ → Channel)
visit step [] f = ok f
visit step (i ∷ is) f = do c ← step (f i); visit step is (set i c f)

pub record Snapshot : Type 0 where
  pub history : List Event
  pub closed : Bool
  pub id : ℕ

-- `SubscribeSnapshot`, with the number of the channel that it makes if the stream is open
pub subscribe_snapshot : Stream → Snapshot × Stream
subscribe_snapshot s =
    let id = (s.next_sub + 1) % 2 ^ 64 in
    if s.closed then (record { history = s.history; closed = true; id = 0 }, s) else (
      record { history = s.history; closed = false; id = id },
      record s { next_sub = id; subs = id ∷ s.subs; channels = set id empty_channel s.channels },
    )

-- The function `Unsubscribe` of the subscription.
pub unsubscribe : ℕ → Stream → Result Panic Stream
unsubscribe id s =
    if contains id s.subs
    then (do
      c ← close_channel (s.channels id)
      ok (record s { channels = set id c s.channels; subs = keep (λ j. not (j == id)) s.subs }))
    else ok s

pub remember : Event → Stream → List Event
remember e s =
    let all_events = s.history ++ e ∷ [] in
    if ltb 0 s.max_hist
    then (if ltb s.max_hist (length all_events)
        then drop (length all_events - s.max_hist) all_events
        else all_events)
    else s.history

pub publish_locked : Event → Stream → Result Panic Stream
publish_locked e s = do
  channels ← visit (send e) s.subs s.channels
  ok (record s { history = remember e s; channels = channels })

pub publish : Event → Stream → Result Panic Stream
publish e s = if s.closed then ok s else publish_locked e s

abbrev pub data_event : Text → Event
data_event text = record { id = []; event = []; data_text = text }

pub close_locked : ℕ → Stream → Result Panic Stream
close_locked now s = if s.closed then ok s else if s.done then err close_of_closed else (do
  channels ← visit close_channel s.subs s.channels
  ok (record s { closed = true; closed_at = now; done = true; channels = channels; subs = [] }))

-- What `PublishDone` does to a stream that is not closed.
pub publish_end : Text → ℕ → Stream → Result Panic Stream
publish_end text now s = do
  t ← (if text == [] then ok s else publish_locked (data_event text) s)
  u ← publish_locked (data_event (codes "[DONE]")) t
  close_locked now u

pub publish_done : Text → ℕ → Stream → Result Panic Stream
publish_done text now s = if s.closed then ok s else publish_end text now s

-- The reader of a subscription takes the next event.
pub receive : ℕ → Stream → Stream
receive id s =
    let c = s.channels id in
    record s { channels = set id (record c { queue = drop 1 c.queue }) s.channels }

-- The streams by their identifiers. An entry stands for the shared stream: what is done to the stream
-- is put back under its identifier.
abbrev pub Hub : Type 0
Hub = Store Text Stream

pub create_stream : Text → Hub → Stream × Hub
create_stream id h = elim (find id h) [ some s ↦ (s, h) | none ↦ (new_stream, put id new_stream h) ]

pub close_stream : Text → ℕ → Hub → Result Panic Hub
close_stream id now h = elim (find id h) [
  | none ↦ ok h
  | some s ↦ do t ← close_locked now s; ok (put id t h)
]

pub should_prune : ℕ → Stream → Bool
should_prune cutoff s = s.closed && leb s.closed_at cutoff

-- The `Range` loop with its count; nothing else changes the map meanwhile, so that each
-- `CompareAndDelete` succeeds.
pub prune_closed_before : ℕ → Hub → Hub × ℕ
prune_closed_before cutoff [] = ([], 0)
prune_closed_before cutoff ((id, s) ∷ h) =
    let (left, pruned) = prune_closed_before cutoff h in
    if should_prune cutoff s then (left, pruned + 1) else ((id, s) ∷ left, pruned)
