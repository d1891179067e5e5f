-- ===== src/Stream/Tests.antt =====
-- A stream with subscribers, at concrete calls.
use nx_panel.Base.{
  leb, ◌==◌, ◌+◌, ◌≡◌, refl, true, none, some, List, [], ◌∷◌, arith, nat_eq, text_eq, text_beq,
  if◌then◌else◌, length, codes,
}
use nx_panel.Base.Result.{ok}
use nx_panel.Base.Store.{find, put, IsMap}
use nx_panel.Stream.{
  Event, Stream, Hub, new_stream, offer, send, close_channel, visit, subscribe_snapshot,
  unsubscribe, remember, publish_locked, publish, close_locked, publish_end, publish_done, receive,
  create_stream, close_stream, should_prune, prune_closed_before, data_event,
}
use nx_panel.Stream.Sound.{
  IsSound, Call, subscribe, leave, send_event, finish, shut_down, read, perform_all,
  perform_all-new_stream, new_stream-IsSound,
}
use nx_panel.Stream.Delivery.{publish_list, latest, publish_list-subscribe_snapshot}
use nx_panel.Stream.Hubs.{prune_closed_before-close_stream, create_stream-put}

opened : Unit {0}
unfolding offer send close_channel visit subscribe_snapshot unsubscribe remember publish_locked
    publish close_locked publish_end publish_done receive create_stream close_stream should_prune
    prune_closed_before find put text_beq
opened = tt

abbrev hello : Event
hello = data_event (codes "hello")

abbrev requests : List Call
requests =
    subscribe
    ∷ send_event hello
    ∷ leave 1
    ∷ leave 1
    ∷ subscribe
    ∷ finish (codes "bye") 7
    ∷ read 2
    ∷ shut_down 8
    ∷ []

perform_all-new_stream_example : (t : Stream) × (perform_all requests new_stream ≡ ok t) × IsSound t
perform_all-new_stream_example = perform_all-new_stream requests (omega arith)

publish_list-subscribe_snapshot_example :
    (t : Stream) × (publish_list (hello ∷ hello ∷ []) (subscribe_snapshot new_stream).1 ≡ ok t)
    × ((subscribe_snapshot new_stream).0.history ≡ [])
    × ((t.channels (subscribe_snapshot new_stream).0.id).queue ≡ hello ∷ hello ∷ [])
    × (t.history ≡ latest (hello ∷ hello ∷ []))
publish_list-subscribe_snapshot_example =
    publish_list-subscribe_snapshot (hello ∷ hello ∷ []) new_stream new_stream-IsSound refl
      (omega arith) (omega arith)

abbrev hub : Hub
hub = (codes "a", record new_stream { closed = true; closed_at = 5 }) ∷ (codes "b", new_stream) ∷ []

hub-IsMap : IsMap hub
unfolding opened
hub-IsMap = (refl, (refl, tt))

prune_tests :
    (find (codes "a") (prune_closed_before 5 hub).0 ≡ none) × ((prune_closed_before 4 hub).1 ≡ 0)
unfolding opened
prune_tests = (refl, refl)

abbrev closed_hub : Hub
closed_hub =
    (codes "a", record new_stream { closed = true; closed_at = 5 })
    ∷ (codes "b", record new_stream { closed = true; closed_at = 7; done = true })
    ∷ []

hub_closing : close_stream (codes "b") 7 hub ≡ ok closed_hub
unfolding opened
hub_closing = refl

hub_there : find (codes "b") hub ≡ some new_stream
unfolding opened
hub_there = refl

prune_closed_before-close_stream_example :
    (find (codes "b") (prune_closed_before 7 hub).0 ≡ some new_stream)
    × (find (codes "b") (prune_closed_before 7 closed_hub).0
        ≡ (if leb 7 7 then none else find (codes "b") closed_hub))
    × ((prune_closed_before 7 closed_hub).1 + length (prune_closed_before 7 closed_hub).0
        ≡ length closed_hub)
prune_closed_before-close_stream_example =
    prune_closed_before-close_stream 7 7 (codes "b") hub closed_hub new_stream hub-IsMap hub_there
      refl hub_closing

create_stream-put_example :
    (find (codes "c") (create_stream (codes "b") hub).1 ≡ (
      if codes "b" == codes "c"
      then some (create_stream (codes "b") hub).0
      else find (codes "c") hub))
    × (create_stream (codes "b") (put (codes "b") (record new_stream { subs = 1 ∷ [] }) hub) ≡ (
      record new_stream { subs = 1 ∷ [] },
      put (codes "b") (record new_stream { subs = 1 ∷ [] }) hub,
    ))
create_stream-put_example =
    create_stream-put (codes "b") (codes "c") hub (record new_stream { subs = 1 ∷ [] })
