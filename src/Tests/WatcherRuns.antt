-- ===== src/Tests/WatcherRuns.antt =====
-- Sockets that watch the videos.
use ctrlf_ai.Prelude.{String, ◌≡◌, refl, Bool, not, ◌&&◌, none, some, List, [], ◌∷◌, ◌=ˢ◌}
use ctrlf_ai.Prelude.Dict.{lookup, insert, remove}
use ctrlf_ai.Render.Watchers.{
  Watchers, init, broadcast, connect, disconnect, disconnect_one, disconnect_all, leave_all, mem,
  add, discard, members, put, leave, send_to, wants, drop_failed,
}
use ctrlf_ai.Render.Watchers.Mirror.{
  Event, connects, disconnects, broadcasts, IsMirror, run, run-IsMirror, from_video,
  broadcast-links,
}

-- Three sockets watch a video; one of them only the events of another job.
abbrev watching : Watchers
watching = record {
  connections = ("v1", "a" ∷ "b" ∷ "c" ∷ []) ∷ [];
  socket_videos = ("a", "v1" ∷ []) ∷ ("b", "v1" ∷ []) ∷ ("c", "v1" ∷ []) ∷ [];
  socket_job_filter = ("a", none) ∷ ("b", some "j1") ∷ ("c", some "j2") ∷ [];
}

abbrev joining : List Event
joining =
    connects "a" "v1" none ∷ connects "b" "v1" (some "j1") ∷ connects "c" "v1" (some "j2") ∷ []

abbrev takes : String → Bool
takes socket = not (socket =ˢ "b")

all_watch : run joining init ≡ watching
unfolding run connect add mem members lookup insert
all_watch = refl

-- The first takes the event, the second fails and is dropped, the third does not want it.
one_takes : (broadcast "v1" "j1" takes watching).0.connections ≡ ("v1", "a" ∷ "c" ∷ []) ∷ []
unfolding broadcast send_to wants drop_failed disconnect disconnect_one leave put discard members
    lookup insert remove
one_takes = refl

one_sent : (broadcast "v1" "j1" takes watching).1 ≡ 1
unfolding broadcast send_to wants drop_failed disconnect disconnect_one leave put discard members
    lookup insert remove
one_sent = refl

-- A socket that has left its only video is still a key of `_socket_videos`.
still_a_key :
    lookup "a" (run (connects "a" "v1" none ∷ disconnects "a" (some "v1") ∷ []) init).socket_videos
    ≡ some []
unfolding run connect disconnect disconnect_one add discard mem members put leave lookup insert
    remove
still_a_key = refl

run-IsMirror_example : IsMirror (
    run
      (connects "a" "v1" none ∷ disconnects "a" (some "v1") ∷ broadcasts "v1" "j1" takes ∷ [])
      init)
run-IsMirror_example =
    run-IsMirror
      (connects "a" "v1" none ∷ disconnects "a" (some "v1") ∷ broadcasts "v1" "j1" takes ∷ [])

broadcast-links_example :
    mem "b" (members "v1" (broadcast "v1" "j1" takes (run joining init)).0.connections) ≡ (
      mem "b" (members "v1" (run joining init).connections)
      && not (
          from_video "v1" "v1"
          && (mem "b" (members "v1" (run joining init).connections)
              && (wants "j1" "b" (run joining init) && not (takes "b")))))
broadcast-links_example = broadcast-links joining "v1" "j1" "b" "v1" takes

-- A socket that fails in a broadcast to the empty id is dropped from its other videos too.
all_left :
    (broadcast "" "j1" takes (run (connects "b" "" none ∷ connects "b" "v1" none ∷ []) init)).0
    ≡ init
unfolding run connect add mem broadcast send_to wants drop_failed disconnect disconnect_all
    leave_all leave put discard members lookup insert remove
all_left = refl
