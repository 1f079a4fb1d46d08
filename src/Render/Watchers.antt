-- ===== src/Render/Watchers.antt =====
-- app/api/v1/ws_render_progress.py: `RenderProgressConnectionManager`. A socket is its name, a set a
-- list without repetitions. A `defaultdict` is a dict whose missing sets are empty. `broadcast` is
-- modelled as a whole: nothing connects or disconnects while it sends.
pub mod Links
pub mod Mirror
use ctrlf_ai.Prelude.{
  ℕ, suc, String, Bool, true, false, not, ◌&&◌, ◌||◌, Option, none, some, List, [], ◌∷◌, ◌++◌,
  if◌then◌else◌, ◌=ˢ◌,
}
use ctrlf_ai.Prelude.Dict.{Dict, lookup, insert, remove}

unfoldable pub mem : String → List String → Bool
mem x [] = false
mem x (y ∷ ys) = y =ˢ x || mem x ys

-- `set.add`
unfoldable pub add : String → List String → List String
unfolding mem
add x s = if mem x s then s else s ++ (x ∷ [])

-- `set.discard`
unfoldable pub discard : String → List String → List String
discard x [] = []
discard x (y ∷ ys) = let rest = discard x ys in if y =ˢ x then rest else y ∷ rest

unfoldable pub members : String → Dict (List String) → List String
members k d = elim (lookup k d) [ none ↦ [] | some s ↦ s ]

pub record Watchers : Type 0 where
  -- the sockets of each video, and the videos of each socket
  pub connections : Dict (List String)
  pub socket_videos : Dict (List String)
  -- the job whose events a socket wants, none for all
  pub socket_job_filter : Dict (Option String)

abbrev pub init : Watchers
init = record { connections = []; socket_videos = []; socket_job_filter = [] }

-- `connect`, between its two awaits: the handshake comes before, the greeting after.
unfoldable pub connect : String → String → Option String → Watchers → Watchers
unfolding add members
connect websocket video_id job_id w = record {
  connections = insert video_id (add websocket (members video_id w.connections)) w.connections;
  socket_videos =
      insert websocket (add video_id (members websocket w.socket_videos)) w.socket_videos;
  socket_job_filter = insert websocket job_id w.socket_job_filter;
}

-- A set that is empty goes from the dict.
unfoldable pub put : String → List String → Dict (List String) → Dict (List String)
put video_id [] connections = remove video_id connections
put video_id (socket ∷ sockets) connections = insert video_id (socket ∷ sockets) connections

-- `_connections[video_id].discard(websocket)`
unfoldable pub leave : String → String → Dict (List String) → Dict (List String)
unfolding discard members put
leave websocket video_id connections =
    put video_id (discard websocket (members video_id connections)) connections

-- `disconnect` of a socket from one video
unfoldable pub disconnect_one : String → String → Watchers → Watchers
unfolding leave discard members
disconnect_one websocket video_id w = record {
  connections = leave websocket video_id w.connections;
  socket_videos =
      insert websocket (discard video_id (members websocket w.socket_videos)) w.socket_videos;
  socket_job_filter = remove websocket w.socket_job_filter;
}

unfoldable pub leave_all : String → List String → Dict (List String) → Dict (List String)
unfolding leave
leave_all websocket [] connections = connections
leave_all websocket (video_id ∷ videos) connections =
    leave_all websocket videos (leave websocket video_id connections)

-- `disconnect` without a video
unfoldable pub disconnect_all : String → Watchers → Watchers
unfolding leave_all members
disconnect_all websocket w = record {
  connections = leave_all websocket (members websocket w.socket_videos) w.connections;
  socket_videos = remove websocket w.socket_videos;
  socket_job_filter = remove websocket w.socket_job_filter;
}

-- `disconnect`, where an empty video id counts as none
unfoldable pub disconnect : String → Option String → Watchers → Watchers
unfolding disconnect_one disconnect_all
disconnect websocket none w = disconnect_all websocket w
disconnect websocket (some video_id) w =
    if video_id =ˢ "" then disconnect_all websocket w else disconnect_one websocket video_id w

-- Whether a socket's filter lets an event of the job pass. The empty id filters nothing.
unfoldable pub wants : String → String → Watchers → Bool
wants job_id websocket w = elim (lookup websocket w.socket_job_filter) [
  | none ↦ true
  | some none ↦ true
  | some (some wanted) ↦ wanted =ˢ "" || wanted =ˢ job_id
]

-- The loop over the sockets: how many were sent the event, and those that failed
unfoldable pub send_to : String → (String → Bool) → Watchers → List String → ℕ × List String
unfolding wants
send_to job_id sends w [] = (0, [])
send_to job_id sends w (websocket ∷ rest) =
    let (sent, failed) = send_to job_id sends w rest in
    if wants job_id websocket w
    then (if sends websocket then (suc sent, failed) else (sent, websocket ∷ failed))
    else (sent, failed)

unfoldable pub drop_failed : List String → String → Watchers → Watchers
unfolding disconnect
drop_failed [] video_id w = w
drop_failed (websocket ∷ rest) video_id w =
    drop_failed rest video_id (disconnect websocket (some video_id) w)

-- `broadcast` of an event of a job, where `sends` tells which sockets take it
unfoldable pub broadcast : String → String → (String → Bool) → Watchers → Watchers × ℕ
unfolding send_to drop_failed members
broadcast video_id job_id sends w =
    let (sent, failed) = send_to job_id sends w (members video_id w.connections) in
    (drop_failed failed video_id w, sent)
