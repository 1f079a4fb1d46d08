-- ===== src/Render/Watchers/Mirror.antt =====
-- app/api/v1/ws_render_progress.py: the two directions in which connections are stored agree.
use ctrlf_ai.Prelude.{
  ℕ, suc, String, ◌≡◌, refl, sym, ap, ◌∙◌, Bool, true, false, not, ◌&&◌, ◌||◌, Option, none, some,
  List, [], ◌∷◌, arith, Bool-cases, inl, inr, if◌then◌else◌, ◌=ˢ◌, eq_iff,
}
use ctrlf_ai.Prelude.Dict.{Dict, lookup}
use ctrlf_ai.Render.Watchers.Links.{
  linked-add, linked-discard, linked-leave, members-remove, mem_if,
}
use ctrlf_ai.Render.Watchers.{
  mem, members, Watchers, init, connect, leave, disconnect, disconnect_one, drop_failed, broadcast,
  send_to, wants, leave_all, disconnect_all,
}

-- The sockets of a video are those that have it among their videos.
unfoldable pub IsMirror : Watchers → Type 0
IsMirror w = (ws v : String) → mem ws (members v w.connections) ≡ mem v (members ws w.socket_videos)

connect-IsMirror :
    (ws v : String) (job : Option String) (w : Watchers)
    → IsMirror w
    → IsMirror (connect ws v job w)
unfolding connect IsMirror
connect-IsMirror ws v job w h x k =
    ground (arith, linked-add x k ws v w.connections, linked-add k x v ws w.socket_videos, h x k)

disconnect_one-IsMirror :
    (ws v : String) (w : Watchers) → IsMirror w → IsMirror (disconnect_one ws v w)
unfolding disconnect_one IsMirror
disconnect_one-IsMirror ws v w h x k =
    ground
      (arith, linked-leave x k ws v w.connections, linked-discard k x v ws w.socket_videos, h x k)

leave_all-links :
    (x k ws : String) (vs : List String) (d : Dict (List String))
    → mem x (members k (leave_all ws vs d)) ≡ (not (ws =ˢ x && mem k vs) && mem x (members k d))
unfolding leave_all mem
leave_all-links x k ws [] d = ground arith
leave_all-links x k ws (v ∷ vs) d =
    ground (arith, leave_all-links x k ws vs (leave ws v d), linked-leave x k ws v d)

none_left :
    (b p q m : Bool) → (b ≡ true → p ≡ q) → m ≡ q → (not (b && p) && m) ≡ (if b then false else q)
none_left b p q m h e = ground (arith, h)

disconnect_all-IsMirror : (ws : String) (w : Watchers) → IsMirror w → IsMirror (disconnect_all ws w)
unfolding disconnect_all IsMirror
disconnect_all-IsMirror ws w h x k =
    leave_all-links x k ws (members ws w.socket_videos) w.connections
    ∙ none_left (ws =ˢ x) _ _ _
        (λ e. ap (λ j. mem k (members j w.socket_videos)) ((eq_iff ws x).0 e)) (h x k)
    ∙ sym (
        ap (mem k) (members-remove x ws w.socket_videos)
        ∙ mem_if k x ws [] w.socket_videos false (λ e. unfold mem in refl))

disconnect-IsMirror :
    (ws : String) (v : Option String) (w : Watchers) → IsMirror w → IsMirror (disconnect ws v w)
unfolding disconnect
disconnect-IsMirror ws none w h = disconnect_all-IsMirror ws w h
disconnect-IsMirror ws (some v) w h = elim (Bool-cases (v =ˢ "")) [
  | inl e ↦ rw e (disconnect_all-IsMirror ws w h)
  | inr e ↦ rw e (disconnect_one-IsMirror ws v w h)
]

drop_failed-IsMirror :
    (fs : List String) (v : String) (w : Watchers) → IsMirror w → IsMirror (drop_failed fs v w)
unfolding drop_failed
drop_failed-IsMirror [] v w h = h
drop_failed-IsMirror (ws ∷ fs) v w h =
    drop_failed-IsMirror fs v (disconnect ws (some v) w) (disconnect-IsMirror ws (some v) w h)

-- What happens to the manager
pub data Event : Type 0 where
  connects : String → String → Option String → Event
  disconnects : String → Option String → Event
  broadcasts : String → String → (String → Bool) → Event

unfoldable pub run : List Event → Watchers → Watchers
run [] w = w
run (connects ws v job ∷ es) w = run es (connect ws v job w)
run (disconnects ws v ∷ es) w = run es (disconnect ws v w)
run (broadcasts v job sends ∷ es) w = run es (broadcast v job sends w).0

run_from-IsMirror : (es : List Event) (w : Watchers) → IsMirror w → IsMirror (run es w)
unfolding run broadcast
run_from-IsMirror [] w h = h
run_from-IsMirror (connects ws v job ∷ es) w h =
    run_from-IsMirror es (connect ws v job w) (connect-IsMirror ws v job w h)
run_from-IsMirror (disconnects ws v ∷ es) w h =
    run_from-IsMirror es (disconnect ws v w) (disconnect-IsMirror ws v w h)
run_from-IsMirror (broadcasts v job sends ∷ es) w h =
    run_from-IsMirror es (broadcast v job sends w).0
      (drop_failed-IsMirror (send_to job sends w (members v w.connections)).1 v w h)

-- After any connections, disconnections and broadcasts on a new manager, the sockets that are stored
-- for a video are exactly those that have the video among their videos.
pub run-IsMirror : (es : List Event) → IsMirror (run es init)
unfolding IsMirror members lookup mem
run-IsMirror es = run_from-IsMirror es init (λ ws v. refl)

cut_off : (b p m : Bool) → (b ≡ true → p ≡ m) → (not (b && p) && m) ≡ (not b && m)
cut_off b p m h = ground (arith, h)

disconnect_all-links :
    (x k ws : String) (w : Watchers)
    → IsMirror w
    → mem x (members k (disconnect_all ws w).connections)
      ≡ (not (ws =ˢ x) && mem x (members k w.connections))
unfolding disconnect_all IsMirror
disconnect_all-links x k ws w h =
    leave_all-links x k ws (members ws w.socket_videos) w.connections
    ∙ cut_off (ws =ˢ x) _ _
        (λ e. ap (λ j. mem k (members j w.socket_videos)) ((eq_iff ws x).0 e) ∙ sym (h x k))

-- From which video a socket is disconnected: from every one by the empty id.
abbrev pub from_video : String → String → Bool
from_video v k = v =ˢ "" || v =ˢ k

disconnect-links :
    (x k ws v : String) (w : Watchers)
    → IsMirror w
    → mem x (members k (disconnect ws (some v) w).connections)
      ≡ (not (from_video v k && ws =ˢ x) && mem x (members k w.connections))
unfolding disconnect disconnect_one
disconnect-links x k ws v w h = elim (Bool-cases (v =ˢ "")) [
  | inl e ↦ rw e (disconnect_all-links x k ws w h)
  | inr e ↦ rw e (linked-leave x k ws v w.connections)
]

drop_failed-links :
    (x k v : String) (fs : List String) (w : Watchers)
    → IsMirror w
    → mem x (members k (drop_failed fs v w).connections)
      ≡ (not (from_video v k && mem x fs) && mem x (members k w.connections))
unfolding drop_failed mem
drop_failed-links x k v [] w h = ground arith
drop_failed-links x k v (ws ∷ fs) w h = ground (
  arith,
  drop_failed-links x k v fs (disconnect ws (some v) w) (disconnect-IsMirror ws (some v) w h),
  disconnect-links x k ws v w h,
)

failed_with :
    (x y : String) (b s : Bool) (sent : ℕ) (failed : List String)
    → let out : ℕ × List String =
        if b then (if s then (suc sent, failed) else (sent, y ∷ failed)) else (sent, failed) in
      mem x out.1 ≡ (y =ˢ x && (b && not s) || mem x failed)
unfolding mem
failed_with x y true true sent failed = ground arith
failed_with x y true false sent failed = ground arith
failed_with x y false s sent failed = ground arith

either_way :
    (q m a b f : Bool) → (q ≡ true → a ≡ b) → f ≡ (m && b) → (q && a || f) ≡ ((q || m) && b)
either_way q m a b f h e = ground (arith, h)

send_to-failed :
    (x job : String) (sends : String → Bool) (w : Watchers) (s : List String)
    → mem x (send_to job sends w s).1 ≡ (mem x s && (wants job x w && not (sends x)))
unfolding send_to mem
send_to-failed x job sends w [] = ground arith
send_to-failed x job sends w (y ∷ s) =
    failed_with x y (wants job y w) (sends y) _ _
    ∙ either_way (y =ˢ x) (mem x s) _ (wants job x w && not (sends x)) _
        (λ e. ap (λ z. wants job z w && not (sends z)) ((eq_iff y x).0 e))
        (send_to-failed x job sends w s)

-- After any connections, disconnections and broadcasts on a new manager, a broadcast drops exactly
-- the sockets of its video that want the event and do not take it, and it drops them from that video
-- alone, or, where the video's id is empty, from every video.
pub broadcast-links :
    (es : List Event) (v job x k : String) (sends : String → Bool)
    → let w = run es init in
      mem x (members k (broadcast v job sends w).0.connections) ≡ (
        mem x (members k w.connections)
        && not (
            from_video v k
            && (mem x (members v w.connections) && (wants job x w && not (sends x)))))
unfolding broadcast
broadcast-links es v job x k sends =
    let w = run es init in
    drop_failed-links x k v (send_to job sends w (members v w.connections)).1 w (run-IsMirror es)
    ∙ ground (arith, send_to-failed x job sends w (members v w.connections))
