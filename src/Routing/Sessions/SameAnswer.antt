-- ===== src/Routing/Sessions/SameAnswer.antt =====
-- app/services/router_orchestrator.py: an answer depends on the store by what a read finds for the
-- session, and by nothing else in it.
use ctrlf_ai.Prelude.{
  some_inj, ℕ, String, Bool, true, false, Option, none, some, ◌≡◌, refl, ap, arith, if◌then◌else◌,
  ltb, length,
}
use ctrlf_ai.Prelude.Dict.{remove}
use ctrlf_ai.Text.{Text, strip, lower}
use ctrlf_ai.Routing.Types.{RouterResult}
use ctrlf_ai.Routing.Pending.{PendingAction, PendingActionType, clarify, confirm, Store, get}
use ctrlf_ai.Routing.Fresh.{
  Settings, Turn, route_new, finish, create_clarify_result, create_confirmation_result, execute,
}
use ctrlf_ai.Routing.Orchestrator.{
  confirmed_action, handle_found, handle_confirmation, handle_confirm, resolved,
  resolve_clarify_answer, handle_clarify, handle_pending_response, route_found, route, is_one_of,
  yes_words, no_words,
}
use ctrlf_ai.Routing.Sessions.Answers.{IsRead, get-IsRead}

module _ (settings : Settings) (turn : Turn) (text : Text) (session user_id : String)
    (s s' : Store) where
  route_new-answer :
      (route_new settings turn text session user_id s).0
      ≡ (route_new settings turn text session user_id s').0
  unfolding route_new finish create_clarify_result create_confirmation_result
  route_new-answer = ground arith

if-answer {ℓ} :
    {A : Type ℓ} (b : Bool) (x x' y y' : A × Store)
    → x.0 ≡ x'.0
    → y.0 ≡ y'.0
    → (if b then x else y).0 ≡ (if b then x' else y').0
if-answer true x x' y y' h h' = h
if-answer false x x' y y' h h' = h'

handle_found-answer :
    (session : String) (confirmed : Bool) (x x' : Option PendingAction × Store)
    → x.0 ≡ x'.0
    → (handle_found session confirmed x).0 ≡ (handle_found session confirmed x').0
unfolding handle_found
handle_found-answer session confirmed (none, s) (none, s') h = refl
handle_found-answer session confirmed (none, s) (some p, s') h = cc
handle_found-answer session confirmed (some p, s) (none, s') h = cc
handle_found-answer session true (some p, s) (some p', s') h =
    ap (λ q. execute (confirmed_action q)) (some_inj h)
handle_found-answer session false (some p, s) (some p', s') h = refl

resolved-answer :
    (settings : Settings) (turn : Turn) (text : Text) (session : String) (p : PendingAction)
    (s s' : Store) (r : Option (Option RouterResult))
    → (resolved settings turn text session p s r).0 ≡ (resolved settings turn text session p s' r).0
unfolding resolved
resolved-answer settings turn text session p s s' none =
    ap some (route_new-answer settings turn _ session p.user_id s s')
resolved-answer settings turn text session p s s' (some none) = refl
resolved-answer settings turn text session p s s' (some (some r)) = refl

handle_clarify-answer :
    (settings : Settings) (turn : Turn) (text : Text) (session : String) (p : PendingAction)
    (s s' : Store)
    → (handle_clarify settings turn text session p s).0
      ≡ (handle_clarify settings turn text session p s').0
unfolding handle_clarify
handle_clarify-answer settings turn text session p s s' =
    let r = remove session s in
    let r' = remove session s' in
    if-answer (ltb 20 (length (strip text))) _ _ _ _
      (ap some (route_new-answer settings turn text session p.user_id r r'))
      (resolved-answer settings turn text session p r r'
        (resolve_clarify_answer text p.clarify_group p))

pub handle_confirmation-answer :
    (now : ℕ) (session : String) (confirmed : Bool) (s s' : Store)
    → (get now session s).0 ≡ (get now session s').0
    → (handle_confirmation now session confirmed s).0
      ≡ (handle_confirmation now session confirmed s').0
unfolding handle_confirmation
handle_confirmation-answer now session confirmed s s' h =
    handle_found-answer session confirmed (get now session s) (get now session s') h

handle_confirm-answer :
    (turn : Turn) (text : Text) (session : String) (p : PendingAction) (s s' : Store)
    → (get turn.confirmed_at session s).0 ≡ (get turn.confirmed_at session s').0
    → (handle_confirm turn text session p s).0 ≡ (handle_confirm turn text session p s').0
unfolding handle_confirm
handle_confirm-answer turn text session p s s' h =
    let word = strip (lower text) in
    if-answer (is_one_of word yes_words) _ _ _ _
      (handle_confirmation-answer turn.confirmed_at session true s s' h)
      (if-answer (is_one_of word no_words) _ _ _ _
        (handle_confirmation-answer turn.confirmed_at session false s s' h) refl)

handle_pending_response-answer :
    (settings : Settings) (turn : Turn) (text : Text) (session : String) (p : PendingAction)
    (t : PendingActionType) (s s' : Store)
    → (get turn.confirmed_at session s).0 ≡ (get turn.confirmed_at session s').0
    → (handle_pending_response settings turn text session p t s).0
      ≡ (handle_pending_response settings turn text session p t s').0
unfolding handle_pending_response
handle_pending_response-answer settings turn text session p confirm s s' h =
    ap some (handle_confirm-answer turn text session p s s' h)
handle_pending_response-answer settings turn text session p clarify s s' h =
    handle_clarify-answer settings turn text session p s s'

module _ (settings : Settings) (turn : Turn) (text : Text) (session user_id : String) (s s' : Store)
    (confirmed : (get turn.confirmed_at session s).0 ≡ (get turn.confirmed_at session s').0) where
  route_found-answer :
      (x x' : Option PendingAction × Store)
      → IsRead session s x
      → IsRead session s' x'
      → x.0 ≡ x'.0
      → (route_found settings turn text session user_id x).0
        ≡ (route_found settings turn text session user_id x').0
  unfolding route_found IsRead
  route_found-answer (none, r) (none, r') i i' h =
      ap some (route_new-answer settings turn text session user_id r r')
  route_found-answer (none, r) (some p, r') i i' h = cc
  route_found-answer (some p, r) (none, r') i i' h = cc
  route_found-answer (some p, r) (some p', r') (e, _) (e', _) h =
      rw (e, e', some_inj h)
        (handle_pending_response-answer settings turn text session p' p'.action_type s s' confirmed)

  pub route-answer :
      (get turn.read_at session s).0 ≡ (get turn.read_at session s').0
      → (route settings turn text session user_id s).0
        ≡ (route settings turn text session user_id s').0
  unfolding route
  route-answer h =
      route_found-answer _ _ (get-IsRead turn.read_at session s)
        (get-IsRead turn.read_at session s') h
