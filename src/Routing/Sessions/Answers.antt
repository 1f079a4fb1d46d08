-- ===== src/Routing/Sessions/Answers.antt =====
-- app/services/router_orchestrator.py: the calls that answer what a session was asked, and `route`
-- as a whole, leave the store as their answer says.
use ctrlf_ai.Prelude.{
  ℕ, ltb, length, String, Bool, true, false, ◌&&◌, Option, none, some, ◌≡◌, refl, ◌∙◌, ◌=ˢ◌,
  if◌then◌else◌,
}
use ctrlf_ai.Prelude.Dict.{lookup, remove}
use ctrlf_ai.Text.{Text, strip}
use ctrlf_ai.Routing.Types.{RouterResult}
use ctrlf_ai.Routing.Pending.{
  PendingAction, PendingActionType, clarify, confirm, OrchestrationResult, Store, get, is_past,
  get_found,
}
use ctrlf_ai.Routing.Fresh.{Settings, Turn, refuse, route_new}
use ctrlf_ai.Routing.Orchestrator.{
  not_found_message, cancelled_message, resolve_clarify_answer, handle_found, handle_confirmation,
  handle_confirm, ask_again, resolved, handle_clarify, handle_pending_response, route_found, route,
}
use ctrlf_ai.Routing.Sessions.{
  is_some, IsStored, if-IsStored, remove_self, remove_other, execute-IsStored, route_new-IsStored,
}

-- What a read finds: nothing, after which the session has nothing stored, or what is stored.
pub record IsIdle (session : String) (s s' : Store) : Type 0 where
  pub own : lookup session s' ≡ none
  pub others : (k : String) → (session =ˢ k) ≡ false → lookup k s' ≡ lookup k s

unfoldable pub IsRead : String → Store → Option PendingAction × Store → Type 0
IsRead session s (none, s') = IsIdle session s s'
IsRead session s (some p, s') = (s' ≡ s) × (lookup session s ≡ some p)

remove-IsIdle : (session : String) (s : Store) → IsIdle session s (remove session s)
remove-IsIdle session s = record { own = remove_self session s; others = remove_other session s }

get_found-IsRead :
    (now : ℕ) (session : String) (s : Store) (found : Option PendingAction)
    → lookup session s ≡ found
    → IsRead session s (get_found now session s found)
unfolding get_found IsRead
get_found-IsRead now session s none h = record { own = h; others = λ k ne. refl }
get_found-IsRead now session s (some p) h =
    elim (is_past now p.expires_at)
      as (λ b. IsRead session s (if b then (none, remove session s) else (some p, s))) [
        | true ↦ remove-IsIdle session s
        | false ↦ (refl, h)
      ]

pub get-IsRead : (now : ℕ) (session : String) (s : Store) → IsRead session s (get now session s)
unfolding get
get-IsRead now session s = get_found-IsRead now session s (lookup session s) refl

-- A call that goes on from a store that differs only in the session.
IsStored-after :
    (session : String) (s s' : Store) (out : OrchestrationResult × Store)
    → IsIdle session s s'
    → IsStored session s' out
    → IsStored session s out
IsStored-after session s s' out i h = record {
  own = h.own;
  others = λ k ne. h.others k ne ∙ i.others k ne;
  waits = h.waits;
  exclusive = h.exclusive;
}

refuse-IsStored :
    (session : String) (s s' : Store) (r : RouterResult) (message : String)
    → IsIdle session s s'
    → IsStored session s (refuse r message, s')
refuse-IsStored session s s' r message i = record {
  own = i.own;
  others = i.others;
  waits = refl;
  exclusive = refl;
}

handle_found-IsStored :
    (session : String) (confirmed : Bool) (s : Store) (found : Option PendingAction × Store)
    → IsRead session s found
    → IsStored session s (handle_found session confirmed found)
unfolding handle_found IsRead
handle_found-IsStored session confirmed s (none, s') h =
    refuse-IsStored session s s' _ not_found_message h
handle_found-IsStored session true s (some p, s') (e, h) = rw e (
    IsStored-after session s (remove session s) _ (remove-IsIdle session s)
      (execute-IsStored session (remove session s) _ (remove_self session s)))
handle_found-IsStored session false s (some p, s') (e, h) =
    rw e
      (refuse-IsStored session s (remove session s) _ cancelled_message (remove-IsIdle session s))

pub handle_confirmation-IsStored :
    (now : ℕ) (session : String) (confirmed : Bool) (s : Store)
    → IsStored session s (handle_confirmation now session confirmed s)
unfolding handle_confirmation
handle_confirmation-IsStored now session confirmed s =
    handle_found-IsStored session confirmed s _ (get-IsRead now session s)

ask_again-IsStored :
    (session : String) (s : Store) (p : PendingAction)
    → lookup session s ≡ some p
    → IsStored session s (ask_again p, s)
unfolding ask_again
ask_again-IsStored session s p h = record {
  own = h;
  others = λ k ne. refl;
  waits = refl;
  exclusive = refl;
}

handle_confirm-IsStored :
    (turn : Turn) (query : Text) (session : String) (p : PendingAction) (s : Store)
    → lookup session s ≡ some p
    → IsStored session s (handle_confirm turn query session p s)
unfolding handle_confirm
handle_confirm-IsStored turn query session p s h =
    search (if-IsStored, handle_confirmation-IsStored, ask_again-IsStored)

-- The call as it ends: with an answer, or by an exception, which leaves nothing stored.
unfoldable pub IsDone : String → Store → Option OrchestrationResult × Store → Type 0
IsDone session s (none, s') = IsIdle session s s'
IsDone session s (some o, s') = IsStored session s (o, s')

if-IsDone :
    (session : String) (s : Store) (b : Bool) (x y : Option OrchestrationResult × Store)
    → IsDone session s x
    → IsDone session s y
    → IsDone session s (if b then x else y)
if-IsDone session s true x y hx hy = hx
if-IsDone session s false x y hx hy = hy

resolved-IsDone :
    (settings : Settings) (turn : Turn) (query : Text) (session : String) (p : PendingAction)
    (s s' : Store) (r : Option (Option RouterResult))
    → IsIdle session s s'
    → IsDone session s (resolved settings turn query session p s' r)
unfolding resolved IsDone
resolved-IsDone settings turn query session p s s' none i =
    IsStored-after session s s' _ i (route_new-IsStored session s' settings turn _ p.user_id i.own)
resolved-IsDone settings turn query session p s s' (some none) i = i
resolved-IsDone settings turn query session p s s' (some (some r)) i =
    IsStored-after session s s' _ i (execute-IsStored session s' r i.own)

handle_clarify-IsDone :
    (settings : Settings) (turn : Turn) (query : Text) (session : String) (p : PendingAction)
    (s : Store)
    → IsDone session s (handle_clarify settings turn query session p s)
unfolding handle_clarify IsDone
handle_clarify-IsDone settings turn query session p s =
    let s' = remove session s in
    let (o, s'') = route_new settings turn query session p.user_id s' in
    let r = resolve_clarify_answer query p.clarify_group p in
    if-IsDone session s (ltb 20 (length (strip query))) (some o, s'')
      (resolved settings turn query session p s' r)
      (IsStored-after session s s' (o, s'') (remove-IsIdle session s)
        (route_new-IsStored session s' settings turn query p.user_id (remove_self session s)))
      (resolved-IsDone settings turn query session p s s' r (remove-IsIdle session s))

handle_pending_response-IsDone :
    (settings : Settings) (turn : Turn) (query : Text) (session : String) (p : PendingAction)
    (t : PendingActionType) (s : Store)
    → lookup session s ≡ some p
    → IsDone session s (handle_pending_response settings turn query session p t s)
unfolding handle_pending_response IsDone
handle_pending_response-IsDone settings turn query session p confirm s h =
    handle_confirm-IsStored turn query session p s h
handle_pending_response-IsDone settings turn query session p clarify s h =
    handle_clarify-IsDone settings turn query session p s

route_found-IsDone :
    (settings : Settings) (turn : Turn) (query : Text) (session user_id : String) (s : Store)
    (found : Option PendingAction × Store)
    → IsRead session s found
    → IsDone session s (route_found settings turn query session user_id found)
unfolding route_found IsRead IsDone
route_found-IsDone settings turn query session user_id s (none, s') i =
    IsStored-after session s s' _ i
      (route_new-IsStored session s' settings turn query user_id i.own)
route_found-IsDone settings turn query session user_id s (some p, s') (e, h) =
    rw e (handle_pending_response-IsDone settings turn query session p p.action_type s h)

pub route-IsDone :
    (settings : Settings) (turn : Turn) (query : Text) (session user_id : String) (s : Store)
    → IsDone session s (route settings turn query session user_id s)
unfolding route
route-IsDone settings turn query session user_id s =
    route_found-IsDone settings turn query session user_id s _ (get-IsRead turn.read_at session s)

IsDone-own :
    (session : String) (s : Store) (out : Option OrchestrationResult × Store)
    (o : OrchestrationResult)
    → IsDone session s out
    → out.0 ≡ some o
    → IsStored session s (o, out.1)
unfolding IsDone
IsDone-own session s (none, s') o h e = cc
IsDone-own session s (some a, s') o h e = let same : o ≡ a = cc in rw same h

IsDone-others :
    (session : String) (s : Store) (out : Option OrchestrationResult × Store)
    → IsDone session s out
    → (k : String) → (session =ˢ k) ≡ false
    → lookup k out.1 ≡ lookup k s
unfolding IsDone
IsDone-others session s (none, s') h = h.others
IsDone-others session s (some a, s') h = h.others

module _ (settings : Settings) (turn : Turn) (query : Text) (session user_id : String)
    (s : Store) where
  -- When a query is answered, the store holds for the session just the action that the answer calls
  -- pending; the answer waits for the user just when there is one; and it never both waits and may be
  -- executed.
  pub route-stored :
      (o : OrchestrationResult)
      → (route settings turn query session user_id s).0 ≡ some o
      → (lookup session (route settings turn query session user_id s).1 ≡ o.pending_action)
        × (o.needs_user_response ≡ is_some o.pending_action)
        × ((o.can_execute && o.needs_user_response) ≡ false)
  route-stored o e =
      let h = IsDone-own session s _ o (route-IsDone settings turn query session user_id s) e in
      (h.own, h.waits, h.exclusive)

  -- A query of one session, answered or ended by an exception, leaves what every other session is
  -- asked.
  pub route-others :
      (k : String)
      → (session =ˢ k) ≡ false
      → lookup k (route settings turn query session user_id s).1 ≡ lookup k s
  route-others = IsDone-others session s _ (route-IsDone settings turn query session user_id s)
