-- ===== src/Routing/Sessions.antt =====
-- app/services/router_orchestrator.py: how a call leaves the store. A call on one session leaves what
-- every other session is asked, and stores for its own just what its answer says is pending.
pub mod Answers
pub mod Confirmed
pub mod History
pub mod SameAnswer
pub mod Expiry
pub mod Unresolved
pub mod Valid
use ctrlf_ai.Prelude.{
  ℕ, ltb, length, String, Bool, true, false, ◌&&◌, Option, none, some, ◌≡◌, refl, sym, ◌∙◌, ap,
  ◌=ˢ◌, eq_refl, arith, inl, inr, Bool-cases, Option-cases, if◌then◌else◌,
}
use ctrlf_ai.Prelude.Dict.{lookup, insert, remove, lookup-insert, lookup-remove}
use ctrlf_ai.Text.{Text, strip}
use ctrlf_ai.Routing.Types.{RouterResult}
use ctrlf_ai.Routing.Pending.{
  PendingAction, PendingActionType, clarify, confirm, OrchestrationResult, Store, get, is_past,
  get_found,
}
use ctrlf_ai.Routing.Fresh.{
  Settings, Turn, execute, refuse, create_clarify_result, create_confirmation_result, finish,
  route_new,
}
use ctrlf_ai.Routing.Orchestrator.{
  not_found_message, cancelled_message, resolve_clarify_answer, handle_found, handle_confirmation,
  handle_confirm, ask_again, resolved, handle_clarify, handle_pending_response, route_found, route,
}

abbrev pub is_some {ℓ} : {A : Type ℓ} → Option A → Bool
is_some none = false
is_some (some x) = true

-- The store after a call, `s'`, holds for the session what the answer says is pending, and for every
-- other session what it held before, in `s`.
pub record IsStored (session : String) (s : Store) (out : OrchestrationResult × Store)
    : Type 0 where
  pub own : lookup session out.1 ≡ out.0.pending_action
  pub others : (k : String) → (session =ˢ k) ≡ false → lookup k out.1 ≡ lookup k s
  pub waits : out.0.needs_user_response ≡ is_some out.0.pending_action
  pub exclusive : (out.0.can_execute && out.0.needs_user_response) ≡ false

module _ (session : String) (s : Store) where
  pub if-IsStored :
      (b : Bool) (x y : OrchestrationResult × Store)
      → IsStored session s x
      → IsStored session s y
      → IsStored session s (if b then x else y)
  if-IsStored true x y hx hy = hx
  if-IsStored false x y hx hy = hy

  insert_self : (p : PendingAction) → lookup session (insert session p s) ≡ some p
  insert_self p = rw (lookup-insert, eq_refl)

  insert_other :
      (p : PendingAction) (k : String)
      → (session =ˢ k) ≡ false
      → lookup k (insert session p s) ≡ lookup k s
  insert_other p k ne = rw (lookup-insert, ne)

  pub remove_self : lookup session (remove session s) ≡ none
  remove_self = rw (lookup-remove, eq_refl)

  pub remove_other :
      (k : String) → (session =ˢ k) ≡ false → lookup k (remove session s) ≡ lookup k s
  remove_other k ne = rw (lookup-remove, ne)

  create_clarify_result-IsStored :
      (settings : Settings) (turn : Turn) (r : RouterResult) (user_id : String) (query : Text)
      → IsStored session s (create_clarify_result settings turn r session user_id query s)
  unfolding create_clarify_result
  create_clarify_result-IsStored settings turn r user_id query = record {
    own = insert_self _;
    others = insert_other _;
    waits = refl;
    exclusive = refl;
  }

  create_confirmation_result-IsStored :
      (turn : Turn) (r : RouterResult)
      → IsStored session s (create_confirmation_result turn r session s)
  unfolding create_confirmation_result
  create_confirmation_result-IsStored turn r = record {
    own = insert_self _;
    others = insert_other _;
    waits = refl;
    exclusive = refl;
  }

  pub execute-IsStored :
      (r : RouterResult) → lookup session s ≡ none → IsStored session s (execute r, s)
  execute-IsStored r idle = record {
    own = idle;
    others = λ k ne. refl;
    waits = refl;
    exclusive = refl;
  }

  finish-IsStored :
      (turn : Turn) (r : RouterResult)
      → lookup session s ≡ none
      → IsStored session s (finish turn r session s)
  unfolding finish
  finish-IsStored turn r idle =
      search (if-IsStored, create_confirmation_result-IsStored, execute-IsStored)

  pub route_new-IsStored :
      (settings : Settings) (turn : Turn) (query : Text) (user_id : String)
      → lookup session s ≡ none
      → IsStored session s (route_new settings turn query session user_id s)
  unfolding route_new
  route_new-IsStored settings turn query user_id idle =
      search (if-IsStored, create_clarify_result-IsStored, finish-IsStored) depth 8
