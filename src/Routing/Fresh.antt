-- ===== src/Routing/Fresh.antt =====
-- app/services/router_orchestrator.py: routing a query of a session from which no answer is awaited.
-- A call takes what it reads from outside, a `Turn`: the clock at each reading, the trace id,
-- `random.choice` and the model's answer.
use ctrlf_ai.Prelude.{
  ℕ, ◌+◌, String, Bool, true, false, Option, some, none, List, [], leb, if◌then◌else◌,
}
use ctrlf_ai.Text.{Text, codes}
use ctrlf_ai.Routing.Types.{
  Tier0Intent, policy_qa, education_qa, general_chat, system_help, RouterResult,
}
use ctrlf_ai.Routing.Rule
use ctrlf_ai.Routing.Llm
use ctrlf_ai.Routing.Pending.{
  PendingAction, clarify, confirm, ClarifyGroup, OrchestrationResult, Store, set,
}

pub record Settings : Type 0 where
  pub summary_enabled : Bool
  pub use_llm_router : Bool
  pub pending_timeout_seconds : ℕ

pub record Turn : Type 0 where
  pub read_at : ℕ
  pub confirmed_at : ℕ
  pub asked_at : ℕ
  pub created_at : ℕ
  pub trace_id : String
  pub choose : List String → String
  pub answer : Text → RouterResult → Option RouterResult

unfoldable pub determine_clarify_group : Tier0Intent → ClarifyGroup
determine_clarify_group education_qa = ClarifyGroup.edu
determine_clarify_group Tier0Intent.backend_status = ClarifyGroup.edu
determine_clarify_group policy_qa = ClarifyGroup.policy
determine_clarify_group general_chat = ClarifyGroup.faq
determine_clarify_group system_help = ClarifyGroup.faq
determine_clarify_group Tier0Intent.unknown = ClarifyGroup.unknown

-- What waits for the answer to a question.
abbrev pub question_pending : Settings → Turn → RouterResult → String → Text → PendingAction
question_pending settings turn r user_id original_query = record {
  action_type = clarify;
  trace_id = turn.trace_id;
  pending_intent = r.tier0_intent;
  sub_intent_id = "";
  router_result = some r;
  created_at = turn.created_at;
  expires_at = some (turn.asked_at + settings.pending_timeout_seconds);
  original_query = original_query;
  clarify_group = determine_clarify_group r.tier0_intent;
  user_id = user_id;
}

unfoldable pub create_clarify_result :
    Settings → Turn → RouterResult → String → String → Text → Store → OrchestrationResult × Store
unfolding determine_clarify_group
create_clarify_result settings turn r session_id user_id original_query store =
    let pending = question_pending settings turn r user_id original_query in
    (
      record {
        router_result = r;
        needs_user_response = true;
        response_message = codes r.clarify_question;
        pending_action = some pending;
        can_execute = false;
      },
      set session_id pending store,
    )

-- What waits for a confirmation.
abbrev pub confirmation_pending : Turn → RouterResult → PendingAction
confirmation_pending turn r = record {
  action_type = confirm;
  trace_id = turn.trace_id;
  pending_intent = r.tier0_intent;
  sub_intent_id = r.sub_intent_id;
  router_result = some r;
  created_at = turn.created_at;
  expires_at = none;
  original_query = [];
  clarify_group = ClarifyGroup.unknown;
  user_id = "";
}

unfoldable pub create_confirmation_result :
    Turn → RouterResult → String → Store → OrchestrationResult × Store
create_confirmation_result turn r session_id store =
    let pending = confirmation_pending turn r in
    (
      record {
        router_result = r;
        needs_user_response = true;
        response_message = codes r.confirmation_prompt;
        pending_action = some pending;
        can_execute = false;
      },
      set session_id pending store,
    )

-- A result that is executed at once, and one that ends the matter with a message.
abbrev pub execute : RouterResult → OrchestrationResult
execute r = record {
  router_result = r;
  needs_user_response = false;
  response_message = [];
  pending_action = none;
  can_execute = true;
}

abbrev pub refuse : RouterResult → String → OrchestrationResult
refuse r message = record {
  router_result = r;
  needs_user_response = false;
  response_message = codes message;
  pending_action = none;
  can_execute = false;
}

-- Steps 5 and 6 of `route`.
unfoldable pub finish : Turn → RouterResult → String → Store → OrchestrationResult × Store
unfolding create_confirmation_result
finish turn r session_id store =
    if r.requires_confirmation
    then create_confirmation_result turn r session_id store
    else (execute r, store)

-- Steps 1 to 6 of `route`.
unfoldable pub route_new :
    Settings → Turn → Text → String → String → Store → OrchestrationResult × Store
unfolding finish create_clarify_result
route_new settings turn user_query session_id user_id store =
    let rule = Rule.route settings.summary_enabled turn.choose user_query in
    let llm = Llm.route turn.answer user_query rule in
    if rule.needs_clarify
    then create_clarify_result settings turn rule session_id user_id user_query store
    else if leb 85 rule.confidence
    then finish turn rule session_id store
    else if settings.use_llm_router
    then (if llm.needs_clarify
        then create_clarify_result settings turn llm session_id user_id user_query store
        else finish turn llm session_id store)
    else finish turn rule session_id store
