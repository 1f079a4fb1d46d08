-- ===== src/Routing/Llm.antt =====
-- app/services/llm_router.py. The call of the model and the reading of its reply are one argument,
-- `answer`: the result that the reply is read as, or none where an exception is raised on the way.
-- `Routing/Reply` is how the reply is read.
pub mod Gate
use ctrlf_ai.Prelude.{
  String, Bool, true, false, ◌&&◌, Option, some, none, [], ◌∷◌, not, if◌then◌else◌, ◌=ˢ◌,
}
use ctrlf_ai.Text.{Text}
use ctrlf_ai.Routing.Types.{
  Tier0Intent, policy_qa, education_qa, backend_status, general_chat, system_help, unknown, general,
  RouterRouteType, rag_internal, backend_api, llm_only, route_system_help, route_unknown,
  quiz_start, quiz_submit, quiz_generation, value, is_critical, RouterResult, default_result,
  confirm_quiz_start, confirm_quiz_submit, confirm_quiz_generation,
}

unfoldable pub is_backend_status : Tier0Intent → Bool
is_backend_status policy_qa = false
is_backend_status education_qa = false
is_backend_status backend_status = true
is_backend_status general_chat = false
is_backend_status system_help = false
is_backend_status unknown = false

abbrev pub which_status : String
which_status = "어떤 정보를 조회하시겠어요? (연차 잔여, 교육 이수현황, 근태 현황 등)"

-- Rule 1: a status query without a sub-intent asks back.
unfoldable pub ask_which : RouterResult → RouterResult
unfolding is_backend_status
ask_which r =
    if is_backend_status r.tier0_intent && r.sub_intent_id =ˢ "" && not r.needs_clarify
    then record r { needs_clarify = true; clarify_question = which_status }
    else r

unfoldable pub prompt_for : String → String → String
prompt_for sub_intent prompt =
    if sub_intent =ˢ value quiz_start
    then confirm_quiz_start
    else if sub_intent =ˢ value quiz_submit
    then confirm_quiz_submit
    else if sub_intent =ˢ value quiz_generation
    then confirm_quiz_generation
    else prompt

-- Rule 2: a critical action has to be confirmed.
unfoldable pub force_confirmation : RouterResult → RouterResult
unfolding is_critical prompt_for
force_confirmation r =
    if is_critical r.sub_intent_id
    then (if r.requires_confirmation then r else record r {
      requires_confirmation = true;
      confirmation_prompt =
          if r.confirmation_prompt =ˢ ""
          then prompt_for r.sub_intent_id r.confirmation_prompt
          else r.confirmation_prompt;
    })
    else r

-- The table `expected_routes`
unfoldable pub expected_route : Tier0Intent → RouterRouteType
expected_route policy_qa = rag_internal
expected_route education_qa = rag_internal
expected_route backend_status = backend_api
expected_route general_chat = llm_only
expected_route system_help = route_system_help
expected_route unknown = route_unknown

-- `_validate_and_fix`, where rule 3 sets the route to that of the intent
unfoldable pub validate_and_fix : RouterResult → RouterResult
unfolding ask_which force_confirmation expected_route
validate_and_fix result =
    let r = force_confirmation (ask_which result) in
    record r { route_type = expected_route r.tier0_intent }

abbrev pub fallback : RouterResult
fallback = record default_result {
  tier0_intent = unknown;
  domain = general;
  route_type = route_unknown;
  confidence = 10;
  needs_clarify = true;
  clarify_question = "질문을 이해하지 못했습니다. 좀 더 구체적으로 말씀해 주시겠어요?";
  debug = record { rule_hits = "LLM_FALLBACK" ∷ []; keywords = [] };
}

-- `LLMRouter.route`
unfoldable pub route :
    (Text → RouterResult → Option RouterResult) → Text → RouterResult → RouterResult
unfolding validate_and_fix
route answer user_query rule_result = elim (answer user_query rule_result) [
  | some r ↦ validate_and_fix r
  | none ↦ fallback
]
