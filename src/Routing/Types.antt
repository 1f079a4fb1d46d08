-- ===== src/Routing/Types.antt =====
-- app/models/router_types.py. Enumerations are data types; a sub-intent is a text, since the model
-- may answer with any. A confidence is counted in hundredths, in which the program's own constants
-- are exact; that of the model is passed on and never looked at.
use ctrlf_ai.Prelude.{ℕ, String, Bool, false, ◌||◌, List, [], ◌∷◌, ◌=ˢ◌}

pub data Tier0Intent : Type 0 where
  policy_qa education_qa backend_status general_chat system_help unknown : Tier0Intent

pub data RouterDomain : Type 0 where
  policy edu hr quiz general : RouterDomain

pub data RouterRouteType : Type 0 where
  rag_internal backend_api llm_only route_system_help route_unknown : RouterRouteType

pub data SubIntentId : Type 0 where
  quiz_start quiz_submit quiz_generation : SubIntentId
  edu_status_check hr_leave_check hr_attendance_check hr_welfare_check : SubIntentId
  quiz_pending_check edu_resume_check hr_todo_check : SubIntentId

-- `SubIntentId.X.value`
abbrev pub value : SubIntentId → String
value quiz_start = "QUIZ_START"
value quiz_submit = "QUIZ_SUBMIT"
value quiz_generation = "QUIZ_GENERATION"
value edu_status_check = "EDU_STATUS_CHECK"
value hr_leave_check = "HR_LEAVE_CHECK"
value hr_attendance_check = "HR_ATTENDANCE_CHECK"
value hr_welfare_check = "HR_WELFARE_CHECK"
value quiz_pending_check = "QUIZ_PENDING_CHECK"
value edu_resume_check = "EDU_RESUME_CHECK"
value hr_todo_check = "HR_TODO_CHECK"

-- `sub_intent_id in CRITICAL_ACTION_SUB_INTENTS`
unfoldable pub is_critical : String → Bool
is_critical id = id =ˢ value quiz_start || id =ˢ value quiz_submit || id =ˢ value quiz_generation

pub record RouterDebugInfo : Type 0 where
  pub rule_hits : List String
  pub keywords : List String

abbrev pub no_debug : RouterDebugInfo
no_debug = record { rule_hits = []; keywords = [] }

pub record RouterResult : Type 0 where
  pub tier0_intent : Tier0Intent
  pub domain : RouterDomain
  pub route_type : RouterRouteType
  pub sub_intent_id : String
  pub confidence : ℕ
  pub needs_clarify : Bool
  pub clarify_question : String
  pub requires_confirmation : Bool
  pub confirmation_prompt : String
  pub debug : RouterDebugInfo

-- `RouterResult()`
abbrev pub default_result : RouterResult
default_result = record {
  tier0_intent = unknown;
  domain = general;
  route_type = route_unknown;
  sub_intent_id = "";
  confidence = 0;
  needs_clarify = false;
  clarify_question = "";
  requires_confirmation = false;
  confirmation_prompt = "";
  debug = no_debug;
}

abbrev pub education_content_vs_status : List String
education_content_vs_status =
    "교육 내용 설명이 필요하신가요, 아니면 내 이수현황/진도 조회가 필요하신가요?" ∷ "교육을 요약/설명해드릴까요, 아니면 내 기록(수료/시청률/점수)을 조회해드릴까요?"
    ∷ "교육 안내가 필요하신가요, 아니면 내가 어디까지 했는지 확인이 필요하신가요?" ∷ []

abbrev pub policy_vs_hr_personal : List String
policy_vs_hr_personal =
    "회사 규정(정책) 설명을 원하시나요, 아니면 내 HR 정보(연차/근태/복지) 조회를 원하시나요?"
    ∷ "규정의 기준/원칙을 찾을까요, 아니면 내 잔여/내역 같은 개인 데이터를 볼까요?"
    ∷ "질문이 정책(허용/금지/절차) 쪽인가요, 아니면 내 연차/급여/포인트 같은 개인화 쪽인가요?" ∷ []

-- `ConfirmationTemplates`
abbrev pub confirm_quiz_start : String
confirm_quiz_start = "퀴즈를 지금 시작할까요? (예/아니오)"

abbrev pub confirm_quiz_submit : String
confirm_quiz_submit = "답안을 제출하고 채점할까요? (예/아니오)"

abbrev pub confirm_quiz_generation : String
confirm_quiz_generation = "문항을 생성해서 저장할까요? (예/아니오)"

-- `get_default_route_for_intent`, with the table `TIER0_ROUTING_POLICY`
unfoldable pub get_default_route_for_intent : Tier0Intent → RouterRouteType × RouterDomain
get_default_route_for_intent policy_qa = (rag_internal, policy)
get_default_route_for_intent education_qa = (rag_internal, edu)
get_default_route_for_intent backend_status = (backend_api, hr)
get_default_route_for_intent general_chat = (llm_only, general)
get_default_route_for_intent system_help = (route_system_help, general)
get_default_route_for_intent unknown = (route_unknown, general)
