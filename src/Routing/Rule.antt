-- ===== src/Routing/Rule.antt =====
-- app/services/rule_router.py. `choose` is `random.choice`; the summary flag is the setting
-- SUMMARY_INTENT_ENABLED. The debug object is passed from check to check, since a check that finds
-- nothing may still have written to it. Logging is left out.
pub mod Intents
use ctrlf_ai.Prelude.{
  ℕ, String, Bool, true, false, ◌&&◌, ◌||◌, Option, none, some, List, [], ◌∷◌, ◌++◌, if◌then◌else◌,
}
use ctrlf_ai.Text.{Text, codes, lower, contains, has_suffix, contains_any, matching}
use ctrlf_ai.Routing.Types.{
  Tier0Intent, policy_qa, education_qa, backend_status, general_chat, system_help, unknown,
  RouterDomain, policy, edu, hr, quiz, general, RouterRouteType, rag_internal, backend_api,
  llm_only, route_system_help, route_unknown, quiz_start, quiz_submit, quiz_generation,
  edu_status_check, hr_leave_check, quiz_pending_check, edu_resume_check, hr_todo_check, value,
  RouterDebugInfo, no_debug, RouterResult, default_result, education_content_vs_status,
  policy_vs_hr_personal, confirm_quiz_start, confirm_quiz_submit, confirm_quiz_generation,
}
use ctrlf_ai.Routing.Keywords.{
  policy_keywords, edu_content_keywords, edu_status_keywords, edu_resume_keywords,
  hr_personal_keywords, leave_policy_keywords, quiz_start_keywords, quiz_submit_keywords,
  quiz_generation_keywords, quiz_pending_keywords, quiz_context_keywords, hr_todo_keywords,
  general_chat_keywords, summary_keywords, system_help_keywords, edu_ambiguous_keywords,
  edu_ambiguous_verbs, leave_ambiguous_keywords, leave_ambiguous_verbs, policy_clarifiers,
  question_endings,
}

-- `debug_info.rule_hits.append(rule)` and `debug_info.keywords.extend(...)`
abbrev pub hit : String → RouterDebugInfo → RouterDebugInfo
hit rule d = record d { rule_hits = d.rule_hits ++ rule ∷ [] }

abbrev pub hit_with : String → List String → RouterDebugInfo → RouterDebugInfo
hit_with rule words d = record {
  rule_hits = d.rule_hits ++ rule ∷ [];
  keywords = d.keywords ++ words;
}

unfoldable pub is_boundary_a_ambiguous : Text → Bool
is_boundary_a_ambiguous q =
    if contains_any q edu_content_keywords
    then false
    else if contains_any q edu_status_keywords
    then false
    else if contains_any q edu_resume_keywords
    then false
    else if contains_any q quiz_pending_keywords
    then false
    else contains_any q edu_ambiguous_keywords && contains_any q edu_ambiguous_verbs

unfoldable pub is_boundary_b_ambiguous : Text → Bool
is_boundary_b_ambiguous q =
    if contains_any q leave_policy_keywords
    then false
    else if contains_any q hr_personal_keywords
    then false
    else if contains_any q policy_clarifiers
    then false
    else contains_any q leave_ambiguous_keywords && contains_any q leave_ambiguous_verbs

abbrev pub clarify : RouterDomain → String → RouterDebugInfo → RouterResult
clarify domain question debug = record default_result {
  tier0_intent = unknown;
  domain = domain;
  route_type = route_unknown;
  confidence = 30;
  needs_clarify = true;
  clarify_question = question;
  debug = debug;
}

unfoldable pub check_ambiguous_boundaries :
    (List String → String) → Text → RouterDebugInfo → Option RouterResult
check_ambiguous_boundaries choose q debug =
    if is_boundary_a_ambiguous q
    then some (clarify edu (choose education_content_vs_status) (hit "BOUNDARY_A_AMBIGUOUS" debug))
    else if is_boundary_b_ambiguous q
    then some (clarify hr (choose policy_vs_hr_personal) (hit "BOUNDARY_B_AMBIGUOUS" debug))
    else none

abbrev pub critical : String → String → RouterDebugInfo → RouterResult
critical sub_intent prompt debug = record default_result {
  tier0_intent = backend_status;
  domain = quiz;
  route_type = backend_api;
  sub_intent_id = sub_intent;
  confidence = 95;
  requires_confirmation = true;
  confirmation_prompt = prompt;
  debug = debug;
}

-- The check for QUIZ_GENERATION.
check_generation : Text → RouterDebugInfo → Option RouterResult × RouterDebugInfo
check_generation q debug =
    let debug' = hit_with "QUIZ_GENERATION" (matching q quiz_generation_keywords) debug in
    if contains_any q quiz_generation_keywords
    then (some (critical (value quiz_generation) confirm_quiz_generation debug'), debug')
    else (none, debug)

-- The check for QUIZ_SUBMIT, which falls through without a word of the quiz context.
check_submit : Text → RouterDebugInfo → Option RouterResult × RouterDebugInfo
unfolding check_generation
check_submit q debug =
    let debug' = hit_with "QUIZ_SUBMIT" (matching q quiz_submit_keywords) debug in
    if contains_any q quiz_submit_keywords
    then (if contains_any q quiz_context_keywords
        then (some (critical (value quiz_submit) confirm_quiz_submit debug'), debug')
        else check_generation q (hit "QUIZ_SUBMIT_SKIPPED_NO_CONTEXT" debug))
    else check_generation q debug

-- The result, and the debug object as the checks leave it.
unfoldable pub check_critical_actions :
    Text → RouterDebugInfo → Option RouterResult × RouterDebugInfo
unfolding check_submit
check_critical_actions q debug =
    let debug' = hit_with "QUIZ_START" (matching q quiz_start_keywords) debug in
    if contains_any q quiz_start_keywords
    then (some (critical (value quiz_start) confirm_quiz_start debug'), debug')
    else check_submit q debug

ends_with_any : Text → List String → Bool
ends_with_any q [] = false
ends_with_any q (w ∷ ws) = has_suffix (codes w) q || ends_with_any q ws

-- The pattern's `$` also matches before a newline at the very end.
ends_with_line : Text → List String → Bool
ends_with_line q [] = false
ends_with_line q (w ∷ ws) = has_suffix (codes w ++ 10 ∷ []) q || ends_with_line q ws

unfoldable pub is_question_format : Text → Bool
unfolding ends_with_any ends_with_line
is_question_format query =
    if contains (codes "?") query
    then true
    else ends_with_any query question_endings || ends_with_line query question_endings

abbrev pub classified :
    Tier0Intent → RouterDomain → RouterRouteType → String → ℕ → RouterDebugInfo → RouterResult
classified intent domain route sub_intent confidence debug = record default_result {
  tier0_intent = intent;
  domain = domain;
  route_type = route;
  sub_intent_id = sub_intent;
  confidence = confidence;
  debug = debug;
}

-- The flag only adds to the debug object.
unfoldable pub note_summary : Bool → Text → RouterDebugInfo → RouterDebugInfo
note_summary enabled q debug =
    if enabled
    then (if contains_any q summary_keywords
        then hit_with "SUMMARY_DETECTED" (matching q summary_keywords) debug
        else debug)
    else debug

-- The last steps of `_classify_by_keywords`: small talk, and the default.
unfoldable pub classify_default : Text → Text → RouterDebugInfo → RouterResult
classify_default q original debug =
    if contains_any q general_chat_keywords
    then (if is_question_format original
        then classified policy_qa policy rag_internal "" 60
            (hit "QUESTION_FORMAT_DEFAULT_POLICY" debug)
        else classified general_chat general llm_only "" 80
            (hit_with "GENERAL_CHAT" (matching q general_chat_keywords) debug))
    else if is_question_format original
    then classified policy_qa policy rag_internal "" 60 (hit "QUESTION_FORMAT_DEFAULT_POLICY" debug)
    else classified policy_qa policy rag_internal "" 50 (hit "DEFAULT_POLICY_QA" debug)

-- Policy, leave policy, training content and system help, in this order.
unfoldable pub classify_knowledge : Text → Text → RouterDebugInfo → RouterResult
unfolding classify_default
classify_knowledge q original debug =
    if contains_any q policy_keywords
    then classified policy_qa policy rag_internal "" 85
        (hit_with "POLICY" (matching q policy_keywords) debug)
    else if contains_any q leave_policy_keywords
    then classified policy_qa policy rag_internal "" 85
        (hit_with "LEAVE_POLICY" (matching q leave_policy_keywords) debug)
    else if contains_any q edu_content_keywords
    then classified education_qa edu rag_internal "" 85
        (hit_with "EDU_CONTENT" (matching q edu_content_keywords) debug)
    else if contains_any q system_help_keywords
    then classified system_help general route_system_help "" 90
        (hit_with "SYSTEM_HELP" (matching q system_help_keywords) debug)
    else classify_default q original debug

-- The personal questions, in order of priority.
unfoldable pub classify_personal : Text → Text → RouterDebugInfo → RouterResult
unfolding classify_knowledge
classify_personal q original debug =
    if contains_any q hr_personal_keywords
    then classified backend_status hr backend_api (value hr_leave_check) 90
        (hit_with "HR_PERSONAL" (matching q hr_personal_keywords) debug)
    else if contains_any q hr_todo_keywords
    then classified backend_status hr backend_api (value hr_todo_check) 90
        (hit_with "HR_TODO_CHECK" (matching q hr_todo_keywords) debug)
    else if contains_any q edu_status_keywords
    then classified backend_status edu backend_api (value edu_status_check) 90
        (hit_with "EDU_STATUS" (matching q edu_status_keywords) debug)
    else if contains_any q edu_resume_keywords
    then classified backend_status edu backend_api (value edu_resume_check) 90
        (hit_with "EDU_RESUME_CHECK" (matching q edu_resume_keywords) debug)
    else if contains_any q quiz_pending_keywords
    then classified backend_status quiz backend_api (value quiz_pending_check) 90
        (hit_with "QUIZ_PENDING_CHECK" (matching q quiz_pending_keywords) debug)
    else classify_knowledge q original debug

-- The two compound conditions come first.
unfoldable pub classify_by_keywords : Bool → Text → Text → RouterDebugInfo → RouterResult
unfolding note_summary classify_personal
classify_by_keywords summary q original debug =
    let d = note_summary summary q debug in
    if contains (codes "교육") q && contains_any q edu_content_keywords
    then classified education_qa edu rag_internal "" 85
        (hit_with "EDU_CONTENT_PRIORITY" (matching q edu_content_keywords) d)
    else if contains_any q policy_clarifiers
        && (contains_any q policy_keywords
            || contains_any q leave_policy_keywords
            || contains_any q leave_ambiguous_keywords)
    then classified policy_qa policy rag_internal "" 85
        (hit_with "POLICY_PRIORITY" (matching q policy_clarifiers) d)
    else classify_personal q original d

after_critical : Bool → Text → Text → Option RouterResult × RouterDebugInfo → RouterResult
unfolding classify_by_keywords
after_critical summary q original (some r, debug) = r
after_critical summary q original (none, debug) = classify_by_keywords summary q original debug

after_boundaries : Bool → Text → Text → Option RouterResult → RouterResult
unfolding after_critical check_critical_actions
after_boundaries summary q original (some r) = r
after_boundaries summary q original none =
    after_critical summary q original (check_critical_actions q no_debug)

-- `RuleRouter.route`
unfoldable pub route : Bool → (List String → String) → Text → RouterResult
unfolding after_boundaries check_ambiguous_boundaries
route summary choose user_query =
    after_boundaries summary (lower user_query) user_query
      (check_ambiguous_boundaries choose (lower user_query) no_debug)
