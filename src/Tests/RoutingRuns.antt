-- ===== src/Tests/RoutingRuns.antt =====
-- A session that starts a quiz after it was asked, and one that gets a question back.
use ctrlf_ai.Prelude.{
  ℕ, String, true, false, ◌&&◌, Option, none, some, List, [], ◌∷◌, ◌++◌, ◌≡◌, refl, arith,
}
use ctrlf_ai.Prelude.Dict.{lookup, insert, remove}
use ctrlf_ai.Text.{
  Text, codes, strip, lower, contains, contains_any, has_prefix, equals, matching, strip_left,
  is_space,
}
use ctrlf_ai.Routing.Types.{is_critical, RouterResult, default_result, backend_status}
use ctrlf_ai.Routing.Keywords.{
  edu_content_keywords, edu_status_keywords, edu_resume_keywords, hr_personal_keywords,
  leave_policy_keywords, quiz_start_keywords, quiz_pending_keywords, edu_ambiguous_keywords,
  edu_ambiguous_verbs, leave_ambiguous_keywords, leave_ambiguous_verbs, policy_clarifiers,
}
use ctrlf_ai.Routing.Rule
use ctrlf_ai.Routing.Rule.Intents.{IsRouted, route-IsRouted}
use ctrlf_ai.Routing.Llm
use ctrlf_ai.Routing.Llm.Gate.{IsSafe, route-IsSafe}
use ctrlf_ai.Routing.Pending.{
  PendingAction, OrchestrationResult, Store, get, get_found, delete, is_past,
}
use ctrlf_ai.Routing.Fresh.{
  Settings, Turn, route_new, finish, create_confirmation_result, question_pending, execute,
}
use ctrlf_ai.Routing.Orchestrator.{
  route, route_found, handle_pending_response, handle_confirm, handle_confirmation, handle_found,
  confirmed_action, is_one_of, yes_words, handle_clarify,
}
use ctrlf_ai.Routing.Sessions.{is_some}
use ctrlf_ai.Routing.Sessions.Answers.{route-stored, route-others}
use ctrlf_ai.Routing.Sessions.Confirmed.{WasConfirmed, executes_critical, route-WasConfirmed}
use ctrlf_ai.Routing.Sessions.History.{Call, query, run, step, WasPutToUser, run-WasPutToUser}
use ctrlf_ai.Routing.Sessions.Expiry.{AreAlike, IsFrom, live, delete-AreAlike, run-AreAlike}
use ctrlf_ai.Routing.Sessions.Unresolved.{rule_question_rerouted}
use ctrlf_ai.Routing.Sessions.Valid.{IsValid, empty-IsValid, route_total, route-IsValid}

abbrev settings : Settings
settings = record { summary_enabled = false; use_llm_router = true; pending_timeout_seconds = 300 }

abbrev first : List String → String
first [] = ""
first (s ∷ rest) = s

abbrev at_time : ℕ → Turn
at_time n = record {
  read_at = n;
  confirmed_at = n;
  asked_at = n;
  created_at = n;
  trace_id = "t";
  choose = first;
  answer = λ text rule. none;
}

abbrev start_quiz : Text
start_quiz = codes "퀴즈 시작"

abbrev say_yes : Text
say_yes = codes "예"

abbrev calls : List Call
calls = query (at_time 0) start_quiz "s1" "kim" ∷ []

abbrev asked : Store
asked = (run settings calls ([], [])).1

abbrev answer_to : Option OrchestrationResult → OrchestrationResult
answer_to (some o) = o
answer_to none = execute default_result

abbrev started : OrchestrationResult
started = answer_to (route settings (at_time 10) say_yes "s1" "kim" asked).0

executed : (route settings (at_time 10) say_yes "s1" "kim" asked).0 ≡ some started
unfolding route route_found run step get get_found is_past lookup insert remove contains_any
    contains has_prefix lower strip strip_left is_space equals route_new finish
    create_confirmation_result handle_pending_response handle_confirm handle_confirmation
    handle_found confirmed_action is_one_of Rule.route Rule.is_boundary_a_ambiguous
    Rule.is_boundary_b_ambiguous Rule.check_ambiguous_boundaries Rule.check_critical_actions
    matching edu_content_keywords edu_status_keywords edu_resume_keywords hr_personal_keywords
    leave_policy_keywords quiz_start_keywords quiz_pending_keywords edu_ambiguous_keywords
    edu_ambiguous_verbs leave_ambiguous_keywords leave_ambiguous_verbs policy_clarifiers
executed = refl

starts_quiz : executes_critical started ≡ true
unfolding route route_found run step get get_found is_past lookup insert remove contains_any
    contains has_prefix lower strip strip_left is_space equals route_new finish
    create_confirmation_result handle_pending_response handle_confirm handle_confirmation
    handle_found confirmed_action is_one_of Rule.route Rule.is_boundary_a_ambiguous
    Rule.is_boundary_b_ambiguous Rule.check_ambiguous_boundaries Rule.check_critical_actions
    matching edu_content_keywords edu_status_keywords edu_resume_keywords hr_personal_keywords
    leave_policy_keywords quiz_start_keywords quiz_pending_keywords edu_ambiguous_keywords
    edu_ambiguous_verbs leave_ambiguous_keywords leave_ambiguous_verbs policy_clarifiers is_critical
starts_quiz = refl

run-WasPutToUser_example :
    (is_one_of (strip (lower say_yes)) yes_words ≡ true)
    × WasPutToUser (run settings calls ([], [])).0 "s1" started.router_result
run-WasPutToUser_example =
    run-WasPutToUser settings calls (at_time 10) say_yes "s1" "kim" started executed starts_quiz

route-WasConfirmed_example : WasConfirmed (at_time 10) say_yes "s1" asked started
route-WasConfirmed_example =
    route-WasConfirmed settings (at_time 10) say_yes "s1" "kim" asked started executed starts_quiz

route-stored_example :
    (lookup "s1" (route settings (at_time 10) say_yes "s1" "kim" asked).1 ≡ started.pending_action)
    × (started.needs_user_response ≡ is_some started.pending_action)
    × ((started.can_execute && started.needs_user_response) ≡ false)
route-stored_example = route-stored settings (at_time 10) say_yes "s1" "kim" asked started executed

route-others_example :
    lookup "s1" (route settings (at_time 10) say_yes "s2" "lee" asked).1 ≡ lookup "s1" asked
route-others_example = route-others settings (at_time 10) say_yes "s2" "lee" asked "s1" refl

route_total_example :
    (o : OrchestrationResult) × ((route settings (at_time 0) start_quiz "s1" "kim" []).0 ≡ some o)
route_total_example = route_total settings (at_time 0) start_quiz "s1" "kim" [] empty-IsValid

route-IsValid_example : IsValid (route settings (at_time 0) start_quiz "s1" "kim" []).1
route-IsValid_example = route-IsValid settings (at_time 0) start_quiz "s1" "kim" [] empty-IsValid

route-IsRouted_example : IsRouted (Rule.route false first start_quiz)
route-IsRouted_example = route-IsRouted false first start_quiz

-- The model proposes to submit the answers at once.
abbrev hasty : RouterResult
hasty = record default_result { tier0_intent = backend_status; sub_intent_id = "QUIZ_SUBMIT" }

route-IsSafe_example : IsSafe (Llm.route (λ text rule. some hasty) say_yes default_result)
route-IsSafe_example = route-IsSafe (λ text rule. some hasty) say_yes default_result

abbrev about_training : Text
about_training = codes "교육 알려줘"

questions : (Rule.route false first about_training).needs_clarify ≡ true
unfolding route route_found run step get get_found is_past lookup insert remove contains_any
    contains has_prefix lower strip strip_left is_space equals route_new finish
    create_confirmation_result handle_pending_response handle_confirm handle_confirmation
    handle_found confirmed_action is_one_of Rule.route Rule.is_boundary_a_ambiguous
    Rule.is_boundary_b_ambiguous Rule.check_ambiguous_boundaries Rule.check_critical_actions
    matching edu_content_keywords edu_status_keywords edu_resume_keywords hr_personal_keywords
    leave_policy_keywords quiz_start_keywords quiz_pending_keywords edu_ambiguous_keywords
    edu_ambiguous_verbs leave_ambiguous_keywords leave_ambiguous_verbs policy_clarifiers
questions = refl

-- The answer holds a keyword of the training group.
abbrev short_answer : Text
short_answer = codes "내용"

abbrev question : PendingAction
question =
    question_pending settings (at_time 0) (Rule.route false first about_training) "kim"
      about_training

rule_question_rerouted_example :
    handle_clarify settings (at_time 5) short_answer "s1" question [] ≡ (
      some
          (route_new settings
            (at_time 5)
            (strip (about_training ++ 32 ∷ short_answer))
            "s1"
            "kim"
            (delete "s1" [])).0,
      (route_new settings
          (at_time 5)
          (strip (about_training ++ 32 ∷ short_answer))
          "s1"
          "kim"
          (delete "s1" [])).1,
    )
unfolding strip strip_left is_space
rule_question_rerouted_example =
    rule_question_rerouted settings (at_time 0) (at_time 5) about_training short_answer "s1" "kim"
      [] questions (omega arith)

-- A question whose time ends at 300, and a session that asks and starts a quiz after that.
abbrev expired_store : Store
expired_store = ("s1", question) ∷ []

abbrev later_calls : List Call
later_calls =
    query (at_time 400) short_answer "s1" "kim"
    ∷ query (at_time 410) start_quiz "s1" "kim"
    ∷ query (at_time 420) say_yes "s1" "kim"
    ∷ []

is_over : live 400 (lookup "s1" expired_store) ≡ none
unfolding live lookup
is_over = refl

run-AreAlike_example :
    ((run settings later_calls ([], expired_store)).0
      ≡ (run settings later_calls ([], delete "s1" expired_store)).0)
    × AreAlike 400
        (run settings later_calls ([], expired_store)).1
        (run settings later_calls ([], delete "s1" expired_store)).1
unfolding IsFrom
run-AreAlike_example =
    run-AreAlike settings 400 later_calls [] expired_store (delete "s1" expired_store)
      ((omega arith, omega arith), ((omega arith, omega arith), ((omega arith, omega arith), tt)))
      (delete-AreAlike 400 "s1" expired_store is_over)
