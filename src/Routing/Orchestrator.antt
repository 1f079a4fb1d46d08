-- ===== src/Routing/Orchestrator.antt =====
-- app/services/router_orchestrator.py: the answers to what a session was asked, and `route` as a
-- whole. A call runs to its end before the next one starts. No result stands for an exception.
use ctrlf_ai.Prelude.{
  ℕ, String, Bool, true, false, Option, some, none, List, [], ◌∷◌, ◌++◌, length, ltb, if◌then◌else◌,
  ◌||◌,
}
use ctrlf_ai.Text.{Text, codes, lower, strip, contains, equals}
use ctrlf_ai.Routing.Types.{
  Tier0Intent, policy_qa, education_qa, general_chat, system_help, RouterResult, default_result,
  llm_only,
}
use ctrlf_ai.Routing.Types
use ctrlf_ai.Routing.Pending.{
  PendingAction, PendingActionType, clarify, confirm, ClarifyGroup, AnsweredRoute, backend_status,
  rag_internal, backend_api, clarify_keyword_mapping, OrchestrationResult, Store, delete, get,
}
use ctrlf_ai.Routing.Fresh.{Settings, Turn, execute, refuse, route_new}

-- The action that was confirmed.
unfoldable pub confirmed_action : PendingAction → RouterResult
confirmed_action pending = elim pending.router_result [
  | some r ↦ record r { requires_confirmation = false }
  | none ↦ record default_result {
    tier0_intent = pending.pending_intent;
    route_type = Types.backend_api;
  }
]

abbrev pub not_found_message : String
not_found_message = "이전 요청을 찾을 수 없습니다. 다시 말씀해 주세요."

abbrev pub cancelled_message : String
cancelled_message = "알겠습니다. 취소되었습니다."

unfoldable pub handle_found :
    String → Bool → Option PendingAction × Store → OrchestrationResult × Store
unfolding confirmed_action
handle_found session_id confirmed (none, store) = (refuse default_result not_found_message, store)
handle_found session_id confirmed (some pending, store) =
    let store' = delete session_id store in
    if confirmed then (execute (confirmed_action pending), store') else (
      refuse (record default_result { tier0_intent = general_chat; route_type = llm_only })
          cancelled_message,
      store',
    )

unfoldable pub handle_confirmation : ℕ → String → Bool → Store → OrchestrationResult × Store
unfolding handle_found
handle_confirmation now session_id confirmed store =
    handle_found session_id confirmed (get now session_id store)

unfoldable pub is_one_of : Text → List String → Bool
is_one_of s [] = false
is_one_of s (w ∷ ws) = equals (codes w) s || is_one_of s ws

abbrev pub yes_words : List String
yes_words = "예" ∷ "네" ∷ "응" ∷ "ㅇㅇ" ∷ "yes" ∷ "진행" ∷ "시작" ∷ "확인" ∷ []

abbrev pub no_words : List String
no_words = "아니오" ∷ "아니" ∷ "ㄴㄴ" ∷ "no" ∷ "취소" ∷ "안해" ∷ []

unfoldable pub matched_route : Text → List (String × AnsweredRoute) → Option AnsweredRoute
matched_route s [] = none
matched_route s ((w, route) ∷ rest) =
    if contains (codes w) s then some route else matched_route s rest

-- The result for a matched keyword. Without a routing result the domain would be None, which
-- `RouterResult` refuses by an exception.
unfoldable pub answered : AnsweredRoute → PendingAction → Option RouterResult → Option RouterResult
answered route pending none = none
answered backend_status pending (some r) = some (record default_result {
  tier0_intent = pending.pending_intent;
  domain = r.domain;
  route_type = Types.backend_api;
  sub_intent_id = "STATUS_QUERY";
  confidence = 90;
})
answered rag_internal pending (some r) = some (record default_result {
  tier0_intent = pending.pending_intent;
  domain = r.domain;
  route_type = Types.rag_internal;
  confidence = 90;
})
answered backend_api pending (some r) = some (record default_result {
  tier0_intent = pending.pending_intent;
  domain = r.domain;
  route_type = Types.backend_api;
  confidence = 90;
})

-- `_resolve_clarify_answer`: nothing matched, an exception, or the result.
unfoldable pub resolve_clarify_answer :
    Text → ClarifyGroup → PendingAction → Option (Option RouterResult)
unfolding answered matched_route
resolve_clarify_answer user_answer clarify_group pending =
    elim (matched_route (strip (lower user_answer)) (clarify_keyword_mapping clarify_group)) [
      | none ↦ none
      | some route ↦ some (answered route pending pending.router_result)
    ]

-- The answer to neither yes nor no: the same question again.
unfoldable pub ask_again : PendingAction → OrchestrationResult
ask_again pending = record {
  router_result = elim pending.router_result [ some r ↦ r | none ↦ default_result ];
  needs_user_response = true;
  response_message =
      codes "'예' 또는 '아니오'로 답변해 주세요. "
      ++ elim pending.router_result [ some r ↦ codes r.confirmation_prompt | none ↦ [] ];
  pending_action = some pending;
  can_execute = false;
}

-- `_handle_pending_response` on a confirmation.
unfoldable pub handle_confirm :
    Turn → Text → String → PendingAction → Store → OrchestrationResult × Store
unfolding handle_confirmation is_one_of ask_again
handle_confirm turn user_query session_id pending store =
    let word = strip (lower user_query) in
    if is_one_of word yes_words
    then handle_confirmation turn.confirmed_at session_id true store
    else if is_one_of word no_words
    then handle_confirmation turn.confirmed_at session_id false store
    else (ask_again pending, store)

unfoldable pub resolved :
    Settings
    → Turn
    → Text
    → String
    → PendingAction
    → Store
    → Option (Option RouterResult)
    → Option OrchestrationResult × Store
unfolding route_new
resolved settings turn user_query session_id pending store none =
    let (o, store') =
      route_new settings turn (strip (pending.original_query ++ 32 ∷ user_query)) session_id
        pending.user_id store in
    (some o, store')
resolved settings turn user_query session_id pending store (some none) = (none, store)
resolved settings turn user_query session_id pending store (some (some r)) =
    (some (execute r), store)

-- `_handle_pending_response` on a question, which is deleted first.
unfoldable pub handle_clarify :
    Settings → Turn → Text → String → PendingAction → Store → Option OrchestrationResult × Store
unfolding resolved resolve_clarify_answer
handle_clarify settings turn user_query session_id pending store =
    let store' = delete session_id store in
    let (o, store'') = route_new settings turn user_query session_id pending.user_id store' in
    if ltb 20 (length (strip user_query))
    then (some o, store'')
    else resolved settings turn user_query session_id pending store'
        (resolve_clarify_answer user_query pending.clarify_group pending)

-- `_handle_pending_response`
unfoldable pub handle_pending_response :
    Settings
    → Turn
    → Text
    → String
    → PendingAction
    → PendingActionType
    → Store
    → Option OrchestrationResult × Store
unfolding handle_confirm handle_clarify
handle_pending_response settings turn user_query session_id pending confirm store =
    let (o, store') = handle_confirm turn user_query session_id pending store in (some o, store')
handle_pending_response settings turn user_query session_id pending clarify store =
    handle_clarify settings turn user_query session_id pending store

unfoldable pub route_found :
    Settings
    → Turn
    → Text
    → String
    → String
    → Option PendingAction × Store
    → Option OrchestrationResult × Store
unfolding handle_pending_response
route_found settings turn user_query session_id user_id (none, store) =
    let (o, store') = route_new settings turn user_query session_id user_id store in
    (some o, store')
route_found settings turn user_query session_id user_id (some pending, store) =
    handle_pending_response settings turn user_query session_id pending pending.action_type store

-- `RouterOrchestrator.route`, with `skip_pending_check` false
unfoldable pub route :
    Settings → Turn → Text → String → String → Store → Option OrchestrationResult × Store
unfolding route_found
route settings turn user_query session_id user_id store =
    route_found settings turn user_query session_id user_id (get turn.read_at session_id store)

abbrev pub clear_pending : String → Store → Store
clear_pending session_id store = delete session_id store
