-- ===== src/Routing/Pending.antt =====
-- app/services/router_orchestrator.py, the data: what a session is asked, the answer to a query, and
-- the store of pending actions, with the clock's reading in seconds as an argument.
use ctrlf_ai.Prelude.{ℕ, String, Bool, false, Option, some, none, List, [], ◌∷◌, ltb, if◌then◌else◌}
use ctrlf_ai.Prelude.Dict.{Dict, lookup, insert, remove}
use ctrlf_ai.Text.{Text}
use ctrlf_ai.Routing.Types.{Tier0Intent, RouterResult}

pub data PendingActionType : Type 0 where
  clarify confirm : PendingActionType

pub data ClarifyGroup : Type 0 where
  edu faq profile policy incident unknown : ClarifyGroup

-- The values of the inner dictionaries, which are strings in the program.
pub data AnsweredRoute : Type 0 where
  backend_status rag_internal backend_api : AnsweredRoute

unfoldable pub clarify_keyword_mapping : ClarifyGroup → List (String × AnsweredRoute)
clarify_keyword_mapping edu =
    ("이수", backend_status)
    ∷ ("진도", backend_status)
    ∷ ("조회", backend_status)
    ∷ ("내역", backend_status)
    ∷ ("기록", backend_status)
    ∷ ("현황", backend_status)
    ∷ ("상태", backend_status)
    ∷ ("수료", backend_status)
    ∷ ("완료", backend_status)
    ∷ ("내용", rag_internal)
    ∷ ("설명", rag_internal)
    ∷ ("요약", rag_internal)
    ∷ ("정리", rag_internal)
    ∷ ("안내", rag_internal)
    ∷ ("어떤", rag_internal)
    ∷ ("뭐야", rag_internal)
    ∷ ("알려", rag_internal)
    ∷ []
clarify_keyword_mapping policy =
    ("조회", backend_status)
    ∷ ("현황", backend_status)
    ∷ ("상태", backend_status)
    ∷ ("내용", rag_internal)
    ∷ ("설명", rag_internal)
    ∷ ("규정", rag_internal)
    ∷ ("정책", rag_internal)
    ∷ []
clarify_keyword_mapping profile =
    ("조회", backend_status)
    ∷ ("확인", backend_status)
    ∷ ("내역", backend_status)
    ∷ ("정보", backend_status)
    ∷ []
clarify_keyword_mapping incident =
    ("통계", backend_status)
    ∷ ("현황", backend_status)
    ∷ ("조회", backend_status)
    ∷ ("신고", backend_api)
    ∷ ("보고", backend_api)
    ∷ []
clarify_keyword_mapping faq = []
clarify_keyword_mapping unknown = []

pub record PendingAction : Type 0 where
  pub action_type : PendingActionType
  pub trace_id : String
  pub pending_intent : Tier0Intent
  pub sub_intent_id : String
  pub router_result : Option RouterResult
  pub created_at : ℕ
  pub expires_at : Option ℕ
  pub original_query : Text
  pub clarify_group : ClarifyGroup
  pub user_id : String

pub record OrchestrationResult : Type 0 where
  pub router_result : RouterResult
  pub needs_user_response : Bool
  pub response_message : Text
  pub pending_action : Option PendingAction
  pub can_execute : Bool

-- `PendingActionStore`
abbrev pub Store : Type 0
Store = Dict PendingAction

abbrev pub set : String → PendingAction → Store → Store
set = insert

abbrev pub delete : String → Store → Store
delete = remove

-- `action.expires_at` is there and past.
unfoldable pub is_past : ℕ → Option ℕ → Bool
is_past now none = false
is_past now (some expires_at) = ltb expires_at now

unfoldable pub get_found : ℕ → String → Store → Option PendingAction → Option PendingAction × Store
unfolding is_past
get_found now session_id store none = (none, store)
get_found now session_id store (some action) =
    if is_past now action.expires_at then (none, delete session_id store) else (some action, store)

unfoldable pub get : ℕ → String → Store → Option PendingAction × Store
unfolding get_found
get now session_id store = get_found now session_id store (lookup session_id store)

abbrev pub clear : Store → Store
clear store = []
