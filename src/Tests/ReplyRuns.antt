-- ===== src/Tests/ReplyRuns.antt =====
-- A reply of the model in a code block.
use ctrlf_ai.Prelude.{
  ℕ, zero, suc, String, Bool, true, false, ◌≡◌, refl, Option, none, some, [], ◌∷◌, if◌then◌else◌,
  arith,
}
use ctrlf_ai.Text.{Text, codes, strip, strip_left, is_space, has_prefix, has_suffix, equals}
use ctrlf_ai.Routing.Types.{RouterResult, default_result, backend_status, hr, backend_api}
use ctrlf_ai.Routing.Llm
use ctrlf_ai.Routing.Llm.{validate_and_fix}
use ctrlf_ai.Routing.Reply.{
  Json, null, number, object, member, close, unfenced, open_fence, close_fence, answer,
  dict_to_router_result, get, find, safe_enum_convert, find_value, debug_of, list_of_texts, texts,
  confidence_of, str, truth,
}
use ctrlf_ai.Routing.Reply.Documents.{document, route-document}

abbrev nonzero : ℕ → Bool
nonzero zero = false
nonzero (suc n) = true

abbrev repr : Json ℕ → String
repr j = "1"

abbrev float : Json ℕ → Option ℕ
float (number n) = some n
float _ = none

abbrev hundredths : ℕ → ℕ
hundredths n = n

abbrev asked : RouterResult
asked = record default_result {
  tier0_intent = backend_status;
  domain = hr;
  route_type = backend_api;
  sub_intent_id = "HR_LEAVE_CHECK";
  confidence = 90;
  debug = record { rule_hits = []; keywords = "연차" ∷ [] };
}

abbrev reply : Text
reply = codes " ```json\n{…}\n``` "

-- `json.loads` at what the run hands it
abbrev loads : Text → Option (Json ℕ)
loads s = if equals s (codes "{…}") then some (document hundredths asked) else none

unfences : unfenced reply ≡ codes "{…}"
unfolding unfenced strip strip_left is_space has_prefix has_suffix open_fence close_fence
unfences = refl

-- A sub-intent that is null is read as a text.
reads_null :
    dict_to_router_result nonzero repr float (object (member "sub_intent_id" null close))
    ≡ some (record default_result { sub_intent_id = "None" })
unfolding dict_to_router_result get find safe_enum_convert find_value debug_of list_of_texts texts
    confidence_of str truth
reads_null = refl

loaded : loads (unfenced reply) ≡ some (document hundredths asked)
unfolding unfenced strip strip_left is_space has_prefix has_suffix open_fence close_fence equals
loaded = refl

abbrev complete : Text → RouterResult → Option Text
complete user_query rule_result = some reply

route-document_example :
    Llm.route (answer nonzero repr float loads complete) (codes "내 연차") default_result
    ≡ validate_and_fix asked
route-document_example =
    route-document nonzero repr float hundredths loads complete (codes "내 연차") reply default_result
      asked refl loaded refl (omega arith)
