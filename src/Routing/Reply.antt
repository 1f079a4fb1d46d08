-- ===== src/Routing/Reply.antt =====
-- app/services/llm_router.py: how the model's reply is read. the call of the model and `json.loads` are
-- parameters (none where they raise), and so is what Python makes of numbers: whether one is zero, how a value prints, and `float`
-- of a value, in hundredths (none where it raises or is negative). A repeated key of an object has
-- been dropped by `json.loads`.
pub mod Documents
use mathlib.Core.List.{reverse}
use ctrlf_ai.Prelude.{
  ℕ, String, Bool, true, false, not, Option, some, none, List, [], ◌∷◌, drop, if◌then◌else◌, leb,
  ◌=ˢ◌,
}
use ctrlf_ai.Text.{Text, codes, strip_left, strip, has_prefix, has_suffix}
use ctrlf_ai.Routing.Types.{
  Tier0Intent, policy_qa, education_qa, backend_status, general_chat, system_help, unknown,
  RouterDomain, policy, edu, hr, quiz, general, RouterRouteType, rag_internal, backend_api,
  llm_only, route_system_help, route_unknown, RouterDebugInfo, RouterResult,
}

-- What `json.loads` returns, with numbers from a type `N`.
mutual
  pub data Json (N : Type 0) : Type 0 where
    null : Json N
    flag : Bool → Json N
    number : N → Json N
    text : String → Json N
    array : Items N → Json N
    object : Members N → Json N

  pub data Items (N : Type 0) : Type 0 where
    end : Items N
    item : Json N → Items N → Items N

  pub data Members (N : Type 0) : Type 0 where
    close : Members N
    member : String → Json N → Members N → Members N

abbrev pub intent_value : Tier0Intent → String
intent_value policy_qa = "POLICY_QA"
intent_value education_qa = "EDUCATION_QA"
intent_value backend_status = "BACKEND_STATUS"
intent_value general_chat = "GENERAL_CHAT"
intent_value system_help = "SYSTEM_HELP"
intent_value unknown = "UNKNOWN"

abbrev pub intents : List Tier0Intent
intents = policy_qa ∷ education_qa ∷ backend_status ∷ general_chat ∷ system_help ∷ unknown ∷ []

abbrev pub domain_value : RouterDomain → String
domain_value policy = "POLICY"
domain_value edu = "EDU"
domain_value hr = "HR"
domain_value quiz = "QUIZ"
domain_value general = "GENERAL"

abbrev pub domains : List RouterDomain
domains = policy ∷ edu ∷ hr ∷ quiz ∷ general ∷ []

abbrev pub route_value : RouterRouteType → String
route_value rag_internal = "RAG_INTERNAL"
route_value backend_api = "BACKEND_API"
route_value llm_only = "LLM_ONLY"
route_value route_system_help = "ROUTE_SYSTEM_HELP"
route_value route_unknown = "ROUTE_UNKNOWN"

abbrev pub route_types : List RouterRouteType
route_types = rag_internal ∷ backend_api ∷ llm_only ∷ route_system_help ∷ route_unknown ∷ []

-- The code block that may be around the reply
unfoldable pub open_fence : Text → Text
unfolding has_prefix strip_left
open_fence s = let s = drop 3 s in strip_left (if has_prefix (codes "json") s then drop 4 s else s)

unfoldable pub close_fence : Text → Text
unfolding has_suffix strip_left
close_fence s = if has_suffix (codes "```") s then reverse (strip_left (drop 3 (reverse s))) else s

unfoldable pub unfenced : Text → Text
unfolding strip has_prefix open_fence close_fence
unfenced response =
    let s = strip response in if has_prefix (codes "```") s then close_fence (open_fence s) else s

-- `enum_class(value)`, or the default
unfoldable pub find_value : {A : Type 0} → (A → String) → A → String → List A → A
find_value value default name [] = default
find_value value default name (a ∷ rest) =
    let later = find_value value default name rest in if value a =ˢ name then a else later

infixl 5 ◌>>=◌
abbrev ◌>>=◌ : {A B : Type 0} → Option A → (A → Option B) → Option B
none >>= k = none
some a >>= k = k a

module _ {N : Type 0} where
  -- The value of a key, where there is one
  unfoldable pub find : String → Members N → Option (Json N)
  find key close = none
  find key (member name value rest) =
      let later = find key rest in if name =ˢ key then some value else later

  -- `data.get(key, default)`
  unfoldable pub get : String → Json N → Members N → Json N
  unfolding find
  get key default members = elim (find key members) [ none ↦ default | some value ↦ value ]

  unfoldable pub safe_enum_convert : {A : Type 0} → (A → String) → List A → A → Json N → A
  unfolding find_value
  safe_enum_convert value all default (text s) = find_value value default s all
  safe_enum_convert value all default null = default
  safe_enum_convert value all default (flag b) = default
  safe_enum_convert value all default (number n) = default
  safe_enum_convert value all default (array js) = default
  safe_enum_convert value all default (object ms) = default

  -- A list of texts, as pydantic accepts it
  unfoldable pub texts : Items N → Option (List String)
  texts end = some []
  texts (item (text s) rest) = elim (texts rest) [ none ↦ none | some ss ↦ some (s ∷ ss) ]
  texts (item null rest) = none
  texts (item (flag b) rest) = none
  texts (item (number n) rest) = none
  texts (item (array js) rest) = none
  texts (item (object ms) rest) = none

  unfoldable pub list_of_texts : Json N → Option (List String)
  unfolding texts
  list_of_texts (array js) = texts js
  list_of_texts _ = none

  unfoldable pub debug_of : Json N → Option RouterDebugInfo
  unfolding get list_of_texts
  debug_of (object ms) = do
    rule_hits ← list_of_texts (get "rule_hits" (array end) ms)
    keywords ← list_of_texts (get "keywords" (array end) ms)
    some (record { rule_hits = rule_hits; keywords = keywords })
  debug_of _ = none

-- Whether a number is not zero, how other values print, and `float`
module _ {N : Type 0} (nonzero : N → Bool) (repr : Json N → String)
    (float : Json N → Option ℕ) where
  -- `bool(value)`
  unfoldable pub truth : Json N → Bool
  truth null = false
  truth (flag b) = b
  truth (number n) = nonzero n
  truth (text s) = not (s =ˢ "")
  truth (array end) = false
  truth (array (item j js)) = true
  truth (object close) = false
  truth (object (member name j ms)) = true

  -- `str(value)`
  unfoldable pub str : Json N → String
  str null = "None"
  str (flag true) = "True"
  str (flag false) = "False"
  str (text s) = s
  str (number n) = repr (number n)
  str (array js) = repr (array js)
  str (object ms) = repr (object ms)

  -- The float that pydantic accepts as the confidence
  unfoldable pub confidence_of : Json N → Option ℕ
  confidence_of j = do c ← float j; if leb c 100 then some c else none

  -- `_dict_to_router_result`: none where it raises, as it does on anything but an object. A
  -- confidence that is missing is 0.0.
  unfoldable pub dict_to_router_result : Json N → Option RouterResult
  unfolding get find safe_enum_convert debug_of confidence_of str truth
  dict_to_router_result (object members) = do
    debug ← debug_of (get "debug" (object close) members)
    confidence ← elim (find "confidence" members) [ none ↦ some 0 | some j ↦ confidence_of j ]
    some (record {
      tier0_intent =
          safe_enum_convert intent_value intents unknown
            (get "tier0_intent" (text "UNKNOWN") members);
      domain =
          safe_enum_convert domain_value domains general (get "domain" (text "GENERAL") members);
      route_type =
          safe_enum_convert route_value route_types route_unknown
            (get "route_type" (text "ROUTE_UNKNOWN") members);
      sub_intent_id = str (get "sub_intent_id" (text "") members);
      confidence = confidence;
      needs_clarify = truth (get "needs_clarify" (flag false) members);
      clarify_question = str (get "clarify_question" (text "") members);
      requires_confirmation = truth (get "requires_confirmation" (flag false) members);
      confirmation_prompt = str (get "confirmation_prompt" (text "") members);
      debug = debug;
    })
  dict_to_router_result _ = none

  -- `_parse_response`
  unfoldable pub parse_response : (Text → Option (Json N)) → Text → Option RouterResult
  unfolding unfenced dict_to_router_result
  parse_response loads response = loads (unfenced response) >>= dict_to_router_result

  -- What `LLMRouter.route` does until it has a result: the model is called and its reply is read.
  unfoldable pub answer :
      (Text → Option (Json N))
      → (Text → RouterResult → Option Text)
      → Text
      → RouterResult
      → Option RouterResult
  unfolding parse_response
  answer loads complete user_query rule_result =
      complete user_query rule_result >>= parse_response loads
