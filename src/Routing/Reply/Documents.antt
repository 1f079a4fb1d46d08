-- ===== src/Routing/Reply/Documents.antt =====
-- The document that the model is told to reply with, and how it is read.
use ctrlf_ai.Prelude.{ℕ, ◌≤◌, String, ◌≡◌, refl, Bool, Option, some, List, [], ◌∷◌, le→leb}
use ctrlf_ai.Text.{Text}
use ctrlf_ai.Routing.Types.{
  Tier0Intent, policy_qa, education_qa, backend_status, general_chat, system_help, unknown,
  RouterDomain, policy, edu, hr, quiz, general, RouterRouteType, rag_internal, backend_api,
  llm_only, route_system_help, route_unknown, RouterDebugInfo, RouterResult,
}
use ctrlf_ai.Routing.Llm
use ctrlf_ai.Routing.Llm.{validate_and_fix}
use ctrlf_ai.Routing.Reply.{
  Json, flag, number, text, array, object, Items, end, item, close, member, intent_value,
  domain_value, route_value, unfenced, find_value, find, get, safe_enum_convert, texts,
  list_of_texts, debug_of, truth, str, confidence_of, dict_to_router_result, parse_response, answer,
  intents, domains, route_types,
}

module _ {N : Type 0} where
  abbrev pub items_of : List String → Items N
  items_of [] = end
  items_of (s ∷ ss) = item (text s) (items_of ss)

  abbrev pub debug_document : RouterDebugInfo → Json N
  debug_document d = object (
      member "rule_hits" (array (items_of d.rule_hits))
        (member "keywords" (array (items_of d.keywords)) close))

  -- The document of a result, its members in the order of the schema
  unfoldable pub document : (ℕ → N) → RouterResult → Json N
  document hundredths r = object (
      member "tier0_intent" (text (intent_value r.tier0_intent)) (
        member "domain" (text (domain_value r.domain)) (
          member "route_type" (text (route_value r.route_type)) (
            member "sub_intent_id" (text r.sub_intent_id) (
              member "confidence" (number (hundredths r.confidence)) (
                member "needs_clarify" (flag r.needs_clarify) (
                  member "clarify_question" (text r.clarify_question) (
                    member "requires_confirmation" (flag r.requires_confirmation) (
                      member "confirmation_prompt" (text r.confirmation_prompt)
                        (member "debug" (debug_document r.debug) close))))))))))

module _ (N : Type 0) where
  texts-items_of : (ss : List String) → texts (items_of {N = N} ss) ≡ some ss
  unfolding texts
  texts-items_of [] = refl
  texts-items_of (s ∷ ss) = rw (texts-items_of ss) refl

  debug_of-debug_document : (d : RouterDebugInfo) → debug_of (debug_document {N = N} d) ≡ some d
  unfolding debug_of get find list_of_texts
  debug_of-debug_document d = rw (texts-items_of d.rule_hits, texts-items_of d.keywords) refl

  intent_lem :
      (i : Tier0Intent)
      → safe_enum_convert {N = N} intent_value intents unknown (text (intent_value i)) ≡ i
  unfolding safe_enum_convert find_value
  intent_lem policy_qa = refl
  intent_lem education_qa = refl
  intent_lem backend_status = refl
  intent_lem general_chat = refl
  intent_lem system_help = refl
  intent_lem unknown = refl

  domain_lem :
      (d : RouterDomain)
      → safe_enum_convert {N = N} domain_value domains general (text (domain_value d)) ≡ d
  unfolding safe_enum_convert find_value
  domain_lem policy = refl
  domain_lem edu = refl
  domain_lem hr = refl
  domain_lem quiz = refl
  domain_lem general = refl

  route_lem :
      (t : RouterRouteType)
      → safe_enum_convert {N = N} route_value route_types route_unknown (text (route_value t)) ≡ t
  unfolding safe_enum_convert find_value
  route_lem rag_internal = refl
  route_lem backend_api = refl
  route_lem llm_only = refl
  route_lem route_system_help = refl
  route_lem route_unknown = refl

module _ {N : Type 0} (nonzero : N → Bool) (repr : Json N → String) (float : Json N → Option ℕ)
    (hundredths : ℕ → N) where
  document_lem :
      (r : RouterResult)
      → float (number (hundredths r.confidence)) ≡ some r.confidence
      → r.confidence ≤ 100
      → dict_to_router_result nonzero repr float (document hundredths r) ≡ some r
  unfolding document dict_to_router_result get find str truth confidence_of
  document_lem r exact small =
      rw
        (
          debug_of-debug_document N r.debug,
          exact,
          le→leb r.confidence 100 small,
          intent_lem N r.tier0_intent,
          domain_lem N r.domain,
          route_lem N r.route_type,
        )
        refl

  parse_response-document :
      (loads : Text → Option (Json N)) (response : Text) (r : RouterResult)
      → loads (unfenced response) ≡ some (document hundredths r)
      → float (number (hundredths r.confidence)) ≡ some r.confidence
      → r.confidence ≤ 100
      → parse_response nonzero repr float loads response ≡ some r
  unfolding parse_response
  parse_response-document loads response r loaded exact small =
      rw loaded (document_lem r exact small)

  -- Where the model replies, and `json.loads` reads what is left of the reply, once its code block is
  -- taken off, as the document of a result, with a confidence of at most 1.0 that `float` reads
  -- exactly, the router's result is that result as `_validate_and_fix` corrects it.
  pub route-document :
      (loads : Text → Option (Json N)) (complete : Text → RouterResult → Option Text)
      (user_query response : Text) (rule_result r : RouterResult)
      → complete user_query rule_result ≡ some response
      → loads (unfenced response) ≡ some (document hundredths r)
      → float (number (hundredths r.confidence)) ≡ some r.confidence
      → r.confidence ≤ 100
      → Llm.route (answer nonzero repr float loads complete) user_query rule_result
        ≡ validate_and_fix r
  unfolding Llm.route answer
  route-document loads complete user_query response rule_result r replied loaded exact small =
      let h : answer nonzero repr float loads complete user_query rule_result ≡ some r =
        rw (answer, replied) (parse_response-document loads response r loaded exact small) in
      rw (Llm.route, h) refl
