-- ===== src/Routing/Sessions/Unresolved.antt =====
-- app/services/router_orchestrator.py: a short answer to a question of the rules.
use ctrlf_ai.Prelude.{
  String, true, none, some, ◌∷◌, ◌++◌, ◌≡◌, ◌≤◌, refl, sym, ◌∙◌, ap, le→ltb, length,
}
use ctrlf_ai.Text.{Text, strip}
use ctrlf_ai.Routing.Types.{
  Tier0Intent, policy_qa, education_qa, backend_status, general_chat, system_help, unknown,
}
use ctrlf_ai.Routing.Pending.{ClarifyGroup, clarify_keyword_mapping, PendingAction, Store, delete}
use ctrlf_ai.Routing.Rule
use ctrlf_ai.Routing.Rule.Intents.{is_unknown, route-IsRouted}
use ctrlf_ai.Routing.Fresh.{Settings, Turn, determine_clarify_group, question_pending, route_new}
use ctrlf_ai.Routing.Orchestrator.{resolve_clarify_answer, matched_route, resolved, handle_clarify}

group_of_unknown :
    (i : Tier0Intent) → is_unknown i ≡ true → determine_clarify_group i ≡ ClarifyGroup.unknown
unfolding is_unknown determine_clarify_group
group_of_unknown policy_qa h = cc
group_of_unknown education_qa h = cc
group_of_unknown backend_status h = cc
group_of_unknown general_chat h = cc
group_of_unknown system_help h = cc
group_of_unknown unknown h = refl

resolve_unknown :
    (answer : Text) (g : ClarifyGroup) (p : PendingAction)
    → g ≡ ClarifyGroup.unknown
    → resolve_clarify_answer answer g p ≡ none
unfolding resolve_clarify_answer matched_route clarify_keyword_mapping
resolve_unknown answer g p e = rw e refl

handle_unknown :
    (settings : Settings) (turn : Turn) (answer : Text) (session : String) (p : PendingAction)
    (s : Store)
    → length (strip answer) ≤ 20
    → p.clarify_group ≡ ClarifyGroup.unknown
    → handle_clarify settings turn answer session p s
      ≡ resolved settings turn answer session p (delete session s) none
unfolding handle_clarify
handle_unknown settings turn answer session p s short e =
    rw (le→ltb 20 (length (strip answer)) short) (
      ap (resolved settings turn answer session p (delete session s))
        (resolve_unknown answer p.clarify_group p e))

-- Where the rules ask back, an answer of at most 20 characters is never resolved by its keywords:
-- whatever it says, the first query and the answer together are routed as a new query.
pub rule_question_rerouted :
    (settings : Settings) (turn later : Turn) (query answer : Text) (session user_id : String)
    (s : Store)
    → (Rule.route settings.summary_enabled turn.choose query).needs_clarify ≡ true
    → length (strip answer) ≤ 20
    → handle_clarify settings later answer session
        (question_pending settings turn
          (Rule.route settings.summary_enabled turn.choose query)
          user_id
          query)
        s
      ≡ (
        some
            (route_new settings later
              (strip (query ++ 32 ∷ answer))
              session
              user_id
              (delete session s)).0,
        (route_new settings later
            (strip (query ++ 32 ∷ answer))
            session
            user_id
            (delete session s)).1,
      )
unfolding resolved
rule_question_rerouted settings turn later query answer session user_id s asks short =
    let r = Rule.route settings.summary_enabled turn.choose query in
    handle_unknown settings later answer session (question_pending settings turn r user_id query) s
      short
      (group_of_unknown r.tier0_intent
        (sym (route-IsRouted settings.summary_enabled turn.choose query).question ∙ asks))
