-- ===== src/Routing/Sessions/Confirmed.antt =====
-- app/services/router_orchestrator.py: a critical action is executed on a yes only.
use Prim.{Unit, tt}
use ctrlf_ai.Prelude.{
  ◌∙◌, ap, subst, Bool-cases, ltb, length, String, Bool, true, false, ◌&&◌, Option, none, some, ◌≡◌,
  refl, ◌⊎◌, inl, inr, arith, List, if◌then◌else◌,
}
use ctrlf_ai.Prelude.Dict.{lookup}
use ctrlf_ai.Text.{Text, strip, lower}
use ctrlf_ai.Routing.Types.{RouterResult, is_critical}
use ctrlf_ai.Routing.Pending.{
  delete, clarify_keyword_mapping, ClarifyGroup, PendingAction, PendingActionType, clarify, confirm,
  AnsweredRoute, backend_status, rag_internal, backend_api, OrchestrationResult, Store, get,
}
use ctrlf_ai.Routing.Rule
use ctrlf_ai.Routing.Rule.Intents.{route-IsRouted}
use ctrlf_ai.Routing.Llm
use ctrlf_ai.Routing.Llm.Gate.{route-IsSafe}
use ctrlf_ai.Routing.Fresh.{
  Settings, Turn, create_clarify_result, create_confirmation_result, finish, route_new,
}
use ctrlf_ai.Routing.Orchestrator.{
  confirmed_action, matched_route, no_words, is_one_of, yes_words, handle_found,
  handle_confirmation, handle_confirm, ask_again, answered, resolved, resolve_clarify_answer,
  handle_clarify, handle_pending_response, route_found, route,
}
use ctrlf_ai.Routing.Sessions.Answers.{IsRead, get-IsRead}

-- No critical action is executed.
abbrev pub executes_critical : OrchestrationResult → Bool
executes_critical o = o.can_execute && is_critical o.router_result.sub_intent_id

unfoldable pub Harmless : OrchestrationResult × Store → Type 0
Harmless out = executes_critical out.0 ≡ false

if-Harmless :
    (b : Bool) (x y : OrchestrationResult × Store)
    → Harmless x
    → Harmless y
    → Harmless (if b then x else y)
if-Harmless true x y hx hy = hx
if-Harmless false x y hx hy = hy

-- A result that asks for a confirmation where its sub-intent is critical.
abbrev pub Gated : RouterResult → Type 0
Gated r = (is_critical r.sub_intent_id && r.requires_confirmation) ≡ is_critical r.sub_intent_id

finish-Harmless :
    (turn : Turn) (r : RouterResult) (session : String) (s : Store)
    → Gated r
    → Harmless (finish turn r session s)
unfolding finish create_confirmation_result Harmless
finish-Harmless turn r session s h = ground arith

create_clarify_result-Harmless :
    (settings : Settings) (turn : Turn) (r : RouterResult) (session user_id : String) (query : Text)
    (s : Store)
    → Harmless (create_clarify_result settings turn r session user_id query s)
unfolding create_clarify_result Harmless
create_clarify_result-Harmless settings turn r session user_id query s = refl

rule-Gated :
    (summary : Bool) (choose : List String → String) (query : Text)
    → Gated (Rule.route summary choose query)
rule-Gated summary choose query = ground (arith, (route-IsRouted summary choose query).gate)

llm-Gated :
    (read : Text → RouterResult → Option RouterResult) (query : Text) (rule : RouterResult)
    → Gated (Llm.route read query rule)
llm-Gated read query rule = (route-IsSafe read query rule).gate

route_new-Harmless :
    (settings : Settings) (turn : Turn) (query : Text) (session user_id : String) (s : Store)
    → Harmless (route_new settings turn query session user_id s)
unfolding route_new
route_new-Harmless settings turn query session user_id s =
    search (if-Harmless, create_clarify_result-Harmless, finish-Harmless, rule-Gated, llm-Gated)
      depth 9

-- The result of a keyword, if any, is not critical.
IsCalm : Option RouterResult → Type 0
IsCalm none = Unit
IsCalm (some r) = is_critical r.sub_intent_id ≡ false

answered-IsCalm :
    (a : AnsweredRoute) (p : PendingAction) (found : Option RouterResult)
    → IsCalm (answered a p found)
unfolding answered is_critical IsCalm
answered-IsCalm a p none = tt
answered-IsCalm backend_status p (some r) = refl
answered-IsCalm rag_internal p (some r) = refl
answered-IsCalm backend_api p (some r) = refl

AreCalm : Option (Option RouterResult) → Type 0
AreCalm none = Unit
AreCalm (some r) = IsCalm r

resolve_clarify_answer-AreCalm :
    (text : Text) (g : ClarifyGroup) (p : PendingAction) → AreCalm (resolve_clarify_answer text g p)
unfolding resolve_clarify_answer AreCalm
resolve_clarify_answer-AreCalm text g p =
    elim (matched_route (strip (lower text)) (clarify_keyword_mapping g))
      as (λ m. AreCalm (elim m [ none ↦ none | some a ↦ some (answered a p p.router_result) ])) [
        | none ↦ tt
        | some a ↦ answered-IsCalm a p p.router_result
      ]

-- What the session `session` said yes to: the query is a yes, and the action is the one that the
-- session was to confirm.
pub record WasConfirmed (turn : Turn) (query : Text) (session : String) (s : Store)
    (o : OrchestrationResult) : Type 0 where
  pub pending : PendingAction
  pub asked : get turn.read_at session s ≡ (some pending, s)
  pub by_confirm : pending.action_type ≡ confirm
  pub by_yes : is_one_of (strip (lower query)) yes_words ≡ true
  pub action : o.router_result ≡ confirmed_action pending

-- An answer that executes no critical action, or one that was confirmed.
Guarded : Turn → Text → String → Store → Option OrchestrationResult × Store → Type 0
Guarded turn query session s (none, s') = Unit
Guarded turn query session s (some o, s') =
    (executes_critical o ≡ false) ⊎ WasConfirmed turn query session s o

module _ (turn : Turn) (query : Text) (session : String) (s : Store) where
  if-Guarded :
      (b : Bool) (x y : Option OrchestrationResult × Store)
      → Guarded turn query session s x
      → Guarded turn query session s y
      → Guarded turn query session s (if b then x else y)
  if-Guarded true x y hx hy = hx
  if-Guarded false x y hx hy = hy

  resolved-Guarded :
      (settings : Settings) (p : PendingAction) (s' : Store) (r : Option (Option RouterResult))
      → AreCalm r
      → Guarded turn query session s (resolved settings turn query session p s' r)
  unfolding resolved Guarded AreCalm IsCalm Harmless
  resolved-Guarded settings p s' none h =
      inl (route_new-Harmless settings turn _ session p.user_id s')
  resolved-Guarded settings p s' (some none) h = tt
  resolved-Guarded settings p s' (some (some r)) h = inl h

  handle_clarify-Guarded :
      (settings : Settings) (p : PendingAction)
      → Guarded turn query session s (handle_clarify settings turn query session p s)
  unfolding handle_clarify Guarded Harmless
  handle_clarify-Guarded settings p =
      let s' = delete session s in
      let (o, s'') = route_new settings turn query session p.user_id s' in
      let r = resolve_clarify_answer query p.clarify_group p in
      if-Guarded (ltb 20 (length (strip query))) (some o, s'')
        (resolved settings turn query session p s' r)
        (inl (route_new-Harmless settings turn query session p.user_id s'))
        (resolved-Guarded settings p s' r (resolve_clarify_answer-AreCalm query p.clarify_group p))

  -- A yes to what the session was to confirm.
  yes-Guarded :
      (p : PendingAction) (found : Option PendingAction × Store)
      → get turn.read_at session s ≡ (some p, s)
      → p.action_type ≡ confirm
      → is_one_of (strip (lower query)) yes_words ≡ true
      → lookup session s ≡ some p
      → IsRead session s found
      → (executes_critical (handle_found session true found).0 ≡ false)
        ⊎ WasConfirmed turn query session s (handle_found session true found).0
  unfolding handle_found IsRead
  yes-Guarded p (none, s') asked by_confirm by_yes h i = inl refl
  yes-Guarded p (some p', s') asked by_confirm by_yes h (e, i) =
      let same : p' ≡ p = cc in
      inr (record {
        pending = p;
        asked = asked;
        by_confirm = by_confirm;
        by_yes = by_yes;
        action = ap confirmed_action same;
      })

  no-Harmless :
      (found : Option PendingAction × Store)
      → executes_critical (handle_found session false found).0 ≡ false
  unfolding handle_found
  no-Harmless (none, s') = refl
  no-Harmless (some p, s') = refl

  handle_confirm-Guarded :
      (p : PendingAction)
      → get turn.read_at session s ≡ (some p, s)
      → p.action_type ≡ confirm
      → lookup session s ≡ some p
      → (executes_critical (handle_confirm turn query session p s).0 ≡ false)
        ⊎ WasConfirmed turn query session s (handle_confirm turn query session p s).0
  unfolding handle_confirm handle_confirmation ask_again
  handle_confirm-Guarded p asked by_confirm h =
      elim (Bool-cases (is_one_of (strip (lower query)) yes_words)) [
        | inl by_yes ↦ rw by_yes (
            yes-Guarded p (get turn.confirmed_at session s) asked by_confirm by_yes h
              (get-IsRead turn.confirmed_at session s))
        | inr by_other ↦ rw by_other (elim (Bool-cases (is_one_of (strip (lower query)) no_words)) [
          | inl by_no ↦ rw by_no (inl (no-Harmless (get turn.confirmed_at session s)))
          | inr unclear ↦ rw unclear (inl refl)
        ])
      ]

  handle_pending_response-Guarded :
      (settings : Settings) (p : PendingAction) (t : PendingActionType)
      → get turn.read_at session s ≡ (some p, s)
      → p.action_type ≡ t
      → lookup session s ≡ some p
      → Guarded turn query session s (handle_pending_response settings turn query session p t s)
  unfolding handle_pending_response Guarded
  handle_pending_response-Guarded settings p clarify asked kind h =
      handle_clarify-Guarded settings p
  handle_pending_response-Guarded settings p confirm asked kind h =
      handle_confirm-Guarded p asked kind h

  route_found-Guarded :
      (settings : Settings) (user_id : String) (found : Option PendingAction × Store)
      → get turn.read_at session s ≡ found
      → IsRead session s found
      → Guarded turn query session s (route_found settings turn query session user_id found)
  unfolding route_found Guarded IsRead Harmless
  route_found-Guarded settings user_id (none, s') g h =
      inl (route_new-Harmless settings turn query session user_id s')
  route_found-Guarded settings user_id (some p, s') g (e, h) =
      let asked : get turn.read_at session s ≡ (some p, s) = g ∙ ap (λ x. (some p, x)) e in
      rw e (handle_pending_response-Guarded settings p p.action_type asked refl h)

  route-Guarded :
      (settings : Settings) (user_id : String)
      → Guarded turn query session s (route settings turn query session user_id s)
  unfolding route
  route-Guarded settings user_id =
      route_found-Guarded settings user_id (get turn.read_at session s) refl
        (get-IsRead turn.read_at session s)

right : {A : Type 0} (b : Bool) → (b ≡ false) ⊎ A → b ≡ true → A
right true (inl e) h = cc
right true (inr a) h = a
right false (inl e) h = cc
right false (inr a) h = a

Guarded-inv :
    (turn : Turn) (query : Text) (session : String) (s : Store)
    (out : Option OrchestrationResult × Store) (o : OrchestrationResult)
    → Guarded turn query session s out
    → out.0 ≡ some o
    → (executes_critical o ≡ false) ⊎ WasConfirmed turn query session s o
unfolding Guarded
Guarded-inv turn query session s (none, s') o h e = cc
Guarded-inv turn query session s (some a, s') o h e =
    let same : a ≡ o = cc in
    subst (λ x. (executes_critical x ≡ false) ⊎ WasConfirmed turn query session s x) same h

-- Whatever the model answers, a query by which a critical action is executed is a yes to the
-- confirmation that is stored for its session, and what is executed is the action stored there.
pub route-WasConfirmed :
    (settings : Settings) (turn : Turn) (query : Text) (session user_id : String) (s : Store)
    (o : OrchestrationResult)
    → (route settings turn query session user_id s).0 ≡ some o
    → executes_critical o ≡ true
    → WasConfirmed turn query session s o
route-WasConfirmed settings turn query session user_id s o e c =
    right (executes_critical o)
      (Guarded-inv turn query session s _ o (route-Guarded turn query session s settings user_id) e)
      c
