-- ===== src/Routing/Sessions/Valid.antt =====
-- app/services/router_orchestrator.py: what is pending always has the routing result that it asks
-- about, so that no answer to it raises an exception.
use Prim.{Unit, tt}
use ctrlf_ai.Prelude.{
  ℕ, ltb, length, String, Bool, true, false, ◌=ˢ◌, Option, none, some, [], ◌≡◌, refl, sym, subst,
  inl, inr, Bool-cases, eq_iff, if◌then◌else◌,
}
use ctrlf_ai.Prelude.Dict.{lookup}
use ctrlf_ai.Text.{Text, strip, lower}
use ctrlf_ai.Routing.Types.{RouterResult}
use ctrlf_ai.Routing.Pending.{
  delete, clarify_keyword_mapping, ClarifyGroup, PendingAction, PendingActionType, clarify, confirm,
  AnsweredRoute, backend_status, rag_internal, backend_api, OrchestrationResult, Store, get,
}
use ctrlf_ai.Routing.Fresh.{
  Settings, Turn, execute, create_clarify_result, create_confirmation_result, finish, route_new,
}
use ctrlf_ai.Routing.Orchestrator.{
  matched_route, handle_found, handle_confirmation, handle_confirm, ask_again, answered, resolved,
  resolve_clarify_answer, handle_clarify, handle_pending_response, route_found, route,
}
use ctrlf_ai.Routing.Sessions.Answers.{
  IsRead, get-IsRead, handle_confirmation-IsStored, route-stored, route-others,
}

-- A pending action that has its routing result, which a confirmation waits for.
pub record IsAsked (p : PendingAction) : Type 0 where
  pub result : RouterResult
  pub about : p.router_result ≡ some result

unfoldable pub AreAsked : Option PendingAction → Type 0
AreAsked none = Unit
AreAsked (some p) = IsAsked p

-- Every session's pending action has its routing result.
unfoldable pub IsValid : Store → Type 0
IsValid s = (k : String) → AreAsked (lookup k s)

pub empty-IsValid : IsValid []
unfolding IsValid AreAsked lookup
empty-IsValid k = tt

Asks : OrchestrationResult × Store → Type 0
Asks out = AreAsked out.0.pending_action

if-Asks :
    (b : Bool) (x y : OrchestrationResult × Store) → Asks x → Asks y → Asks (if b then x else y)
if-Asks true x y hx hy = hx
if-Asks false x y hx hy = hy

module _ (turn : Turn) (session : String) (s : Store) where
  create_clarify_result-Asks :
      (settings : Settings) (r : RouterResult) (user_id : String) (query : Text)
      → Asks (create_clarify_result settings turn r session user_id query s)
  unfolding create_clarify_result Asks AreAsked
  create_clarify_result-Asks settings r user_id query = record { result = r; about = refl }

  finish-Asks : (r : RouterResult) → Asks (finish turn r session s)
  unfolding finish create_confirmation_result Asks AreAsked
  finish-Asks r =
      elim r.requires_confirmation
        as (λ b. Asks (if b then create_confirmation_result turn r session s else (execute r, s))) [
          | true ↦ record { result = r; about = refl }
          | false ↦ tt
        ]

  route_new-Asks :
      (settings : Settings) (query : Text) (user_id : String)
      → Asks (route_new settings turn query session user_id s)
  unfolding route_new
  route_new-Asks settings query user_id =
      search (if-Asks, create_clarify_result-Asks, finish-Asks) depth 8

-- The call ends with an answer, which asks only with a routing result.
Answers : Option OrchestrationResult × Store → Type 0
Answers (none, s) = ⊥
Answers (some o, s) = AreAsked o.pending_action

if-Answers :
    (b : Bool) (x y : Option OrchestrationResult × Store)
    → Answers x
    → Answers y
    → Answers (if b then x else y)
if-Answers true x y hx hy = hx
if-Answers false x y hx hy = hy

-- A keyword's result is there where the pending action has a routing result.
IsFound : Option (Option RouterResult) → Type 0
IsFound none = Unit
IsFound (some none) = ⊥
IsFound (some (some r)) = Unit

answered-IsFound :
    (a : AnsweredRoute) (p : PendingAction) (r : RouterResult)
    → IsFound (some (answered a p (some r)))
unfolding answered IsFound
answered-IsFound backend_status p r = tt
answered-IsFound rag_internal p r = tt
answered-IsFound backend_api p r = tt

resolve_clarify_answer-IsFound :
    (text : Text) (g : ClarifyGroup) (p : PendingAction)
    → IsAsked p
    → IsFound (resolve_clarify_answer text g p)
unfolding resolve_clarify_answer IsFound
resolve_clarify_answer-IsFound text g p h =
    elim (matched_route (strip (lower text)) (clarify_keyword_mapping g))
      as (λ m. IsFound (elim m [ none ↦ none | some a ↦ some (answered a p p.router_result) ])) [
        | none ↦ tt
        | some a ↦
            subst (λ x. IsFound (some (answered a p x))) (sym h.about)
              (answered-IsFound a p h.result)
      ]

handle_found-Asks :
    (session : String) (confirmed : Bool) (found : Option PendingAction × Store)
    → Asks (handle_found session confirmed found)
unfolding handle_found Asks AreAsked
handle_found-Asks session confirmed (none, s') = tt
handle_found-Asks session true (some p, s') = tt
handle_found-Asks session false (some p, s') = tt

handle_confirmation-Asks :
    (now : ℕ) (session : String) (confirmed : Bool) (s : Store)
    → Asks (handle_confirmation now session confirmed s)
unfolding handle_confirmation
handle_confirmation-Asks now session confirmed s =
    handle_found-Asks session confirmed (get now session s)

module _ (turn : Turn) (query : Text) (session : String) (s : Store) where
  resolved-Answers :
      (settings : Settings) (p : PendingAction) (s' : Store) (r : Option (Option RouterResult))
      → IsFound r
      → Answers (resolved settings turn query session p s' r)
  unfolding resolved Answers IsFound AreAsked Asks
  resolved-Answers settings p s' none h = route_new-Asks turn session s' settings _ p.user_id
  resolved-Answers settings p s' (some none) h = elim h [ ]
  resolved-Answers settings p s' (some (some r)) h = tt

  handle_clarify-Answers :
      (settings : Settings) (p : PendingAction)
      → IsAsked p
      → Answers (handle_clarify settings turn query session p s)
  unfolding handle_clarify Answers Asks
  handle_clarify-Answers settings p h =
      let s' = delete session s in
      let (o, s'') = route_new settings turn query session p.user_id s' in
      let r = resolve_clarify_answer query p.clarify_group p in
      if-Answers (ltb 20 (length (strip query))) (some o, s'')
        (resolved settings turn query session p s' r)
        (route_new-Asks turn session s' settings query p.user_id)
        (resolved-Answers settings p s' r
          (resolve_clarify_answer-IsFound query p.clarify_group p h))

  ask_again-Asks : (p : PendingAction) → IsAsked p → Asks (ask_again p, s)
  unfolding ask_again Asks AreAsked
  ask_again-Asks p h = h

  handle_confirm-Asks :
      (p : PendingAction) → IsAsked p → Asks (handle_confirm turn query session p s)
  unfolding handle_confirm
  handle_confirm-Asks p h = search (if-Asks, handle_confirmation-Asks, ask_again-Asks)

  handle_pending_response-Answers :
      (settings : Settings) (p : PendingAction) (t : PendingActionType)
      → IsAsked p
      → Answers (handle_pending_response settings turn query session p t s)
  unfolding handle_pending_response Answers Asks
  handle_pending_response-Answers settings p clarify h = handle_clarify-Answers settings p h
  handle_pending_response-Answers settings p confirm h = handle_confirm-Asks p h

  route_found-Answers :
      (settings : Settings) (user_id : String) (found : Option PendingAction × Store)
      → IsRead session s found
      → AreAsked (lookup session s)
      → Answers (route_found settings turn query session user_id found)
  unfolding route_found Answers IsRead Asks AreAsked
  route_found-Answers settings user_id (none, s') h valid =
      route_new-Asks turn session s' settings query user_id
  route_found-Answers settings user_id (some p, s') (e, h) valid =
      let asked : IsAsked p = subst AreAsked h valid in
      rw e (handle_pending_response-Answers settings p p.action_type asked)

  route-Answers :
      (settings : Settings) (user_id : String)
      → IsValid s
      → Answers (route settings turn query session user_id s)
  unfolding route IsValid
  route-Answers settings user_id valid =
      route_found-Answers settings user_id (get turn.read_at session s)
        (get-IsRead turn.read_at session s) (valid session)

Answers-some :
    (out : Option OrchestrationResult × Store)
    → Answers out
    → (o : OrchestrationResult) × (out.0 ≡ some o) × AreAsked o.pending_action
unfolding Answers
Answers-some (none, s) h = elim h [ ]
Answers-some (some o, s) h = (o, refl, h)

-- Where every pending action has its routing result, a query is answered, whatever it is and
-- whatever the model answers: no exception is raised.
pub route_total :
    (settings : Settings) (turn : Turn) (query : Text) (session user_id : String) (s : Store)
    → IsValid s
    → (o : OrchestrationResult) × ((route settings turn query session user_id s).0 ≡ some o)
route_total settings turn query session user_id s valid =
    let (o, e, asked) =
      Answers-some _ (route-Answers turn query session s settings user_id valid) in
    (o, e)

-- A store that differs in the session, where what is pending is asked, is as valid.
IsValid-step :
    (session : String) (s s' : Store)
    → IsValid s
    → AreAsked (lookup session s')
    → ((k : String) → (session =ˢ k) ≡ false → lookup k s' ≡ lookup k s)
    → IsValid s'
unfolding IsValid
IsValid-step session s s' valid own others k = elim (Bool-cases (session =ˢ k)) [
  | inl same ↦ subst (λ j. AreAsked (lookup j s')) ((eq_iff session k).0 same) own
  | inr ne ↦ subst AreAsked (sym (others k ne)) (valid k)
]

-- After a query, every session's pending action has its routing result if that was so before.
pub route-IsValid :
    (settings : Settings) (turn : Turn) (query : Text) (session user_id : String) (s : Store)
    → IsValid s
    → IsValid (route settings turn query session user_id s).1
route-IsValid settings turn query session user_id s valid =
    let (o, e, asked) =
      Answers-some _ (route-Answers turn query session s settings user_id valid) in
    let (own, waits, exclusive) = route-stored settings turn query session user_id s o e in
    IsValid-step session s _ valid (subst AreAsked (sym own) asked)
      (route-others settings turn query session user_id s)

pub handle_confirmation-IsValid :
    (now : ℕ) (session : String) (confirmed : Bool) (s : Store)
    → IsValid s
    → IsValid (handle_confirmation now session confirmed s).1
unfolding Asks
handle_confirmation-IsValid now session confirmed s valid =
    let h = handle_confirmation-IsStored now session confirmed s in
    IsValid-step session s _ valid
      (subst AreAsked (sym h.own) (handle_confirmation-Asks now session confirmed s)) h.others
