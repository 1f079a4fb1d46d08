-- ===== src/Routing/Sessions/History.antt =====
-- app/services/router_orchestrator.py: the calls on an orchestrator in the order in which they run,
-- from an empty store, with a log of the answers.
use mathlib.Core.List.{Memᴰ}
use ctrlf_ai.Prelude.{
  ℕ, String, Bool, true, ◌=ˢ◌, Option, none, some, List, [], ◌∷◌, ◌≡◌, sym, ◌∙◌, ap, subst, inl,
  inr, Bool-cases, eq_iff,
}
use ctrlf_ai.Prelude.Dict.{lookup}
use ctrlf_ai.Text.{Text, strip, lower}
use ctrlf_ai.Routing.Types.{RouterResult}
use ctrlf_ai.Routing.Pending.{PendingAction, confirm, OrchestrationResult, Store, get}
use ctrlf_ai.Routing.Fresh.{Settings, Turn}
use ctrlf_ai.Routing.Orchestrator.{
  is_one_of, yes_words, confirmed_action, handle_confirmation, route, clear_pending,
}
use ctrlf_ai.Routing.Sessions.{IsStored, is_some, remove_self, remove_other}
use ctrlf_ai.Routing.Sessions.Answers.{
  IsIdle, IsRead, get-IsRead, handle_confirmation-IsStored, IsDone, route-IsDone,
}
use ctrlf_ai.Routing.Sessions.Confirmed.{executes_critical, route-WasConfirmed}

pub data Call : Type 0 where
  query : Turn → Text → String → String → Call
  confirmation : ℕ → String → Bool → Call
  clearing : String → Call

abbrev pub Log : Type 0
Log = List (String × OrchestrationResult)

abbrev pub noted : String → Option OrchestrationResult → Log → Log
noted session none log = log
noted session (some o) log = (session, o) ∷ log

-- The log and the store after a call.
unfoldable pub step : Settings → Call → Log × Store → Log × Store
step settings (query turn text session user_id) (log, s) =
    let (o, s') = route settings turn text session user_id s in (noted session o log, s')
step settings (confirmation now session confirmed) (log, s) =
    let (o, s') = handle_confirmation now session confirmed s in ((session, o) ∷ log, s')
step settings (clearing session) (log, s) = (log, clear_pending session s)

unfoldable pub run : Settings → List Call → Log × Store → Log × Store
unfolding step
run settings [] x = x
run settings (c ∷ cs) x = run settings cs (step settings c x)

-- The user of the session was shown the pending action: an answer in the log waits for it.
pub record WasShown (log : Log) (session : String) (p : PendingAction) : Type 0 where
  pub shown : OrchestrationResult
  pub logged : Memᴰ (session, shown) log
  pub waits : shown.needs_user_response ≡ true
  pub about : shown.pending_action ≡ some p

-- Every pending action was shown.
unfoldable pub IsLogged : Log × Store → Type 0
IsLogged (log, s) = (k : String) (p : PendingAction) → lookup k s ≡ some p → WasShown log k p

WasShown-later :
    (log : Log) (k : String) (p : PendingAction) (x : String × OrchestrationResult)
    → WasShown log k p
    → WasShown (x ∷ log) k p
WasShown-later log k p x h = record {
  shown = h.shown;
  logged = Memᴰ.tail h.logged;
  waits = h.waits;
  about = h.about;
}

-- After an answer to the session, which is logged.
IsLogged-answered :
    (session : String) (log : Log) (s s' : Store) (o : OrchestrationResult)
    → IsLogged (log, s)
    → IsStored session s (o, s')
    → IsLogged ((session, o) ∷ log, s')
unfolding IsLogged
IsLogged-answered session log s s' o h stored k p found = elim (Bool-cases (session =ˢ k)) [
  | inl same ↦
      let here : session ≡ k = (eq_iff session k).0 same in
      let about : o.pending_action ≡ some p = sym stored.own ∙ ap (λ j. lookup j s') here ∙ found in
      record {
        shown = o;
        logged = Memᴰ.head (ap (λ j. (j, o)) (sym here));
        waits = stored.waits ∙ ap is_some about;
        about = about;
      }
  | inr ne ↦ WasShown-later log k p (session, o) (h k p (sym (stored.others k ne) ∙ found))
]

-- After a call that leaves nothing pending for the session and no log.
IsLogged-idle :
    (session : String) (log : Log) (s s' : Store)
    → IsLogged (log, s)
    → IsIdle session s s'
    → IsLogged (log, s')
unfolding IsLogged
IsLogged-idle session log s s' h idle k p found = elim (Bool-cases (session =ˢ k)) [
  | inl same ↦
      let here : session ≡ k = (eq_iff session k).0 same in
      let nothing : none ≡ some p = sym idle.own ∙ ap (λ j. lookup j s') here ∙ found in cc
  | inr ne ↦ h k p (sym (idle.others k ne) ∙ found)
]

IsLogged-done :
    (session : String) (log : Log) (s : Store) (out : Option OrchestrationResult × Store)
    → IsLogged (log, s)
    → IsDone session s out
    → IsLogged (noted session out.0 log, out.1)
unfolding IsDone
IsLogged-done session log s (none, s') h idle = IsLogged-idle session log s s' h idle
IsLogged-done session log s (some o, s') h stored = IsLogged-answered session log s s' o h stored

step-IsLogged :
    (settings : Settings) (c : Call) (x : Log × Store) → IsLogged x → IsLogged (step settings c x)
unfolding step
step-IsLogged settings (query turn text session user_id) (log, s) h =
    IsLogged-done session log s _ h (route-IsDone settings turn text session user_id s)
step-IsLogged settings (confirmation now session confirmed) (log, s) h =
    IsLogged-answered session log s _ _ h (handle_confirmation-IsStored now session confirmed s)
step-IsLogged settings (clearing session) (log, s) h =
    IsLogged-idle session log s _ h
      (record { own = remove_self session s; others = remove_other session s })

run-IsLogged :
    (settings : Settings) (calls : List Call) (x : Log × Store)
    → IsLogged x
    → IsLogged (run settings calls x)
unfolding run
run-IsLogged settings [] x h = h
run-IsLogged settings (c ∷ cs) x h = run-IsLogged settings cs _ (step-IsLogged settings c x h)

empty-IsLogged : IsLogged ([], [])
unfolding IsLogged lookup
empty-IsLogged k p h = cc

read-stored :
    (now : ℕ) (session : String) (s : Store) (p : PendingAction)
    → get now session s ≡ (some p, s)
    → lookup session s ≡ some p
unfolding IsRead
read-stored now session s p e = (subst (IsRead session s) e (get-IsRead now session s)).1

-- The confirmation that preceded an executed critical action.
pub record WasPutToUser (log : Log) (session : String) (r : RouterResult) : Type 0 where
  pub pending : PendingAction
  pub shown : WasShown log session pending
  pub by_confirm : pending.action_type ≡ confirm
  pub action : r ≡ confirmed_action pending

-- After any calls of any sessions on an orchestrator that starts empty, and whatever the model
-- answers, a query that executes a critical action executes one that an earlier answer to the same
-- session put to the user for confirmation, and the query is a yes.
pub run-WasPutToUser :
    (settings : Settings) (calls : List Call) (turn : Turn) (text : Text) (session user_id : String)
    (o : OrchestrationResult)
    → (route settings turn text session user_id (run settings calls ([], [])).1).0 ≡ some o
    → executes_critical o ≡ true
    → (is_one_of (strip (lower text)) yes_words ≡ true)
      × WasPutToUser (run settings calls ([], [])).0 session o.router_result
unfolding IsLogged
run-WasPutToUser settings calls turn text session user_id o e c =
    let s = (run settings calls ([], [])).1 in
    let was = route-WasConfirmed settings turn text session user_id s o e c in
    (
      was.by_yes,
      record {
        pending = was.pending;
        shown =
            run-IsLogged settings calls ([], []) empty-IsLogged session was.pending
              (read-stored turn.read_at session s was.pending was.asked);
        by_confirm = was.by_confirm;
        action = was.action;
      },
    )
