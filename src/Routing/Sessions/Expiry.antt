-- ===== src/Routing/Sessions/Expiry.antt =====
-- app/services/router_orchestrator.py: what is past its time. A read drops it when it finds it; until
-- then it stands in the store.
use ctrlf_ai.Prelude.{
  ℕ, ◌≤◌, String, false, Option, none, some, List, [], ◌∷◌, ◌≡◌, refl, sym, ◌∙◌, ap, ltb, inl, inr,
  Bool-cases, All, arith, eq_iff, if◌then◌else◌, ◌=ˢ◌,
}
use ctrlf_ai.Prelude.Dict.{lookup, lookup-remove}
use ctrlf_ai.Routing.Pending.{
  PendingAction, OrchestrationResult, Store, delete, get, get_found, is_past,
}
use ctrlf_ai.Routing.Fresh.{Settings}
use ctrlf_ai.Routing.Sessions.{remove_self, remove_other}
use ctrlf_ai.Routing.Sessions.Answers.{
  handle_confirmation-IsStored, IsDone, route-IsDone, route-others,
}
use ctrlf_ai.Routing.Sessions.SameAnswer.{handle_confirmation-answer, route-answer}
use ctrlf_ai.Routing.Sessions.History.{Call, query, confirmation, clearing, Log, step, run}

-- What of a session's action still counts at a time: all of it, unless its time has ended before.
unfoldable pub live : ℕ → Option PendingAction → Option PendingAction
live now none = none
live now (some p) = elim p.expires_at [
  | none ↦ some p
  | some end ↦ if ltb end now then none else some p
]

get-live : (now : ℕ) (k : String) (s : Store) → (get now k s).0 ≡ live now (lookup k s)
unfolding get get_found is_past live
get-live now k s = ground arith

live-later :
    (t u : ℕ) (o o' : Option PendingAction) → t ≤ u → live t o ≡ live t o' → live u o ≡ live u o'
unfolding live
live-later t u o o' late h = ground arith

-- What still counts at the time is the same in both stores: they differ at most in what is past it.
unfoldable pub AreAlike : ℕ → Store → Store → Type 0
AreAlike t s s' = (k : String) → live t (lookup k s) ≡ live t (lookup k s')

-- All that the call reads from the clock to look for pending actions is from that time on.
unfoldable pub IsFrom : ℕ → Call → Type 0
IsFrom t (query turn text session user_id) = (t ≤ turn.read_at) × (t ≤ turn.confirmed_at)
IsFrom t (confirmation now session confirmed) = t ≤ now
IsFrom t (clearing session) = Unit

-- Later reads find the same in both.
get-AreAlike :
    (t now : ℕ) (s s' : Store)
    → t ≤ now
    → AreAlike t s s'
    → (k : String) → (get now k s).0 ≡ (get now k s').0
unfolding AreAlike
get-AreAlike t now s s' late h k =
    get-live now k s
    ∙ live-later t now (lookup k s) (lookup k s') late (h k)
    ∙ sym (get-live now k s')

AreAlike-idle :
    (t : ℕ) (session : String) (s s' r r' : Store)
    → AreAlike t s s'
    → lookup session r ≡ lookup session r'
    → ((k : String) → (session =ˢ k) ≡ false → lookup k r ≡ lookup k s)
    → ((k : String) → (session =ˢ k) ≡ false → lookup k r' ≡ lookup k s')
    → AreAlike t r r'
unfolding AreAlike
AreAlike-idle t session s s' r r' h own others others' k = elim (Bool-cases (session =ˢ k)) [
  | inl e ↦ let here : session ≡ k = (eq_iff session k).0 e in rw (← here) (ap (live t) own)
  | inr ne ↦ ap (live t) (others k ne) ∙ h k ∙ sym (ap (live t) (others' k ne))
]

-- What the session has stored after an answer, or after an exception
pending_of : Option OrchestrationResult → Option PendingAction
pending_of none = none
pending_of (some o) = o.pending_action

IsDone-pending :
    (session : String) (s : Store) (out : Option OrchestrationResult × Store)
    → IsDone session s out
    → lookup session out.1 ≡ pending_of out.0
unfolding IsDone pending_of
IsDone-pending session s (none, s') h = h.own
IsDone-pending session s (some o, s') h = h.own

-- The two logs and stores after a call
AreAlikeAfter : ℕ → Log × Store → Log × Store → Type 0
AreAlikeAfter t x x' = (x.0 ≡ x'.0) × AreAlike t x.1 x'.1

step-AreAlike :
    (settings : Settings) (t : ℕ) (c : Call) (x x' : Log × Store)
    → IsFrom t c
    → AreAlikeAfter t x x'
    → AreAlikeAfter t (step settings c x) (step settings c x')
unfolding step IsFrom AreAlikeAfter
step-AreAlike settings t (query turn text session user_id) (log, s) (log', s') (read, confirmed)
      (same, h) =
    let e =
      route-answer settings turn text session user_id s s'
        (get-AreAlike t turn.confirmed_at s s' confirmed h session)
        (get-AreAlike t turn.read_at s s' read h session) in
    (
      rw (e, same) refl,
      AreAlike-idle t session s s' _ _ h
          (IsDone-pending session s _ (route-IsDone settings turn text session user_id s)
            ∙ ap pending_of e
            ∙ sym
                (IsDone-pending session s' _ (route-IsDone settings turn text session user_id s')))
          (route-others settings turn text session user_id s)
          (route-others settings turn text session user_id s'),
    )
step-AreAlike settings t (confirmation now session confirmed) (log, s) (log', s') late (same, h) =
    let e =
      handle_confirmation-answer now session confirmed s s'
        (get-AreAlike t now s s' late h session) in
    let stored = handle_confirmation-IsStored now session confirmed s in
    let stored' = handle_confirmation-IsStored now session confirmed s' in
    (
      rw (e, same) refl,
      AreAlike-idle t session s s' _ _ h
          (stored.own ∙ ap (λ o. o.pending_action) e ∙ sym stored'.own) stored.others
          stored'.others,
    )
step-AreAlike settings t (clearing session) (log, s) (log', s') _ (same, h) = (
  same,
  AreAlike-idle t session s s' _ _ h (remove_self session s ∙ sym (remove_self session s'))
      (remove_other session s) (remove_other session s'),
)

run-AreAlikeAfter :
    (settings : Settings) (t : ℕ) (cs : List Call) (x x' : Log × Store)
    → All (IsFrom t) cs
    → AreAlikeAfter t x x'
    → AreAlikeAfter t (run settings cs x) (run settings cs x')
unfolding run
run-AreAlikeAfter settings t [] x x' late h = h
run-AreAlikeAfter settings t (c ∷ cs) x x' (now, late) h =
    run-AreAlikeAfter settings t cs _ _ late (step-AreAlike settings t c x x' now h)

-- A session's action that is past its time may as well be gone.
pub delete-AreAlike :
    (t : ℕ) (session : String) (s : Store)
    → live t (lookup session s) ≡ none
    → AreAlike t s (delete session s)
unfolding AreAlike live
delete-AreAlike t session s past k = ground (arith, lookup-remove session k s, eq_iff session k)

-- Whether what is past its time still stands in the store makes no difference to anyone: from two
-- stores in which the same actions still count at a time, the same calls, all from that time on, are
-- given the same answers, and afterwards the same actions still count in both at that time.
pub run-AreAlike :
    (settings : Settings) (t : ℕ) (cs : List Call) (log : Log) (s s' : Store)
    → All (IsFrom t) cs
    → AreAlike t s s'
    → ((run settings cs (log, s)).0 ≡ (run settings cs (log, s')).0)
      × AreAlike t (run settings cs (log, s)).1 (run settings cs (log, s')).1
unfolding AreAlikeAfter
run-AreAlike settings t cs log s s' late h =
    run-AreAlikeAfter settings t cs (log, s) (log, s') late (refl, h)
