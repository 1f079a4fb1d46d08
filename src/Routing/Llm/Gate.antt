-- ===== src/Routing/Llm/Gate.antt =====
-- app/services/llm_router.py: whatever the model answers, the result is safe to act on.
use ctrlf_ai.Prelude.{◌&&◌, ◌=ˢ◌, not, false, Option, some, none, ◌≡◌, refl, arith}
use ctrlf_ai.Text.{Text}
use ctrlf_ai.Routing.Types.{
  Tier0Intent, policy_qa, education_qa, backend_status, general_chat, system_help, unknown,
  is_critical, RouterResult, get_default_route_for_intent,
}
use ctrlf_ai.Routing.Llm.{
  is_backend_status, ask_which, force_confirmation, expected_route, validate_and_fix, route,
  fallback,
}

-- Its route is that of its intent, a critical action has to be confirmed, and a status query without
-- a sub-intent asks back.
pub record IsSafe (r : RouterResult) : Type 0 where
  pub by_intent : r.route_type ≡ (get_default_route_for_intent r.tier0_intent).0
  pub gate : (is_critical r.sub_intent_id && r.requires_confirmation) ≡ is_critical r.sub_intent_id
  pub asks :
      (is_backend_status r.tier0_intent && r.sub_intent_id =ˢ "" && not r.needs_clarify) ≡ false

expected_route-default : (i : Tier0Intent) → expected_route i ≡ (get_default_route_for_intent i).0
unfolding expected_route get_default_route_for_intent
expected_route-default policy_qa = refl
expected_route-default education_qa = refl
expected_route-default backend_status = refl
expected_route-default general_chat = refl
expected_route-default system_help = refl
expected_route-default unknown = refl

force_confirmation-gate :
    (r : RouterResult)
    → (is_critical (force_confirmation r).sub_intent_id
        && (force_confirmation r).requires_confirmation)
      ≡ is_critical (force_confirmation r).sub_intent_id
unfolding force_confirmation
force_confirmation-gate r = ground arith

Asks : RouterResult → Type 0
Asks r = (is_backend_status r.tier0_intent && r.sub_intent_id =ˢ "" && not r.needs_clarify) ≡ false

ask_which-Asks : (r : RouterResult) → Asks (ask_which r)
unfolding ask_which Asks
ask_which-Asks r = ground arith

force_confirmation-Asks : (r : RouterResult) → Asks r → Asks (force_confirmation r)
unfolding force_confirmation Asks
force_confirmation-Asks r h = ground arith

-- Whatever the model's answer, the corrected result has the route of its intent, a critical action in
-- it has to be confirmed, and a status query in it without a sub-intent asks back.
pub validate_and_fix-IsSafe : (r : RouterResult) → IsSafe (validate_and_fix r)
unfolding validate_and_fix Asks
validate_and_fix-IsSafe r = record {
  by_intent = expected_route-default _;
  gate = force_confirmation-gate (ask_which r);
  asks = force_confirmation-Asks (ask_which r) (ask_which-Asks r);
}

fallback-IsSafe : IsSafe fallback
unfolding get_default_route_for_intent is_critical is_backend_status
fallback-IsSafe = record { by_intent = refl; gate = refl; asks = refl }

-- Whether the model answers or fails, the router's result has the route of its intent, a critical
-- action in it has to be confirmed, and a status query in it without a sub-intent asks back.
pub route-IsSafe :
    (answer : Text → RouterResult → Option RouterResult) (user_query : Text) (rule : RouterResult)
    → IsSafe (route answer user_query rule)
unfolding route
route-IsSafe answer user_query rule =
    elim (answer user_query rule)
      as (λ a. IsSafe (elim a [ some r ↦ validate_and_fix r | none ↦ fallback ])) [
        | some r ↦ validate_and_fix-IsSafe r
        | none ↦ fallback-IsSafe
      ]
