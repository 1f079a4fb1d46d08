-- ===== src/Routing/Rule/Intents.antt =====
-- app/services/rule_router.py: every result of the rules follows the table of the intents, and asks
-- for a confirmation just on the critical actions.
use Prim.{Unit, tt}
use ctrlf_ai.Prelude.{
  String, Bool, true, false, Option, some, none, List, ◌≡◌, refl, sym, ℕ, if◌then◌else◌,
}
use ctrlf_ai.Text.{Text, lower}
use ctrlf_ai.Routing.Types.{
  Tier0Intent, RouterDomain, RouterRouteType, policy_qa, education_qa, backend_status, general_chat,
  system_help, unknown, is_critical, RouterDebugInfo, no_debug, RouterResult,
  get_default_route_for_intent,
}
use ctrlf_ai.Routing.Rule.{
  check_ambiguous_boundaries, check_generation, check_submit, check_critical_actions, classified,
  critical, clarify, classify_default, classify_knowledge, classify_personal, classify_by_keywords,
  after_critical, after_boundaries, route,
}

unfoldable pub is_unknown : Tier0Intent → Bool
is_unknown policy_qa = false
is_unknown education_qa = false
is_unknown backend_status = false
is_unknown general_chat = false
is_unknown system_help = false
is_unknown unknown = true

-- A result whose route is that of its intent, which asks for a confirmation just on a critical
-- action, and which asks back just without an intent.
pub record IsRouted (r : RouterResult) : Type 0 where
  pub by_intent : r.route_type ≡ (get_default_route_for_intent r.tier0_intent).0
  pub gate : r.requires_confirmation ≡ is_critical r.sub_intent_id
  pub question : r.needs_clarify ≡ is_unknown r.tier0_intent

if-IsRouted :
    (b : Bool) (r s : RouterResult) → IsRouted r → IsRouted s → IsRouted (if b then r else s)
if-IsRouted true r s hr hs = hr
if-IsRouted false r s hr hs = hs

classified-IsRouted :
    (i : Tier0Intent) (domain : RouterDomain) (route : RouterRouteType) (sub : String) (c : ℕ)
    (debug : RouterDebugInfo)
    → route ≡ (get_default_route_for_intent i).0
    → is_critical sub ≡ false
    → is_unknown i ≡ false
    → IsRouted (classified i domain route sub c debug)
classified-IsRouted i domain route sub c debug e f g = record {
  by_intent = e;
  gate = sym f;
  question = sym g;
}

critical-IsRouted :
    (sub prompt : String) (debug : RouterDebugInfo)
    → is_critical sub ≡ true
    → IsRouted (critical sub prompt debug)
unfolding get_default_route_for_intent is_unknown
critical-IsRouted sub prompt debug e = record { by_intent = refl; gate = sym e; question = refl }

clarify-IsRouted :
    (domain : RouterDomain) (question : String) (debug : RouterDebugInfo)
    → IsRouted (clarify domain question debug)
unfolding get_default_route_for_intent is_unknown is_critical
clarify-IsRouted domain question debug = record { by_intent = refl; gate = refl; question = refl }

classify_default-IsRouted :
    (q original : Text) (debug : RouterDebugInfo) → IsRouted (classify_default q original debug)
unfolding classify_default get_default_route_for_intent is_critical is_unknown
classify_default-IsRouted q original debug = search (if-IsRouted, classified-IsRouted)

classify_knowledge-IsRouted :
    (q original : Text) (debug : RouterDebugInfo) → IsRouted (classify_knowledge q original debug)
unfolding classify_knowledge get_default_route_for_intent is_critical is_unknown
classify_knowledge-IsRouted q original debug =
    search (if-IsRouted, classified-IsRouted, classify_default-IsRouted)

classify_personal-IsRouted :
    (q original : Text) (debug : RouterDebugInfo) → IsRouted (classify_personal q original debug)
unfolding classify_personal get_default_route_for_intent is_critical is_unknown
classify_personal-IsRouted q original debug =
    search (if-IsRouted, classified-IsRouted, classify_knowledge-IsRouted) depth 12

classify_by_keywords-IsRouted :
    (summary : Bool) (q original : Text) (debug : RouterDebugInfo)
    → IsRouted (classify_by_keywords summary q original debug)
unfolding classify_by_keywords get_default_route_for_intent is_critical is_unknown
classify_by_keywords-IsRouted summary q original debug =
    search (if-IsRouted, classified-IsRouted, classify_personal-IsRouted) depth 12

-- A check that may find a result finds one that is routed.
IsRoutedIfAny : Option RouterResult → Type 0
IsRoutedIfAny none = Unit
IsRoutedIfAny (some r) = IsRouted r

if-IsRoutedIfAny :
    (b : Bool) (r s : Option RouterResult)
    → IsRoutedIfAny r
    → IsRoutedIfAny s
    → IsRoutedIfAny (if b then r else s)
if-IsRoutedIfAny true r s hr hs = hr
if-IsRoutedIfAny false r s hr hs = hs

if-first :
    (b : Bool) (x y : Option RouterResult × RouterDebugInfo)
    → IsRoutedIfAny x.0
    → IsRoutedIfAny y.0
    → IsRoutedIfAny (if b then x else y).0
if-first true x y hx hy = hx
if-first false x y hx hy = hy

check_generation-IsRouted :
    (q : Text) (debug : RouterDebugInfo) → IsRoutedIfAny (check_generation q debug).0
unfolding check_generation IsRoutedIfAny is_critical
check_generation-IsRouted q debug = search (if-first, critical-IsRouted, tt)

check_submit-IsRouted :
    (q : Text) (debug : RouterDebugInfo) → IsRoutedIfAny (check_submit q debug).0
unfolding check_submit IsRoutedIfAny is_critical
check_submit-IsRouted q debug = search (if-first, critical-IsRouted, check_generation-IsRouted)

check_critical_actions-IsRouted :
    (q : Text) (debug : RouterDebugInfo) → IsRoutedIfAny (check_critical_actions q debug).0
unfolding check_critical_actions IsRoutedIfAny is_critical
check_critical_actions-IsRouted q debug =
    search (if-first, critical-IsRouted, check_submit-IsRouted)

check_ambiguous_boundaries-IsRouted :
    (choose : List String → String) (q : Text) (debug : RouterDebugInfo)
    → IsRoutedIfAny (check_ambiguous_boundaries choose q debug)
unfolding check_ambiguous_boundaries IsRoutedIfAny
check_ambiguous_boundaries-IsRouted choose q debug = search (if-IsRoutedIfAny, clarify-IsRouted, tt)

after_critical-IsRouted :
    (summary : Bool) (q original : Text) (found : Option RouterResult × RouterDebugInfo)
    → IsRoutedIfAny found.0
    → IsRouted (after_critical summary q original found)
unfolding after_critical IsRoutedIfAny
after_critical-IsRouted summary q original (some r, debug) h = h
after_critical-IsRouted summary q original (none, debug) h =
    classify_by_keywords-IsRouted summary q original debug

after_boundaries-IsRouted :
    (summary : Bool) (q original : Text) (found : Option RouterResult)
    → IsRoutedIfAny found
    → IsRouted (after_boundaries summary q original found)
unfolding after_boundaries IsRoutedIfAny
after_boundaries-IsRouted summary q original (some r) h = h
after_boundaries-IsRouted summary q original none h =
    after_critical-IsRouted summary q original (check_critical_actions q no_debug)
      (check_critical_actions-IsRouted q no_debug)

-- Whatever the query, the route of the rules' answer is the one that the table gives its intent, it
-- asks for a confirmation just when its sub-intent is a critical action, and it asks back just when
-- its intent is unknown.
pub route-IsRouted :
    (summary : Bool) (choose : List String → String) (user_query : Text)
    → IsRouted (route summary choose user_query)
unfolding route
route-IsRouted summary choose user_query =
    after_boundaries-IsRouted summary (lower user_query) user_query _
      (check_ambiguous_boundaries-IsRouted choose (lower user_query) no_debug)
