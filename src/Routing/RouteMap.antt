-- ===== src/Routing/RouteMap.antt =====
-- app/services/chat/route_mapper.py, with the enumerations of app/models/intent.py.
use ctrlf_ai.Prelude.{◌≡◌, ◌≢◌, ◌↔◌, refl, Option, some, arith}
use ctrlf_ai.Routing.Types.{Tier0Intent, RouterRouteType}

pub data IntentType : Type 0 where
  policy_qa incident_report incident_qa education_qa edu_status : IntentType
  general_chat system_help unknown : IntentType

pub data RouteType : Type 0 where
  rag_internal llm_only backend_api mixed_backend_rag incident training : RouteType
  fallback error : RouteType
  route_rag_internal route_llm_only route_incident route_training : RouteType
  route_fallback route_error : RouteType

unfoldable pub map_tier0_to_intent : Tier0Intent → Option IntentType
map_tier0_to_intent Tier0Intent.policy_qa = some IntentType.policy_qa
map_tier0_to_intent Tier0Intent.education_qa = some IntentType.education_qa
map_tier0_to_intent Tier0Intent.backend_status = some IntentType.edu_status
map_tier0_to_intent Tier0Intent.general_chat = some IntentType.general_chat
map_tier0_to_intent Tier0Intent.system_help = some IntentType.system_help
map_tier0_to_intent Tier0Intent.unknown = some IntentType.unknown

unfoldable pub map_router_route_to_route_type : RouterRouteType → Option RouteType
map_router_route_to_route_type RouterRouteType.rag_internal = some RouteType.rag_internal
map_router_route_to_route_type RouterRouteType.backend_api = some RouteType.backend_api
map_router_route_to_route_type RouterRouteType.llm_only = some RouteType.llm_only
map_router_route_to_route_type RouterRouteType.route_system_help = some RouteType.llm_only
map_router_route_to_route_type RouterRouteType.route_unknown = some RouteType.fallback

-- The last two are missing from the table, and take its default.
unfoldable pub map_route_type_to_router_route_type : RouteType → RouterRouteType
map_route_type_to_router_route_type RouteType.rag_internal = RouterRouteType.rag_internal
map_route_type_to_router_route_type RouteType.route_rag_internal = RouterRouteType.rag_internal
map_route_type_to_router_route_type RouteType.backend_api = RouterRouteType.backend_api
map_route_type_to_router_route_type RouteType.llm_only = RouterRouteType.llm_only
map_route_type_to_router_route_type RouteType.route_llm_only = RouterRouteType.llm_only
map_route_type_to_router_route_type RouteType.training = RouterRouteType.llm_only
map_route_type_to_router_route_type RouteType.route_training = RouterRouteType.llm_only
map_route_type_to_router_route_type RouteType.mixed_backend_rag = RouterRouteType.rag_internal
map_route_type_to_router_route_type RouteType.incident = RouterRouteType.backend_api
map_route_type_to_router_route_type RouteType.route_incident = RouterRouteType.backend_api
map_route_type_to_router_route_type RouteType.fallback = RouterRouteType.route_unknown
map_route_type_to_router_route_type RouteType.error = RouterRouteType.route_unknown
map_route_type_to_router_route_type RouteType.route_fallback = RouterRouteType.route_unknown
map_route_type_to_router_route_type RouteType.route_error = RouterRouteType.route_unknown

-- A router's route survives the translation to a chat route and back exactly when it is not the
-- route of the system help.
pub route_round_trip :
    (r : RouterRouteType)
    → (route : RouteType) × (map_router_route_to_route_type r ≡ some route)
      × ((map_route_type_to_router_route_type route ≡ r) ↔ (r ≢ RouterRouteType.route_system_help))
unfolding map_router_route_to_route_type map_route_type_to_router_route_type
route_round_trip RouterRouteType.rag_internal = (_, refl, grind arith)
route_round_trip RouterRouteType.backend_api = (_, refl, grind arith)
route_round_trip RouterRouteType.llm_only = (_, refl, grind arith)
route_round_trip RouterRouteType.route_system_help = (_, refl, grind arith)
route_round_trip RouterRouteType.route_unknown = (_, refl, grind arith)
