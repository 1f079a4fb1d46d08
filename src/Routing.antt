-- ===== src/Routing.antt =====
-- The intent router. `Types` is app/models/router_types.py, `RouteMap` is
-- app/services/chat/route_mapper.py, `Keywords` and `Rule` are app/services/rule_router.py, `Llm` and `Reply`
-- are app/services/llm_router.py, `Pending`, `Fresh` and `Orchestrator` are app/services/router_orchestrator.py.
-- The proofs are in the other children.
pub mod Types
pub mod RouteMap
pub mod Keywords
pub mod Rule
pub mod Llm
pub mod Reply
pub mod Pending
pub mod Fresh
pub mod Orchestrator
pub mod Sessions
