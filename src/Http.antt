-- ===== src/Http.antt =====
-- hound/src/http: requests, responses, the incremental parser and the router.
pub mod Request
pub mod Response
pub mod Parser
pub mod Router
pub mod Server
