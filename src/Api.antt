-- ===== src/Api.antt =====
-- app/api and app/schemas: the models of the wire, the idempotency of a route, and the routes.
pub mod Schemas
pub mod Errors
pub mod Idempotency
pub mod Routes
