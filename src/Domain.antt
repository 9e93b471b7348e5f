-- ===== src/Domain.antt =====
-- app/domain: the enumerations, the entity, the exceptions and the service.
pub mod Enums
pub mod DateTime
pub mod Entities
pub mod Exceptions
pub mod Repository
pub mod Service
pub mod Changes
pub mod Interleaved
