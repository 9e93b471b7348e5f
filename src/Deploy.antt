-- ===== src/Deploy.antt =====
-- How the service is started: its settings, its process, and the environment of its migrations.
pub mod Settings
pub mod Service
pub mod Environment
pub mod Entrypoint
