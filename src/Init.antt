-- ===== src/Init.antt =====
-- The init system, src/luna-init: its service table, dependency graph and supervisor.
pub mod Toml
pub mod Service
pub mod Loader
pub mod Depgraph
pub mod Supervisor
pub mod Sample
