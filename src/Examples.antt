-- ===== src/Examples.antt =====
-- The theorems at concrete inputs: an environment, an executor over the in-memory storage, and
-- handlers that succeed, fail and panic.
pub mod Data
pub mod Executions
pub mod Storages
pub mod Parts
pub mod Sql
pub mod Front
pub mod Cli
pub mod Strokes
pub mod Conformance
pub mod Prometheus
