-- ===== src/Engine.antt =====
-- backend/app/risk_engine.py, the stateless scoring of events over the state store.
pub mod Trust
pub mod Attempt
pub mod Assess
pub mod StepUp
pub mod Reachable
