-- ===== src/Tests.antt =====
-- Concrete inputs, and each theorem with hypotheses applied to them.
mod Data
mod Engine
mod Decisions
mod Attack
mod Interleavings
mod Payments
mod StepUps
mod Stores
mod Tokens
mod Vaults
mod Service
mod Startup
mod Signed
mod Tables
mod Texts
mod Topology
mod Scripts
