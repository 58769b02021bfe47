-- ===== src/Session.antt =====
-- src/firewarning_worker/session_runner.py: one batch through the four stages. What the stages call
-- outside the file is a parameter: the adapters of a factory, the CUDA runtime, the clock's
-- durations, and the digest of a payload.
pub mod Effects
pub mod Initial
pub mod Merge
pub mod Adapter
pub mod Candidate
pub mod Judge
pub mod State
pub mod Stage
pub mod Run
pub mod Residency
pub mod Laws
