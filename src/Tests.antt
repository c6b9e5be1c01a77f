-- ===== src/Tests.antt =====
-- Runs of the model at small inputs, and each theorem with hypotheses at an input that meets them.
mod Verdict
mod Queue
mod Worker
mod Consensus
mod Integrity
mod Cache
mod Dependency
mod Agentic
mod Auth
mod VersionDiff
mod Intel
mod Alert
mod EditDistance
mod ThreatFilter
mod Sequences
mod StageCache
mod Pipeline
