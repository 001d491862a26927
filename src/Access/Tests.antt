-- ===== src/Access/Tests.antt =====
-- Runs of internal/access, and its theorems at concrete inputs.
mod Samples
mod Paths
mod Registry
