-- ===== src/Tests.antt =====
-- Runs of the modelled code on concrete inputs, and the theorems at concrete inputs.
mod Fixtures
mod Jobs
mod Server
mod Poll
mod Raft
mod Transport
mod Cluster
mod Marshal
mod Replication
mod Unset
mod Keys
mod Discovery
mod Start
mod Registry
mod Main
mod Observe
