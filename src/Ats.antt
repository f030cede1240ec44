-- ===== src/Ats.antt =====
-- services/ats-core: the automatic train supervision.
pub mod Runtime
pub mod SafetyGuard
pub mod Topology
pub mod Traversal
pub mod Fleet
pub mod Tsp
pub mod Intrusion
pub mod Headway
pub mod Process
