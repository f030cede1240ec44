-- ===== src/Leader.antt =====
-- packages/leader-election: one leader among the replicas of a service.
pub mod Election
pub mod LeaseHolder
