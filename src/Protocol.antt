-- ===== src/Protocol.antt =====
-- platform/protocol: what controller and agents send each other.
pub mod CompanionStatus
