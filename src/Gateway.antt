-- ===== src/Gateway.antt =====
-- services/ingest-gateway: the conduit between the field and the core.
pub mod Registry
pub mod Pipeline
pub mod Conduit
pub mod Downlink
