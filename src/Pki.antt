-- ===== src/Pki.antt =====
-- packages/pki: the certificates of the devices.
pub mod TrustStore
