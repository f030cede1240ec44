-- ===== src/Witnesses.antt =====
-- The theorems applied to concrete inputs.
mod Contracts
mod Gateway
mod Leader
mod Ntcip
mod Ats
mod Dashboard
mod Process
mod Pki
