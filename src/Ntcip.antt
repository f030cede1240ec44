-- ===== src/Ntcip.antt =====
-- services/ntcip-emulator: the emulated traffic signal controller.
pub mod Controller
pub mod Emulator
