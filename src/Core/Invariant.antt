-- ===== src/Core/Invariant.antt =====
-- The invariant of the barrier over the sections of plrCommon/plr.c.
pub mod Middle
pub mod Replaced
pub mod Ready
pub mod Exit
pub mod Watchdog
pub mod Loop
pub mod Sections
