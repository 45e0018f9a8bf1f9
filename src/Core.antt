-- ===== src/Core.antt =====
-- plrCommon/plr.c
pub mod State
pub mod Replace
pub mod Vote
pub mod Majority
pub mod Recovery
pub mod Barrier
pub mod Wait
pub mod Entry
pub mod Init
pub mod Deadline
pub mod Places
pub mod Invariant
pub mod Reach
