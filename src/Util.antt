-- ===== src/Util.antt =====
-- plrCommon/timeUtil.c, plrCommon/stringUtil.c and plrCommon/plrLog.c
pub mod Time
pub mod Strings
pub mod Log
