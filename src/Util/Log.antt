-- ===== src/Util/Log.antt =====
-- plrCommon/plrLog.c. `strtol` and the environment are outside: a level text comes as what `strtol`
-- makes of it.
pub mod Laws
use plr.Prelude.{
  ℕ, Bool, true, false, ◌||◌, if◌then◌else◌, Option, none, some, ℤ, pos, negsuc, ltb_ℤ, eq_ℤ,
}

abbrev pub log_none : ℤ
log_none = pos 0

abbrev pub log_error : ℤ
log_error = pos 1

abbrev pub log_all : ℤ
log_all = pos 4

abbrev pub log_default : ℤ
log_default = log_error

-- `PLR_LOGLEVEL`: not set, not an integer, or a value.
pub data LevelText : Type 0 where
  unset malformed : LevelText
  value : ℤ → LevelText

-- The level that the text asks for, where it is accepted.
unfoldable pub accepted_level : ℤ → LevelText → ℤ
accepted_level g unset = g
accepted_level g malformed = g
accepted_level g (value v) = if ltb_ℤ v log_none || ltb_ℤ log_all v then g else v

-- `checkLogSettings`: the value of `g_logLevel` after it.
unfoldable pub check_log_settings : LevelText → ℤ → ℤ
unfolding accepted_level
check_log_settings text g =
    if ltb_ℤ g (pos 0)
    then (let v = accepted_level g text in if ltb_ℤ v (pos 0) then log_default else v)
    else g

-- `plrlogIsEnabled`; none if the assertion on the level fails.
unfoldable pub log_is_enabled : LevelText → ℤ → ℤ → Option Bool
unfolding check_log_settings
log_is_enabled text g level =
    if eq_ℤ level log_none
    then none
    else some (if ltb_ℤ (check_log_settings text g) level then false else true)

-- `plrlog`: its value and the world after it. `vfprintf` writes the message; none if the assertion on
-- the level fails.
unfoldable pub plrlog :
    {W : Type 0} → (vfprintf : W → ℤ × W) → LevelText → ℤ → ℤ → W → Option (ℤ × W)
unfolding check_log_settings
plrlog vfprintf text g level w =
    if eq_ℤ level log_none
    then none
    else some (if ltb_ℤ (check_log_settings text g) level then (pos 0, w) else vfprintf w)
