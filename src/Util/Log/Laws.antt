-- ===== src/Util/Log/Laws.antt =====
-- The log level settles after the first message.
use plr.Prelude.{
  ◌≡◌, refl, inl, inr, Bool-cases, none, some, if◌then◌else◌, arith, ℤ, pos, negsuc, eq_ℤ, ltb_ℤ,
  ◌≤ℤ◌,
}
use plr.Util.Log.{
  LevelText, unset, malformed, value, log_none, log_all, check_log_settings, log_is_enabled, plrlog,
}

-- Whatever the environment says, the level that `checkLogSettings` sets from its initial value -1 is
-- one of the levels, and every later call keeps it.
pub check_log_settings_stable :
    (text later : LevelText)
    → (log_none ≤ℤ check_log_settings text (negsuc 0))
      × (check_log_settings text (negsuc 0) ≤ℤ log_all)
      × (check_log_settings later (check_log_settings text (negsuc 0))
          ≡ check_log_settings text (negsuc 0))
unfolding check_log_settings
check_log_settings_stable unset later = (omega arith, omega arith, refl)
check_log_settings_stable malformed later = (omega arith, omega arith, refl)
check_log_settings_stable (value v) later = (ground arith, ground arith, ground arith)

-- `plrlog` writes its message exactly where `plrlogIsEnabled` says so, and otherwise does nothing.
plrlog-log_is_enabled :
    {W : Type 0} (vfprintf : W → ℤ × W) (text : LevelText) (g level : ℤ) (w : W)
    → plrlog vfprintf text g level w ≡ elim (log_is_enabled text g level) [
      | none ↦ none
      | some enabled ↦ some (if enabled then vfprintf w else (pos 0, w))
    ]
unfolding plrlog log_is_enabled
plrlog-log_is_enabled vfprintf text g level w = elim (Bool-cases (eq_ℤ level log_none)) [
  | inl e ↦ rw (e, plrlog, log_is_enabled) refl
  | inr e ↦ elim (Bool-cases (ltb_ℤ (check_log_settings text g) level)) [
    | inl f ↦ rw (e, f, plrlog, log_is_enabled) refl
    | inr f ↦ rw (e, f, plrlog, log_is_enabled) refl
  ]
]
