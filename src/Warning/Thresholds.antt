-- ===== src/Warning/Thresholds.antt =====
-- The constants of agent/src/warning.rs, in seconds.
use taymna.Common.{ℕ, ◌*◌}

abbrev pub ten_minutes : ℕ
ten_minutes = 10 * 60

abbrev pub five_minutes : ℕ
five_minutes = 5 * 60

abbrev pub one_minute : ℕ
one_minute = 60

abbrev pub final : ℕ
final = 30

abbrev pub continuity_gap : ℕ
continuity_gap = 30
