-- ===== src/External.antt =====
-- What the agent takes from the crates that it is built on.
use taymna.Common.{ℕ, Option}
use taymna.Common.Int.{ℤ}
use taymna.Common.Text.{Str}
use taymna.Storage.{AgentState}

-- chrono's `TimeDelta::from_std` and `TimeDelta::num_seconds`, on durations in nanoseconds, and
-- serde_json's `to_string_pretty` and `from_str` at `AgentState`.
pub record External : Type 0 where
  pub from_std : ℕ → Option ℕ
  pub num_seconds : ℤ → ℤ
  pub to_json : AgentState → Str
  pub from_json : Str → Option AgentState
