-- ===== src/Recurrence.antt =====
-- internal/recurrence: the data of rrule.go and expand.go. An `int` field of `Rule` is a number here:
-- `Parse` lets no negative value in. A weekday is a number from 0, Sunday, as in Go.
pub mod Advance
pub mod Expand
pub mod Rrule
mod Describe
pub mod Pairs
pub mod Semicolons
pub mod RoundTrip
pub mod Accepted
pub mod Bounds
pub mod Series
pub mod Steady
pub mod Months
pub mod Monthly
pub mod Endless
pub mod Total
pub mod Weeks
pub mod Search
pub mod ByDay
pub mod OnDay
pub mod Examples
use gamwich.Prelude.{ℕ, Bool, List, Option, none}
use gamwich.Calendar.{Time}

pub data Freq : Type 0 where
  daily weekly monthly yearly : Freq

pub record Rule : Type 0 where
  pub freq : Freq
  pub interval : ℕ
  pub by_day : List ℕ
  pub by_month_day : ℕ
  pub count : ℕ
  pub until : Option Time

pub record Occurrence : Type 0 where
  pub start : Time
  pub end : Time

pub record Iterator : Type 0 where
  pub rule : Rule
  pub base_start : Time
  pub current : Time
  pub week_day_idx : ℕ
  pub started : Bool
  pub count : ℕ
