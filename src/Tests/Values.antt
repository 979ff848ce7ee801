-- ===== src/Tests/Values.antt =====
-- The data that the tests share.
use apex_os_rv.Prelude.{ℕ, ◌+◌, none, Text, codes, arith}
use apex_os_rv.Protocol.Wire.{Wire, GoalState}
use apex_os_rv.Goal.Driver.{GoalDriver, Inference, pending, TickContext}
use apex_os_rv.Goal.Lifecycle.{IsValid, is_acting_state}
use apex_os_rv.Kernel.Watchdog.Round.{IsClock}

-- JSON values and floating-point numbers play no part in the tests.
abbrev pub plain : Wire
plain = record { Value = ℕ; F32 = ℕ; F64 = ℕ }

abbrev pub objective : Text
objective = codes "map the sensors"

abbrev pub acting_driver : GoalDriver
acting_driver = record {
  goal = 1;
  objective = objective;
  state = GoalState.acting;
  step = 2;
  max_steps = 8;
  steer = none;
}

pub acting_driver-IsValid : IsValid acting_driver
acting_driver-IsValid = record {
  one_indexed = omega arith;
  in_budget = omega arith;
  capped = omega arith;
  exercised_state = is_acting_state;
}

abbrev pub context : TickContext
context = record { goal = 1; objective = objective; step = 2; max_steps = 8; steer = none }

-- An inference whose turns never complete.
abbrev pub hanging : Inference ℕ
hanging s ctx = (pending, s)

-- A clock that starts shortly before its counter wraps.
abbrev pub clock : ℕ → ℕ
clock k = 18446744073709551600 + k

pub clock-IsClock : IsClock clock
clock-IsClock = record { ticks = λ k. omega arith; no_gap = λ k. omega arith }

abbrev pub timeout : ℕ
timeout = 20
