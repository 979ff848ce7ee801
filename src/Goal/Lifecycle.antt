-- ===== src/Goal/Lifecycle.antt =====
-- What holds of a driver between two transitions, however its turns end, and the phases that its
-- transitions run through (agent-core/src/goal.rs, `start` and `advance`).
use apex_os_rv.Prelude.{ℕ, ◌≤◌, ◌≡◌, inl, inr, false, Bool-cases, List, [], ◌++◌, Text, arith}
use apex_os_rv.Protocol.Wire.{Wire, GoalId, GoalState, acting, blocked, done, failed}
use apex_os_rv.Protocol.Event.{Event}
use apex_os_rv.Goal.Driver.{
  GoalDriver, TurnResult, pending, stalled, is_acting, max_steps_ceil, start, advance,
}

-- The states that this driver reaches; the others are reserved or an operator's.
pub data IsExercised : GoalState → Type 0 where
  is_acting_state : IsExercised acting
  is_blocked : IsExercised blocked
  is_done : IsExercised done
  is_failed : IsExercised failed

ruleset exercised = (is_acting_state, is_blocked, is_done, is_failed)

pub record IsValid (d : GoalDriver) : Type 0 where
  pub one_indexed : 1 ≤ d.step
  pub in_budget : d.step ≤ d.max_steps
  pub capped : d.max_steps ≤ max_steps_ceil
  pub exercised_state : IsExercised d.state

module _ (w : Wire) where
  pub start-IsValid : (g : GoalId) (o : Text) (n : ℕ) → IsValid (start w g o n).0
  unfolding start
  start-IsValid g o n = ground (arith, is_acting_state)

  pub advance-IsValid : (d : GoalDriver) (r : TurnResult) → IsValid d → IsValid (advance w d r).0
  unfolding advance
  advance-IsValid d r h = ground (arith, is_acting_state, is_blocked, is_done, is_failed)

  -- The drivers that calls of `advance` make of a started one, with all that was emitted.
  pub data Reach (g : GoalId) (o : Text) (n : ℕ) : GoalDriver → List (Event w) → Type 0 where
    started : Reach g o n (start w g o n).0 (start w g o n).1
    advanced :
        {d : GoalDriver} {log : List (Event w)} (r : TurnResult)
        → Reach g o n d log
        → Reach g o n (advance w d r).0 (log ++ (advance w d r).1)

pub advance-pending : (w : Wire) (d : GoalDriver) → advance w d pending ≡ (d, [])
unfolding advance
advance-pending w d = ground arith

pub stalled_over : (w : Wire) (d : GoalDriver) → is_acting (advance w d stalled).0.state ≡ false
unfolding advance
stalled_over w d = elim (Bool-cases (is_acting d.state)) [ inl a ↦ rw a | inr a ↦ rw (a, a) ]
