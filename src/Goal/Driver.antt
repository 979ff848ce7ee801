-- ===== src/Goal/Driver.antt =====
-- The goal driver: `GoalDriver`, `Inference` and their operations (agent-core/src/goal.rs). A method
-- that mutates `self` returns the new driver; the emit sink is the list of the emitted events, in
-- order. `run` goes by fuel, and `none` says that the fuel ran out.
use apex_os_rv.Prelude.{
  ℕ, zero, suc, ◌+◌, ◌%◌, Bool, true, false, Option, none, some, List, [], ◌∷◌, ◌++◌, Text, codes,
  ltb, leb, if◌then◌else◌,
}
use apex_os_rv.Protocol.Wire.{Wire, GoalId, GoalState}
use apex_os_rv.Protocol.Event.{Event, goal_state_changed}

abbrev pub default_max_steps : ℕ
default_max_steps = 12

abbrev pub max_steps_ceil : ℕ
max_steps_ceil = 100

-- `u32` arithmetic wraps.
abbrev pub u32 : ℕ → ℕ
u32 n = n % 4294967296

pub data Verdict : Type 0 where
  continue : Option Text → Verdict  -- the steer for the next step
  done : Verdict
  blocked : Text → Verdict  -- the reason

pub data TurnResult : Type 0 where
  completed : Verdict → TurnResult
  pending : TurnResult
  stalled : TurnResult

pub record TickContext : Type 0 where
  pub goal : GoalId
  pub objective : Text
  pub step : ℕ  -- u32
  pub max_steps : ℕ  -- u32
  pub steer : Option Text

-- The trait `Inference`: `next` of an engine with state `S`.
abbrev pub Inference : Type 0 → Type 0
Inference S = S → TickContext → TurnResult × S

pub record GoalDriver : Type 0 where
  pub goal : GoalId
  pub objective : Text
  pub state : GoalState
  pub step : ℕ  -- u32
  pub max_steps : ℕ  -- u32
  pub steer : Option Text

abbrev pub stalled_detail : Text
stalled_detail = codes "step stalled — no completion"

abbrev pub budget_detail : Text
budget_detail = codes "step budget reached"

-- `u32::clamp`
abbrev pub clamp : ℕ → ℕ → ℕ → ℕ
clamp x lo hi = if ltb x lo then lo else if ltb hi x then hi else x

-- `matches!(state, GoalState::Acting)`
abbrev pub is_acting : GoalState → Bool
is_acting GoalState.acting = true
is_acting _ = false

module _ (w : Wire) where
  unfoldable pub emit_state : GoalDriver → Text → Event w
  emit_state d detail =
      goal_state_changed d.goal d.objective d.state d.step d.max_steps detail false

  unfoldable pub start : GoalId → Text → ℕ → GoalDriver × List (Event w)
  unfolding emit_state
  start goal objective max_steps =
      let d : GoalDriver = record {
        goal = goal;
        objective = objective;
        state = GoalState.acting;
        step = 1;
        max_steps = clamp max_steps 1 max_steps_ceil;
        steer = none;
      } in
      (d, emit_state d [] ∷ [])

  -- The end of a transition: the new driver and the one event that it emits.
  abbrev emitting : GoalDriver → Text → GoalDriver × List (Event w)
  emitting d detail = (d, emit_state d detail ∷ [])

  -- The match of `advance`, after its guards; `self.steer = None` comes first.
  apply_result : GoalDriver → TurnResult → GoalDriver × List (Event w)
  unfolding emit_state
  apply_result d pending = (d, [])
  apply_result d stalled =
      emitting (record d { state = GoalState.failed; steer = none }) stalled_detail
  apply_result d (completed Verdict.done) =
      emitting (record d { state = GoalState.done; steer = none }) []
  apply_result d (completed (Verdict.blocked reason)) =
      emitting (record d { state = GoalState.blocked; steer = none }) reason
  apply_result d (completed (Verdict.continue steer)) =
      if leb d.max_steps d.step
      then emitting (record d { state = GoalState.done; steer = none }) budget_detail
      else emitting (record d { step = u32 (d.step + 1); steer = steer }) []

  unfoldable pub advance : GoalDriver → TurnResult → GoalDriver × List (Event w)
  unfolding apply_result
  advance d r = if is_acting d.state then apply_result d r else (d, [])

-- The context that `poll` shows the inference.
unfoldable pub tick_context : GoalDriver → TickContext
tick_context d = record {
  goal = d.goal;
  objective = d.objective;
  step = d.step;
  max_steps = d.max_steps;
  steer = d.steer;
}

module _ (w : Wire) {S : Type 0} (next : Inference S) where
  -- `poll` after the call of `next`.
  unfoldable pub deliver : GoalDriver → TurnResult × S → GoalDriver × S × List (Event w)
  deliver d (pending, s) = (d, s, [])
  deliver d (r, s) = let (d', events) = advance w d r in (d', s, events)

  unfoldable pub poll : GoalDriver → S → GoalDriver × S × List (Event w)
  unfolding deliver tick_context
  poll d s = if is_acting d.state then deliver d (next s (tick_context d)) else (d, s, [])

  -- `log` is what the sink holds so far. The result is the driver, the engine and the sink when the
  -- goal has left `Acting`; the state that the source returns is the driver's.
  unfoldable pub run :
      ℕ → GoalDriver → S → List (Event w) → Option (GoalDriver × S × List (Event w))
  run zero d s log = if is_acting d.state then none else some (d, s, log)
  run (suc fuel) d s log =
      let (d', s', events) = poll d s in
      let rest = run fuel d' s' (log ++ events) in
      if is_acting d.state then rest else some (d, s, log)
