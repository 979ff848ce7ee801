-- ===== src/Goal/Trace.antt =====
-- What a driver emits, over every sequence of turn ends (agent-core/src/goal.rs, `advance`).
use apex_os_rv.Prelude.{
  ℕ, ◌+◌, ◌≤◌, ◌≡◌, ◌≢◌, refl, true, false, none, some, List, [], ◌∷◌, ◌++◌, Text, All, All-append,
  get_last?, get_last?-concat, length, ◌⊎◌, inl, inr, if◌then◌else◌, leb, Bool-cases, append-nil,
  subst, ◌∙◌, length-append, arith,
}
use apex_os_rv.Protocol.Wire.{Wire, GoalId, GoalState, failed, done, blocked}
use apex_os_rv.Protocol.Event.{Event, goal_state_changed}
use apex_os_rv.Goal.Driver.{
  GoalDriver, TurnResult, Verdict, clamp, is_acting, max_steps_ceil, emit_state, start, advance,
  pending, stalled, completed, budget_detail, stalled_detail,
}
use apex_os_rv.Goal.Lifecycle.{
  IsValid, IsExercised, is_acting_state, Reach, started, advanced, start-IsValid, advance-IsValid,
}

-- An event of the goal `g`, as every client may read it.
abbrev pub IsGoalEvent : {w : Wire} → GoalId → Text → ℕ → Event w → Type 0
IsGoalEvent g o n (goal_state_changed goal objective state step max_steps detail yolo) =
    (goal ≡ g)
    × (objective ≡ o)
    × (max_steps ≡ clamp n 1 max_steps_ceil)
    × (yolo ≡ false)
    × (1 ≤ step)
    × (step ≤ max_steps)
    × IsExercised state
IsGoalEvent g o n _ = ⊥

module _ (w : Wire) where
  -- A transition from `d` to `d'`, with its one event.
  pub record Moves (d : GoalDriver) (r : TurnResult) (d' : GoalDriver) : Type 0 where
    pub was_acting : is_acting d.state ≡ true
    pub detail : Text
    pub result : advance w d r ≡ (d', emit_state w d' detail ∷ [])
    pub same_goal : d'.goal ≡ d.goal
    pub same_objective : d'.objective ≡ d.objective
    pub same_budget : d'.max_steps ≡ d.max_steps
    pub counted : d'.step + (if is_acting d'.state then 0 else 1) ≡ d.step + 1

  halts :
      (d : GoalDriver) (r : TurnResult) (s : GoalState) (detail : Text)
      → is_acting d.state ≡ true
      → is_acting s ≡ false
      → let d' = record d { state = s; steer = none } in
        advance w d r ≡ (d', emit_state w d' detail ∷ []) → Moves d r d'
  halts d r s detail a b e = record {
    was_acting = a;
    detail = detail;
    result = e;
    same_goal = refl;
    same_objective = refl;
    same_budget = refl;
    counted = rw b;
  }

  -- While a valid driver is acting, every turn that ended is a transition.
  pub advance-Moves :
      (d : GoalDriver) (r : TurnResult)
      → IsValid d
      → is_acting d.state ≡ true
      → r ≢ pending
      → (d' : GoalDriver) × Moves d r d'
  advance-Moves d pending h a e = absurd (e refl)
  advance-Moves d stalled h a e =
      (_, halts d stalled failed stalled_detail a refl (unfold advance in rw a))
  advance-Moves d (completed Verdict.done) h a e =
      (_, halts d (completed Verdict.done) done [] a refl (unfold advance in rw a))
  advance-Moves d (completed (Verdict.blocked reason)) h a e = (
    _,
    halts d (completed (Verdict.blocked reason)) blocked reason a refl (unfold advance in rw a),
  )
  advance-Moves d (completed (Verdict.continue steer)) h a e =
      elim (Bool-cases (leb d.max_steps d.step)) [
        | inl spent ↦ (
          _,
          halts d (completed (Verdict.continue steer)) done budget_detail a refl
              (unfold advance in rw (a, spent)),
        )
        | inr room ↦ (
          record d { step = d.step + 1; steer = steer },
          record {
            was_acting = a;
            detail = [];
            result = unfold advance emit_state in ground arith;
            same_goal = refl;
            same_objective = refl;
            same_budget = refl;
            counted = rw a (omega arith);
          },
        )
      ]

  -- Every call of `advance` on a valid driver is a transition or changes nothing.
  pub advance-cases :
      (d : GoalDriver) (r : TurnResult)
      → IsValid d
      → (advance w d r ≡ (d, [])) ⊎ ((d' : GoalDriver) × Moves d r d')
  advance-cases d pending h = inl (unfold advance in ground arith)
  advance-cases d r h = elim (Bool-cases (is_acting d.state)) [
    | inl a ↦ inr (advance-Moves d r h a (λ e. cc))
    | inr a ↦ inl (unfold advance in rw a)
  ]

module _ (w : Wire) (g : GoalId) (o : Text) (n : ℕ) where
  pub record IsTraced (d : GoalDriver) (log : List (Event w)) : Type 0 where
    pub same_goal : d.goal ≡ g
    pub same_objective : d.objective ≡ o
    pub same_budget : d.max_steps ≡ clamp n 1 max_steps_ceil
    pub valid : IsValid d
    pub own : All (IsGoalEvent g o n) log
    pub newest : (detail : Text) × (get_last? log ≡ some (emit_state w d detail))
    pub counted : length log ≡ d.step + (if is_acting d.state then 0 else 1)

  start-IsTraced : IsTraced (start w g o n).0 (start w g o n).1
  unfolding start
  start-IsTraced = record {
    same_goal = refl;
    same_objective = refl;
    same_budget = refl;
    valid = start-IsValid w g o n;
    own = ground (arith, is_acting_state);
    newest = ([], refl);
    counted = omega arith;
  }

  own-emit_state :
      (d : GoalDriver) (detail : Text)
      → d.goal ≡ g
      → d.objective ≡ o
      → d.max_steps ≡ clamp n 1 max_steps_ceil
      → IsValid d
      → IsGoalEvent g o n (emit_state w d detail)
  unfolding emit_state
  own-emit_state d detail a b c v = (a, b, c, refl, v.one_indexed, v.in_budget, v.exercised_state)

  advance-IsTraced :
      (d : GoalDriver) (log : List (Event w)) (r : TurnResult)
      → IsTraced d log
      → IsTraced (advance w d r).0 (log ++ (advance w d r).1)
  advance-IsTraced d log r h = elim (advance-cases w d r h.valid) [
    | inl same ↦ rw same (rw append-nil h)
    | inr (d', m) ↦
        let v = subst (λ p. IsValid p.0) m.result (advance-IsValid w d r h.valid) in
        rw m.result (record {
          same_goal = m.same_goal ∙ h.same_goal;
          same_objective = m.same_objective ∙ h.same_objective;
          same_budget = m.same_budget ∙ h.same_budget;
          valid = v;
          own = All-append (IsGoalEvent g o n) log _ h.own (
            own-emit_state d' m.detail (m.same_goal ∙ h.same_goal)
                (m.same_objective ∙ h.same_objective) (m.same_budget ∙ h.same_budget) v,
            tt,
          );
          newest = (m.detail, get_last?-concat log _);
          counted = rw length-append (rw h.counted (rw m.was_acting (omega (arith, m.counted))));
        })
  ]

  -- For every driver that calls of `advance` make of a started one, with all that was emitted:
  -- goal, objective and clamped budget are those of the start, the driver is valid, every event
  -- is the goal's own, within the budget and in an exercised state, the newest shows the driver,
  -- and there is one event for the start and one for each transition.
  pub Reach-IsTraced :
      {d : GoalDriver} {log : List (Event w)} → Reach w g o n d log → IsTraced d log
  Reach-IsTraced started = start-IsTraced
  Reach-IsTraced (advanced {d} {log} r p) = advance-IsTraced d log r (Reach-IsTraced p)
