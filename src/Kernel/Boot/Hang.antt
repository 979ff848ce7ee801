-- ===== src/Kernel/Boot/Hang.antt =====
-- The build whose script never ends its second turn (kernel/src/main.rs, the feature fail-script).
use apex_os_rv.Prelude.{
  ℕ, ◌+◌, ◌<◌, ◌≡◌, refl, ap, sym, ◌∙◌, true, false, none, some, List, [], ◌∷◌, ◌++◌, Text, ltb,
  ltb→lt, ◌⊎◌, inl, inr, Bool-cases, arith,
}
use apex_os_rv.Protocol.Wire.{Wire, acting, failed}
use apex_os_rv.Protocol.Event.{Event, goal_state_changed}
use apex_os_rv.Goal.Driver.{
  GoalDriver, TickContext, pending, is_acting, start, advance, poll, tick_context, stalled_detail,
}
use apex_os_rv.Goal.Lifecycle.{advance-pending}
use apex_os_rv.Goal.Run.{poll-advance}
use apex_os_rv.Goal.Script
use apex_os_rv.Goal.Script.{ScriptedInference, new, script_hang}
use apex_os_rv.Kernel.Watchdog.{
  Loop, mtime, wrapping_sub, poll_once, note_step, watch, round, begin, drive_goal,
}
use apex_os_rv.Kernel.Watchdog.Keeps.{drive-keeps}
use apex_os_rv.Kernel.Watchdog.Trail.{note_step-trail, note_step-engine}

-- The inference of the script, with its cursor.
abbrev hang_at : ℕ → ScriptedInference
hang_at i = record { steps = script_hang; at = i }

-- The goal in its second step, and when that step has failed.
abbrev second : Text → GoalDriver
second o = record { goal = 1; objective = o; state = acting; step = 2; max_steps = 8; steer = none }

abbrev pub hung : Text → GoalDriver
hung o = record { goal = 1; objective = o; state = failed; step = 2; max_steps = 8; steer = none }

abbrev waiting_events : {w : Wire} → Text → List (Event w)
waiting_events o =
    goal_state_changed 1 o acting 1 8 [] false ∷ goal_state_changed 1 o acting 2 8 [] false ∷ []

-- The events of a goal that stalls in its second step.
abbrev pub hang_events : {w : Wire} → Text → List (Event w)
hang_events o = waiting_events o ++ goal_state_changed 1 o failed 2 8 stalled_detail false ∷ []

next-second : (ctx : TickContext) → Script.next (hang_at 1) ctx ≡ (pending, hang_at 1)
unfolding Script.next Script.reading
next-second ctx = refl

module _ (w : Wire) (clock : ℕ → ℕ) (timeout : ℕ) (objective : Text) where
  -- At the newest reading of the clock, more than the timeout has passed since the step began.
  abbrev pub IsOverdue : Loop w ScriptedInference → Type 0
  IsOverdue l =
      (k : ℕ) × (l.reads ≡ k + 1) × (timeout < wrapping_sub (mtime clock k) l.step_started)

  -- The loop before its first round.
  abbrev Fresh : Loop w ScriptedInference → Type 0
  Fresh l =
      (l.driver ≡ (start w 1 objective 8).0)
      × (l.engine ≡ hang_at 0)
      × (l.log ≡ (start w 1 objective 8).1)

  -- At the entry that stays pending.
  abbrev Pends : Loop w ScriptedInference → Type 0
  Pends l =
      (l.driver ≡ second objective) × (l.engine ≡ hang_at 1) × (l.log ≡ waiting_events objective)

  abbrev Hung : Loop w ScriptedInference → Type 0
  Hung l =
      (l.driver ≡ hung objective)
      × (l.engine ≡ hang_at 1)
      × (l.log ≡ hang_events objective)
      × IsOverdue l

  abbrev Waits : Loop w ScriptedInference → Type 0
  Waits l = Fresh l ⊎ Pends l ⊎ Hung l

  watch-Pends :
      (l : Loop w ScriptedInference) → Pends l → Waits (watch w Script.next clock timeout l)
  unfolding watch advance
  watch-Pends l (d, e, g) =
      elim (Bool-cases (ltb timeout (wrapping_sub (mtime clock l.reads) l.step_started))) [
        | inl late ↦ inr (
            inr (
              rw (d, late)
                (
                  refl,
                  e,
                  ap (λ r. r ++ goal_state_changed 1 objective failed 2 8 stalled_detail false ∷ [])
                      g,
                  (l.reads, refl, ltb→lt _ _ late),
                )))
        | inr early ↦ inr (inl (rw (d, early) (refl, e, g)))
      ]

  poll-first :
      poll w Script.next (start w 1 objective 8).0 (hang_at 0)
      ≡ (second objective, hang_at 1, goal_state_changed 1 objective acting 2 8 [] false ∷ [])
  unfolding poll start Script.next Script.reading advance tick_context
  poll-first = refl

  poll-second :
      poll w Script.next (second objective) (hang_at 1) ≡ (second objective, hang_at 1, [])
  poll-second =
      poll-advance w Script.next (second objective) (hang_at 1) refl
      ∙ rw (next-second (tick_context (second objective)))
          (rw (advance-pending w (second objective)) refl)

  poll_once-Fresh :
      (l : Loop w ScriptedInference) → Fresh l → Pends (poll_once w Script.next clock timeout l)
  unfolding poll_once start
  poll_once-Fresh l (d, e, g) =
      rw (d, e, poll-first)
        (refl, refl, ap (λ r. r ++ goal_state_changed 1 objective acting 2 8 [] false ∷ []) g)

  poll_once-Pends :
      (l : Loop w ScriptedInference) → Pends l → Pends (poll_once w Script.next clock timeout l)
  unfolding poll_once
  poll_once-Pends l (d, e, g) = rw (d, e, poll-second) (refl, refl, ap (λ r. r ++ []) g)

  -- A round whose poll left the loop at the pending entry.
  after-poll :
      (l : Loop w ScriptedInference)
      → Pends (poll_once w Script.next clock timeout l)
      → Waits (round w Script.next clock timeout l)
  unfolding round
  after-poll l (d, e, g) =
      let polled = poll_once w Script.next clock timeout l in
      let (same, said) = note_step-trail w Script.next clock timeout polled in
      watch-Pends (note_step w Script.next clock timeout polled)
        (same ∙ d, note_step-engine w Script.next clock timeout polled ∙ e, said ∙ g)

  hung-acting : (d : GoalDriver) → d ≡ hung objective → is_acting d.state ≡ true → ⊥
  hung-acting d e a = absurd (ground (arith, sym (ap (λ d. is_acting d.state) e) ∙ a))

  round-Waits :
      (l : Loop w ScriptedInference)
      → is_acting l.driver.state ≡ true
      → Waits l
      → Waits (round w Script.next clock timeout l)
  round-Waits l a (inl fresh) = after-poll l (poll_once-Fresh l fresh)
  round-Waits l a (inr (inl pends)) = after-poll l (poll_once-Pends l pends)
  round-Waits l a (inr (inr (d, _, _, _))) = absurd (hung-acting l.driver d a)

  still-acting :
      (l : Loop w ScriptedInference) (d : GoalDriver)
      → l.driver ≡ d
      → is_acting d.state ≡ true
      → is_acting l.driver.state ≡ false
      → ⊥
  still-acting l d e a over = absurd (ground (arith, ap (λ d. is_acting d.state) e ∙ a, over))

  -- The end of a loop over this script: the goal has failed in its second step, whose turn answers
  -- `pending` whatever it is shown; the step is overdue.
  abbrev pub IsHung : Loop w ScriptedInference → Type 0
  IsHung l =
      (l.driver ≡ hung objective)
      × (l.log ≡ hang_events objective)
      × ((ctx : TickContext) → Script.next l.engine ctx ≡ (pending, l.engine))
      × IsOverdue l

  -- A loop over this script that returned, its goal no longer acting, ends like this.
  pub drive_goal-IsHung :
      (fuel : ℕ) (l : Loop w ScriptedInference)
      → drive_goal w Script.next clock timeout fuel objective (new script_hang) ≡ some l
      → is_acting l.driver.state ≡ false
      → IsHung l
  unfolding drive_goal begin new start
  drive_goal-IsHung fuel l e over =
      elim (drive-keeps w Script.next clock timeout Waits round-Waits fuel
        (begin w Script.next clock timeout objective (hang_at 0)) l (inl (refl, refl, refl)) e) [
          | inl (d, _, _) ↦ absurd (still-acting l (start w 1 objective 8).0 d refl over)
          | inr (inl (d, _, _)) ↦ absurd (still-acting l (second objective) d refl over)
          | inr (inr (d, at, g, late)) ↦ (d, g, λ ctx. rw at (next-second ctx), late)
        ]
