-- ===== src/Kernel/Watchdog/Trail.antt =====
-- What the loop leaves behind (kernel/src/agent.rs, `drive_goal`): the goal's laws hold under the
-- watchdog as well, and a goal whose turns never complete fails.
use apex_os_rv.Prelude.{
  ℕ, ◌+◌, ◌*◌, ◌≤◌, ◌<◌, ◌≡◌, ◌≢◌, ◌⊎◌, inl, inr, refl, ap, sym, subst, ◌∙◌, true, none, some, List,
  ◌++◌, ltb, eqb, append-nil, Text, Bool-cases, arith,
}
use apex_os_rv.Protocol.Wire.{Wire, GoalState, GoalId}
use apex_os_rv.Protocol.Event.{Event}
use apex_os_rv.Goal.Driver.{
  GoalDriver, Inference, TickContext, pending, stalled, is_acting, tick_context, start, advance,
}
use apex_os_rv.Goal.Lifecycle.{Reach, started, advanced, advance-pending, stalled_over}
use apex_os_rv.Goal.Trace.{IsTraced, Reach-IsTraced}
use apex_os_rv.Goal.Run.{poll-advance}
use apex_os_rv.Kernel.Watchdog.{
  Loop, mtime, wrapping_sub, poll_once, note_step, watch, round, begin, drive_goal,
}
use apex_os_rv.Kernel.Watchdog.Round.{IsClock}
use apex_os_rv.Kernel.Watchdog.Keeps.{drive-keeps}
use apex_os_rv.Kernel.Watchdog.Liveness.{drive_goal_ends}

none-ne-some : {A : Type 0} (a : A) → none ≢ some a
none-ne-some a e = ground arith

module _ (w : Wire) {S : Type 0} (next : Inference S) (clock : ℕ → ℕ) (timeout : ℕ) where
  -- The parts of a round on the driver and the sink.
  poll_once-Reach :
      {g : GoalId} {o : Text} {n : ℕ} (l : Loop w S)
      → is_acting l.driver.state ≡ true
      → Reach w g o n l.driver l.log
      → Reach w g o n
          (poll_once w next clock timeout l).driver
          (poll_once w next clock timeout l).log
  unfolding poll_once
  poll_once-Reach l a r = rw (poll-advance w next l.driver l.engine a) (advanced _ r)

  pub note_step-trail :
      (l : Loop w S)
      → ((note_step w next clock timeout l).driver ≡ l.driver)
        × ((note_step w next clock timeout l).log ≡ l.log)
  unfolding note_step
  note_step-trail l = elim (Bool-cases (eqb l.driver.step l.last_step)) [
    | inl e ↦ (rw e, rw e)
    | inr e ↦ (rw e, rw e)
  ]

  watch-Reach :
      {g : GoalId} {o : Text} {n : ℕ} (l : Loop w S)
      → Reach w g o n l.driver l.log
      → Reach w g o n (watch w next clock timeout l).driver (watch w next clock timeout l).log
  unfolding watch
  watch-Reach l r = elim (Bool-cases (is_acting l.driver.state)) [
    | inl a ↦ elim (Bool-cases (ltb timeout (wrapping_sub (mtime clock l.reads) l.step_started))) [
      | inl late ↦ rw (a, late) (advanced stalled r)
      | inr early ↦ rw (a, early) r
    ]
    | inr a ↦ rw a r
  ]

  round-Reach :
      {g : GoalId} {o : Text} {n : ℕ} (l : Loop w S)
      → is_acting l.driver.state ≡ true
      → Reach w g o n l.driver l.log
      → Reach w g o n (round w next clock timeout l).driver (round w next clock timeout l).log
  unfolding round
  round-Reach {g} {o} {n} l a r =
      let polled = poll_once w next clock timeout l in
      watch-Reach (note_step w next clock timeout polled)
        (rw ((note_step-trail polled).0, (note_step-trail polled).1) (poll_once-Reach l a r))

  -- Whatever the inference answers and the clock shows, when the loop returns: the events on the
  -- sink are the goal's own, one more than the driver's step counts where the goal has left
  -- `Acting`, the newest shows the driver's state, and the step is within the eight of the
  -- budget.
  pub drive_goal-IsTraced :
      (objective : Text) (s : S) (fuel : ℕ) (l : Loop w S)
      → drive_goal w next clock timeout fuel objective s ≡ some l
      → IsTraced w 1 objective 8 l.driver l.log
  unfolding drive_goal begin
  drive_goal-IsTraced objective s fuel l e = Reach-IsTraced w 1 objective 8 (
      drive-keeps w next clock timeout (λ l. Reach w 1 objective 8 l.driver l.log) round-Reach fuel
        (begin w next clock timeout objective s) l started e)

  pub note_step-engine : (l : Loop w S) → (note_step w next clock timeout l).engine ≡ l.engine
  unfolding note_step
  note_step-engine l = elim (Bool-cases (eqb l.driver.step l.last_step)) [
    | inl e ↦ rw e refl
    | inr e ↦ rw e refl
  ]

  module _ (Waits : S → Type 0)
      (hangs : (s : S) (ctx : TickContext)
        → Waits s
        → ((next s ctx).0 ≡ pending) × Waits (next s ctx).1) where
    -- The loop of a goal that waits since its start, or was failed for it.
    abbrev Hung : GoalDriver → List (Event w) → Loop w S → Type 0
    Hung d log l =
        Waits l.engine
        × (((l.driver ≡ d) × (l.log ≡ log))
            ⊎ ((l.driver ≡ (advance w d stalled).0) × (l.log ≡ log ++ (advance w d stalled).1)))

    watch-Hung :
        (d : GoalDriver) (log : List (Event w)) (l : Loop w S)
        → l.driver ≡ d
        → l.log ≡ log
        → Waits l.engine
        → Hung d log (watch w next clock timeout l)
    unfolding watch
    watch-Hung d log l e f wait = elim (Bool-cases (is_acting l.driver.state)) [
      | inl a ↦
          elim (Bool-cases (ltb timeout (wrapping_sub (mtime clock l.reads) l.step_started))) [
            | inl late ↦
                rw (a, late) (wait, inr (ap (λ d. (advance w d stalled).0) e, rw (e, f) refl))
            | inr early ↦ rw (a, early) (wait, inl (e, f))
          ]
      | inr a ↦ rw a (wait, inl (e, f))
    ]

    poll_once-hung :
        (l : Loop w S)
        → is_acting l.driver.state ≡ true
        → Waits l.engine
        → ((poll_once w next clock timeout l).driver ≡ l.driver)
          × ((poll_once w next clock timeout l).log ≡ l.log)
          × Waits (poll_once w next clock timeout l).engine
    unfolding poll_once
    poll_once-hung l a wait =
        let (quiet, still) = hangs l.engine (tick_context l.driver) wait in
        rw (poll-advance w next l.driver l.engine a, quiet, advance-pending w l.driver)
          (refl, append-nil l.log, still)

    round-Hung :
        (d : GoalDriver) (log : List (Event w)) (l : Loop w S)
        → is_acting l.driver.state ≡ true
        → Hung d log l
        → Hung d log (round w next clock timeout l)
    unfolding round
    round-Hung d log l a (wait, inl (e, f)) =
        let polled = poll_once w next clock timeout l in
        let (e', f') = note_step-trail polled in
        let (e'', f'', still) = poll_once-hung l a wait in
        watch-Hung d log (note_step w next clock timeout polled) (e' ∙ e'' ∙ e) (f' ∙ f'' ∙ f)
          (subst Waits (sym (note_step-engine polled)) still)
    round-Hung d log l a (wait, inr (e, f)) =
        absurd (ground (arith, a, stalled_over w d, ap (λ d. is_acting d.state) e))

    -- With an inference that is in a state from which its turns never complete, a clock that ticks with
    -- gaps of less than half its range, a timeout below half the range, and fuel for nine timeouts: what
    -- `drive_goal-hang` says, and the inference is still in such a state.
    pub drive_goal-Waits :
        (objective : Text) (fuel : ℕ) (s : S)
        → Waits s
        → IsClock clock
        → timeout < 9223372036854775808
        → 9 * (timeout + 2) ≤ fuel
        → let (d, events) = start w 1 objective 8 in
          let (d', more) = advance w d stalled in
          (l : Loop w S) × (drive_goal w next clock timeout fuel objective s ≡ some l)
          × (l.driver ≡ d')
          × (d'.state ≡ GoalState.failed)
          × (l.log ≡ events ++ more)
          × Waits l.engine
    unfolding drive_goal begin
    drive_goal-Waits objective fuel s wait c short enough =
        let (d, events) = start w 1 objective 8 in
        let (l, returns, over) =
          drive_goal_ends w next clock timeout c short objective s fuel enough in
        let (still, end) =
          drive-keeps w next clock timeout (Hung d events) (round-Hung d events) fuel
            (begin w next clock timeout objective s) l (wait, inl (refl, refl)) returns in
        elim end [
          | inl (e, f) ↦
              absurd (unfold start in ground (arith, over, ap (λ d. is_acting d.state) e))
          | inr (e, f) ↦ (l, returns, e, unfold advance start in refl, f, still)
        ]

  module _ (hangs : (s : S) (ctx : TickContext) → (next s ctx).0 ≡ pending) where
    -- With an inference whose turns never complete, a clock that ticks with gaps of less than
    -- half its range, a timeout below half the range, and fuel for nine timeouts: the loop
    -- returns, the driver is what a stalled turn makes of the started one, which has failed, and
    -- the sink holds the events of the start and of that stall.
    pub drive_goal-hang :
        (objective : Text) (fuel : ℕ) (s : S)
        → IsClock clock
        → timeout < 9223372036854775808
        → 9 * (timeout + 2) ≤ fuel
        → let (d, events) = start w 1 objective 8 in
          let (d', more) = advance w d stalled in
          (l : Loop w S) × (drive_goal w next clock timeout fuel objective s ≡ some l)
          × (l.driver ≡ d')
          × (d'.state ≡ GoalState.failed)
          × (l.log ≡ events ++ more)
    drive_goal-hang objective fuel s c short enough =
        let (l, returns, d, failed, log, _) =
          drive_goal-Waits (λ s. Unit {0}) (λ s ctx _. (hangs s ctx, tt)) objective fuel s tt c
            short enough in
        (l, returns, d, failed, log)
