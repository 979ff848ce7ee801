-- ===== src/Kernel/Watchdog/Polls.antt =====
-- The count of the loop (kernel/src/agent.rs, `drive_goal`): where turns complete, every poll makes a
-- transition.
use apex_os_rv.Prelude.{
  ℕ, suc, ◌+◌, ◌≤◌, ◌≡◌, refl, sym, subst, ◌∙◌, true, some, Text, arith, if◌then◌else◌,
}
use apex_os_rv.Protocol.Wire.{Wire}
use apex_os_rv.Goal.Driver.{GoalDriver, Inference, is_acting, tick_context}
use apex_os_rv.Goal.Lifecycle.{start-IsValid}
use apex_os_rv.Goal.Trace.{advance-Moves}
use apex_os_rv.Goal.Run.{Completes}
use apex_os_rv.Kernel.Watchdog.{Loop, u64, poll_once, note_step, watch, round, begin, drive_goal}
use apex_os_rv.Kernel.Watchdog.Keeps.{drive-keeps, drive-over_when}
use apex_os_rv.Kernel.Watchdog.Round.{IsClock}
use apex_os_rv.Kernel.Watchdog.Transparent.{IsNoted, round-Onward}

module _ (w : Wire) {S : Type 0} (next : Inference S) (clock : ℕ → ℕ) (timeout : ℕ) where
  note_step-polls : (l : Loop w S) → (note_step w next clock timeout l).polls ≡ l.polls
  unfolding note_step
  note_step-polls l = ground arith

  watch-polls : (l : Loop w S) → (watch w next clock timeout l).polls ≡ l.polls
  unfolding watch
  watch-polls l = ground arith

  round-polls : (l : Loop w S) → (round w next clock timeout l).polls ≡ u64 (l.polls + 1)
  unfolding round poll_once
  round-polls l =
      watch-polls (note_step w next clock timeout (poll_once w next clock timeout l))
      ∙ note_step-polls (poll_once w next clock timeout l)

  -- As many polls as transitions.
  abbrev pub IsTallied : Loop w S → Type 0
  IsTallied l = l.polls + 1 ≡ l.driver.step + (if is_acting l.driver.state then 0 else 1)

  module _ (c : IsClock clock) (quick : (k : ℕ) → clock (suc k) ≤ clock k + timeout) where
    tally :
        (d : GoalDriver) (p q step : ℕ)
        → q ≡ u64 (p + 1)
        → p + 1 ≡ step
        → step ≤ 100
        → d.step + (if is_acting d.state then 0 else 1) ≡ step + 1
        → q + 1 ≡ d.step + (if is_acting d.state then 0 else 1)
    tally d p q step e f h g = omega (arith, e, f, h) ∙ sym g

    abbrev Counts : (S → Type 0) → Loop w S → Type 0
    Counts Ends l = Ends l.engine × IsNoted w next clock timeout l × IsTallied l

    round-Counts :
        (Ends : S → Type 0)
        → Completes next Ends
        → (l : Loop w S) → is_acting l.driver.state ≡ true
        → Counts Ends l
        → Counts Ends (round w next clock timeout l)
    round-Counts Ends completes l a (ends, h, t) =
        let (r, s) = next l.engine (tick_context l.driver) in
        let (d, m) =
          advance-Moves w l.driver r h.valid a
            (completes.ends l.engine (tick_context l.driver) ends) in
        let o = round-Onward w next clock timeout c quick l r s d a h refl m in
        (
          subst Ends (sym o.same_engine) (completes.keeps l.engine (tick_context l.driver) ends),
          o.noted,
          subst
              (λ x.
                (round w next clock timeout l).polls + 1
                ≡ x.step + (if is_acting x.state then 0 else 1))
              (sym o.same_driver)
              (tally d l.polls (round w next clock timeout l).polls l.driver.step (round-polls l)
                (ground arith) (omega (arith, h.valid.in_budget, h.valid.capped)) m.counted),
        )

    -- With an inference whose turns complete, a clock that ticks with gaps of less than half its
    -- range, and no more than the timeout between two readings: a loop that returned has polled
    -- as often as its goal has steps.
    pub drive_goal-polls :
        {Ends : S → Type 0} (objective : Text) (s : S) (fuel : ℕ) (l : Loop w S)
        → Completes next Ends
        → Ends s
        → drive_goal w next clock timeout fuel objective s ≡ some l
        → l.polls ≡ l.driver.step
    unfolding drive_goal begin
    drive_goal-polls {Ends} objective s fuel l completes ends e =
        let (_, _, t) =
          drive-keeps w next clock timeout (Counts Ends) (round-Counts Ends completes) fuel
            (begin w next clock timeout objective s) l
            (ends, record { valid = start-IsValid w 1 objective 8; at_step = λ _. refl }, refl) e in
        let over =
          drive-over_when w next clock timeout fuel (begin w next clock timeout objective s) l e in
        ground (arith, t, over)
