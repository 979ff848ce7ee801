-- ===== src/Kernel/Watchdog/Transparent.antt =====
-- Where turns complete and rounds are short the watchdog does not show: the loop of the kernel
-- (kernel/src/agent.rs, `drive_goal`) does to the goal what `run` does (agent-core/src/goal.rs).
use native.Mathlib.Numerals.{add-one}
use apex_os_rv.Prelude.{
  ℕ, zero, suc, ◌+◌, ◌≤◌, ◌≡◌, inl, inr, refl, ap, sym, subst, ◌∙◌, true, Option, none, some, List,
  [], ◌∷◌, ◌++◌, Text, Bool-cases, arith,
}
use apex_os_rv.Protocol.Wire.{Wire}
use apex_os_rv.Protocol.Event.{Event}
use apex_os_rv.Goal.Driver.{
  GoalDriver, emit_state, TurnResult, Inference, is_acting, tick_context, start, run,
}
use apex_os_rv.Goal.Lifecycle.{IsValid, advance-IsValid, start-IsValid}
use apex_os_rv.Goal.Trace.{Moves, advance-Moves}
use apex_os_rv.Goal.Run.{Completes, run-suc, run-over}
use apex_os_rv.Kernel.Watchdog.{Loop, mtime, wrapping_sub, round, begin, drive, drive_goal}
use apex_os_rv.Kernel.Watchdog.Round.{
  IsClock, wrapping_sub-elapsed, note_step-same, note_step-new, watch-over, watch-early, drive-zero,
  drive-over, drive-suc,
}
use apex_os_rv.Kernel.Watchdog.Liveness.{polled, poll_once-eq, stepped, unstepped}

-- What the driver's caller sees of a loop that returned.
abbrev pub seen :
    {w : Wire} {S : Type 0} → Option (Loop w S) → Option (GoalDriver × S × List (Event w))
seen none = none
seen (some l) = some (l.driver, l.engine, l.log)

module _ (w : Wire) {S : Type 0} (next : Inference S) (clock : ℕ → ℕ) (timeout : ℕ) where
  -- Between rounds: if the goal is acting, the loop has noted its step.
  pub record IsNoted (l : Loop w S) : Type 0 where
    pub valid : IsValid l.driver
    pub at_step : is_acting l.driver.state ≡ true → l.driver.step ≡ l.last_step

  -- What a round without the watchdog comes to.
  pub record Onward (d : GoalDriver) (s : S) (log : List (Event w)) (l : Loop w S) : Type 0 where
    pub same_driver : l.driver ≡ d
    pub same_engine : l.engine ≡ s
    pub same_log : l.log ≡ log
    pub noted : IsNoted l

  module _ (c : IsClock clock) (quick : (k : ℕ) → clock (suc k) ≤ clock k + timeout) where
    elapsed : (k : ℕ) → wrapping_sub (mtime clock (k + 1)) (mtime clock k) ≤ timeout
    elapsed k =
        rw
          (
            add-one,
            wrapping_sub-elapsed (clock k) (clock (suc k)) (omega (arith, c.ticks k))
                (omega (arith, c.no_gap k)),
          )
          (omega (arith, quick k))

    pub round-Onward :
        (l : Loop w S) (r : TurnResult) (s : S) (d : GoalDriver)
        → is_acting l.driver.state ≡ true
        → IsNoted l
        → next l.engine (tick_context l.driver) ≡ (r, s)
        → (m : Moves w l.driver r d)
        → Onward d s (l.log ++ emit_state w d m.detail ∷ []) (round w next clock timeout l)
    unfolding round
    round-Onward l r s d a h e m =
        let v = subst (λ x. IsValid x.0) m.result (advance-IsValid w l.driver r h.valid) in
        let p = polled w next clock timeout l d s (emit_state w d m.detail ∷ []) in
        rw (poll_once-eq w next clock timeout l r s d (emit_state w d m.detail ∷ []) a e m.result)
          (elim (Bool-cases (is_acting d.state)) [
            | inl on ↦
                rw
                  (
                    note_step-new w next clock timeout p
                        (stepped l.driver d on m.counted (h.at_step a)),
                    watch-early w next clock timeout
                        (record p {
                          last_step = d.step;
                          step_started = mtime clock l.reads;
                          reads = l.reads + 1;
                        })
                        on (elapsed l.reads),
                  )
                  (record {
                    same_driver = refl;
                    same_engine = refl;
                    same_log = refl;
                    noted = record { valid = v; at_step = λ _. refl };
                  })
            | inr over ↦
                rw
                  (
                    note_step-same w next clock timeout p
                        (unstepped l.driver d over m.counted (h.at_step a)),
                    watch-over w next clock timeout p over,
                  )
                  (record {
                    same_driver = refl;
                    same_engine = refl;
                    same_log = refl;
                    noted = record { valid = v; at_step = λ on. absurd (ground arith) };
                  })
          ])

    drive-run :
        {Ends : S → Type 0} (fuel : ℕ) (l : Loop w S)
        → Completes next Ends
        → Ends l.engine
        → IsNoted l
        → seen (drive w next clock timeout fuel l) ≡ run w next fuel l.driver l.engine l.log
    unfolding run
    drive-run zero l completes ends h = elim (Bool-cases (is_acting l.driver.state)) [
      | inl a ↦ rw (drive-zero w next clock timeout l a) (rw a)
      | inr a ↦ rw (drive-over w next clock timeout 0 l a) (rw a)
    ]
    drive-run {Ends} (suc fuel) l completes ends h = elim (Bool-cases (is_acting l.driver.state)) [
      | inl a ↦
          let (r, s) = next l.engine (tick_context l.driver) in
          let (d, m) =
            advance-Moves w l.driver r h.valid a
              (completes.ends l.engine (tick_context l.driver) ends) in
          let log = l.log ++ emit_state w d m.detail ∷ [] in
          let o = round-Onward l r s d a h refl m in
          let still =
            subst Ends (sym o.same_engine)
              (completes.keeps l.engine (tick_context l.driver) ends) in
          let l' = round w next clock timeout l in
          ap seen (drive-suc w next clock timeout fuel l a)
          ∙ drive-run fuel l' completes still o.noted
          ∙ ap (λ d. run w next fuel d l'.engine l'.log) o.same_driver
          ∙ ap (λ s. run w next fuel d s l'.log) o.same_engine
          ∙ ap (run w next fuel d s) o.same_log
          ∙ sym (
              run-suc w next fuel l.driver d l.engine s r l.log (emit_state w d m.detail ∷ []) a
                refl m.result)
      | inr a ↦
          ap seen (drive-over w next clock timeout (suc fuel) l a)
          ∙ sym (run-over w next (suc fuel) l.driver l.engine l.log a)
    ]

    -- With an inference whose turns complete, a clock that ticks with gaps of less than half its
    -- range, and no more than the timeout between two readings: the loop of the kernel returns
    -- what `run` returns for goal 1 with eight steps and the same fuel, the driver, the engine
    -- and the events.
    pub drive_goal-run :
        {Ends : S → Type 0} (objective : Text) (s : S) (fuel : ℕ)
        → Completes next Ends
        → Ends s
        → let (d, events) = start w 1 objective 8 in
          seen (drive_goal w next clock timeout fuel objective s) ≡ run w next fuel d s events
    unfolding drive_goal begin
    drive_goal-run objective s fuel completes ends =
        drive-run fuel (begin w next clock timeout objective s) completes ends
          (record { valid = start-IsValid w 1 objective 8; at_step = λ _. refl })
