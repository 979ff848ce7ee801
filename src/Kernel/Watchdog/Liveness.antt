-- ===== src/Kernel/Watchdog/Liveness.antt =====
-- The loop ends for every inference, also for one whose turns never complete
-- (kernel/src/agent.rs, `drive_goal`).
use apex_os_rv.Prelude.{
  ℕ, zero, suc, ◌+◌, ◌-◌, ◌*◌, ◌≤◌, ◌<◌, ◌≡◌, ◌≢◌, ◌⊎◌, inl, inr, refl, ap, subst, ◌∙◌, true, false,
  some, List, [], ◌∷◌, ◌++◌, Text, Bool-cases, arith, if◌then◌else◌,
}
use apex_os_rv.Protocol.Wire.{Wire}
use apex_os_rv.Protocol.Event.{Event}
use apex_os_rv.Goal.Driver.{
  GoalDriver, emit_state, TurnResult, Inference, pending, is_acting, tick_context, advance,
}
use apex_os_rv.Goal.Lifecycle.{
  IsValid, advance-IsValid, start-IsValid, advance-pending, stalled_over,
}
use apex_os_rv.Goal.Trace.{advance-Moves}
use apex_os_rv.Goal.Run.{potential, poll-advance, advance-potential}
use apex_os_rv.Kernel.Watchdog.{Loop, u64, mtime, poll_once, watch, round, begin, drive, drive_goal}
use apex_os_rv.Kernel.Watchdog.Round.{
  IsClock, IsTimed, fired, idled, pending-cases, watch-over, watch-Watched, note_step-same,
  note_step-new, drive-suc, drive-over,
}

pub stepped :
    (d d' : GoalDriver) {step : ℕ}
    → is_acting d'.state ≡ true
    → d'.step + (if is_acting d'.state then 0 else 1) ≡ d.step + 1
    → d.step ≡ step
    → d'.step ≢ step
stepped d d' on e f = ground arith

pub unstepped :
    (d d' : GoalDriver) {step : ℕ}
    → is_acting d'.state ≡ false
    → d'.step + (if is_acting d'.state then 0 else 1) ≡ d.step + 1
    → d.step ≡ step
    → d'.step ≡ step
unstepped d d' over e f = ground arith

room : (p q t : ℕ) → p < q → p * (t + 2) + (t + 1) < q * (t + 2)
room p q t h = grind arith

module _ (w : Wire) {S : Type 0} (next : Inference S) (clock : ℕ → ℕ) (timeout : ℕ) where
  -- What holds of the loop between two rounds while the goal is acting.
  pub record IsOnTime (l : Loop w S) : Type 0 where
    pub valid : IsValid l.driver
    pub at_step : l.driver.step ≡ l.last_step
    pub last : ℕ
    pub began : ℕ
    pub timed : IsTimed w next clock timeout l last began

  -- The transitions left, each with time for a whole step, and the time that this step has left.
  abbrev pub left : (l : Loop w S) → IsOnTime l → ℕ
  left l h = potential l.driver * (timeout + 2) + (clock h.began + timeout + 1 - clock h.last)

  abbrev Progress : Loop w S → ℕ → Type 0
  Progress l' bound =
      (is_acting l'.driver.state ≡ false) ⊎ ((h : IsOnTime l') × (left l' h < bound))

  abbrev pub polled : Loop w S → GoalDriver → S → List (Event w) → Loop w S
  polled l d s events = record l {
    driver = d;
    engine = s;
    log = l.log ++ events;
    polls = u64 (l.polls + 1);
  }

  pub poll_once-eq :
      (l : Loop w S) (r : TurnResult) (s : S) (d : GoalDriver) (events : List (Event w))
      → is_acting l.driver.state ≡ true
      → next l.engine (tick_context l.driver) ≡ (r, s)
      → advance w l.driver r ≡ (d, events)
      → poll_once w next clock timeout l ≡ polled l d s events
  unfolding poll_once
  poll_once-eq l r s d events a e f = rw (poll-advance w next l.driver l.engine a, e, f)

  widen : (l : Loop w S) (b b' : ℕ) → b ≤ b' → Progress l b → Progress l b'
  widen l b b' h (inl over) = inl over
  widen l b b' h (inr (o, less)) = inr (o, omega arith)

  module _ (c : IsClock clock) (short : timeout < 9223372036854775808) where
    -- The watchdog after a poll: it ends the goal, or time of the step is used up.
    watch-Progress :
        (l : Loop w S) (last began : ℕ)
        → is_acting l.driver.state ≡ true
        → IsValid l.driver
        → l.driver.step ≡ l.last_step
        → IsTimed w next clock timeout l last began
        → Progress
            (watch w next clock timeout l)
            (potential l.driver * (timeout + 2) + (clock began + timeout + 1 - clock last))
    watch-Progress l last began a v e t =
        elim (watch-Watched w next clock timeout l last began c short a t) [
          | fired late d ↦ inl (rw d (stalled_over w l.driver))
          | idled d s t' ↦ inr (
            record {
              valid = rw d v;
              at_step = rw (d, s) e;
              last = suc last;
              began = began;
              timed = t';
            },
            rw d (omega (arith, c.ticks last, t.quiet)),
          )
        ]

    quiet_round :
        (l : Loop w S) (s : S)
        → (h : IsOnTime l) → is_acting l.driver.state ≡ true
        → next l.engine (tick_context l.driver) ≡ (pending, s)
        → Progress (round w next clock timeout l) (left l h)
    unfolding round
    quiet_round l s h a e =
        rw
          (
            poll_once-eq l pending s l.driver [] a e (advance-pending w l.driver),
            note_step-same w next clock timeout (polled l l.driver s []) h.at_step,
          )
          (watch-Progress (polled l l.driver s []) h.last h.began a h.valid h.at_step (record {
            reads = h.timed.reads;
            stamp = h.timed.stamp;
            order = h.timed.order;
            quiet = h.timed.quiet;
          }))

    busy_round :
        (l : Loop w S) (r : TurnResult) (s : S)
        → (h : IsOnTime l) → is_acting l.driver.state ≡ true
        → next l.engine (tick_context l.driver) ≡ (r, s)
        → r ≢ pending
        → Progress (round w next clock timeout l) (left l h)
    unfolding round
    busy_round l r s h a e p =
        let (d, m) = advance-Moves w l.driver r h.valid a p in
        let v = subst (λ x. IsValid x.0) m.result (advance-IsValid w l.driver r h.valid) in
        let falls =
          subst (λ x. potential x.0 < potential l.driver) m.result
            (advance-potential w l.driver r h.valid a p) in
        let events = emit_state w d m.detail ∷ [] in
        let next_read = suc h.last in
        rw (poll_once-eq l r s d events a e m.result) (elim (Bool-cases (is_acting d.state)) [
          | inl on ↦
              rw
                (note_step-new w next clock timeout (polled l d s events)
                  (stepped l.driver d on m.counted h.at_step))
                (widen _
                  (potential d * (timeout + 2) + (clock next_read + timeout + 1 - clock next_read))
                  (left l h) (omega (arith, room (potential d) (potential l.driver) timeout falls))
                  (watch-Progress
                    (record (polled l d s events) {
                      last_step = d.step;
                      step_started = mtime clock l.reads;
                      reads = l.reads + 1;
                    })
                    next_read next_read on v refl
                    (record {
                      reads = omega (arith, h.timed.reads);
                      stamp = ap (mtime clock) h.timed.reads;
                      order = omega arith;
                      quiet = omega arith;
                    })))
          | inr over ↦
              rw
                (
                  note_step-same w next clock timeout (polled l d s events)
                      (unstepped l.driver d over m.counted h.at_step),
                  watch-over w next clock timeout (polled l d s events) over,
                )
                (inl over)
        ])

    round-Progress :
        (l : Loop w S) (h : IsOnTime l)
        → is_acting l.driver.state ≡ true
        → Progress (round w next clock timeout l) (left l h)
    round-Progress l h a =
        let (r, s) = next l.engine (tick_context l.driver) in
        elim (pending-cases r) [
          | inl quiet ↦ quiet_round l s h a (ap (λ x. (x, s)) quiet)
          | inr ended ↦ busy_round l r s h a refl ended
        ]

    drive_total :
        (fuel : ℕ) (l : Loop w S) (h : IsOnTime l)
        → left l h < fuel
        → (l' : Loop w S) × (drive w next clock timeout fuel l ≡ some l')
          × (is_acting l'.driver.state ≡ false)
    drive_total zero l h enough = absurd (omega arith)
    drive_total (suc fuel) l h enough = elim (Bool-cases (is_acting l.driver.state)) [
      | inl a ↦ elim (round-Progress l h a) [
        | inl over ↦ (
          round w next clock timeout l,
          drive-suc w next clock timeout fuel l a
              ∙ drive-over w next clock timeout fuel (round w next clock timeout l) over,
          over,
        )
        | inr (o, less) ↦
            let (l', returns, ended) =
              drive_total fuel (round w next clock timeout l) o (omega arith) in
            (l', drive-suc w next clock timeout fuel l a ∙ returns, ended)
      ]
      | inr a ↦ (l, drive-over w next clock timeout (suc fuel) l a, a)
    ]

    -- Whatever the inference answers, also if its turns never complete: with a clock that ticks
    -- with gaps of less than half its range, whose counter may wrap, a timeout below half the
    -- range, and fuel for nine timeouts, the loop returns, and the goal has left `Acting`.
    pub drive_goal_ends :
        (objective : Text) (s : S) (fuel : ℕ)
        → 9 * (timeout + 2) ≤ fuel
        → (l : Loop w S) × (drive_goal w next clock timeout fuel objective s ≡ some l)
          × (is_acting l.driver.state ≡ false)
    unfolding drive_goal begin
    drive_goal_ends objective s fuel enough =
        drive_total fuel (begin w next clock timeout objective s)
          (record {
            valid = start-IsValid w 1 objective 8;
            at_step = refl;
            last = 0;
            began = 0;
            timed = record { reads = refl; stamp = refl; order = omega arith; quiet = omega arith };
          })
          (omega arith)
