-- ===== src/Kernel/Watchdog/Calm.antt =====
-- Rounds of the loop in which the watchdog is quiet (kernel/src/agent.rs, `drive_goal`).
use apex_os_rv.Prelude.{
  ℕ, suc, ◌+◌, ◌≤◌, ◌<◌, ◌≡◌, ◌≢◌, inl, inr, refl, ap, subst, ◌∙◌, true, List, [], ◌∷◌, ◌++◌,
  append-nil, Bool-cases, arith,
}
use apex_os_rv.Protocol.Wire.{Wire}
use apex_os_rv.Protocol.Event.{Event}
use apex_os_rv.Goal.Driver.{
  GoalDriver, emit_state, TurnResult, Inference, pending, is_acting, tick_context, advance,
}
use apex_os_rv.Goal.Lifecycle.{IsValid, advance-IsValid, advance-pending}
use apex_os_rv.Goal.Trace.{advance-Moves}
use apex_os_rv.Kernel.Watchdog.{Loop, u64_mod, mtime, wrapping_sub, round}
use apex_os_rv.Kernel.Watchdog.Round.{
  IsClock, IsTimed, wrapping_sub-elapsed, note_step-same, note_step-new, watch-over, watch-early,
}
use apex_os_rv.Kernel.Watchdog.Liveness.{polled, poll_once-eq, stepped, unstepped}

module _ (w : Wire) {S : Type 0} (next : Inference S) (clock : ℕ → ℕ) (timeout : ℕ) where
  -- The step in flight has `room` more time before it is overdue.
  pub record HasRoom (room : ℕ) (l : Loop w S) : Type 0 where
    pub at_step : l.driver.step ≡ l.last_step
    pub last : ℕ
    pub began : ℕ
    pub timed : IsTimed w next clock timeout l last began
    pub room_left : clock last + room ≤ clock began + timeout

  -- The loop between two rounds.
  pub record Stands (room : ℕ) (d : GoalDriver) (s : S) (log : List (Event w)) (l : Loop w S)
      : Type 0 where
    pub same_driver : l.driver ≡ d
    pub same_engine : l.engine ≡ s
    pub same_log : l.log ≡ log
    pub valid : IsValid l.driver
    pub acting : is_acting l.driver.state ≡ true → HasRoom room l

  module _ (c : IsClock clock) (short : timeout < u64_mod) (gap : ℕ)
      (quick : (k : ℕ) → clock (suc k) ≤ clock k + gap) where
    elapsed :
        (l : Loop w S) (last began : ℕ)
        → IsTimed w next clock timeout l last began
        → clock last + gap ≤ clock began + timeout
        → wrapping_sub (mtime clock l.reads) l.step_started ≤ timeout
    elapsed l last began t fits =
        rw (t.reads, t.stamp)
          (rw
            (wrapping_sub-elapsed (clock began) (clock (suc last))
              (omega (arith, t.order, c.ticks last)) (omega (arith, quick last)))
            (omega (arith, quick last)))

    -- A pending round uses up one gap of the room.
    pub round-waits :
        (room : ℕ) (s s' : S) (l : Loop w S)
        → is_acting l.driver.state ≡ true
        → Stands (gap + room) l.driver s l.log l
        → next s (tick_context l.driver) ≡ (pending, s')
        → Stands room l.driver s' l.log (round w next clock timeout l)
    unfolding round
    round-waits room s s' l a h e =
        let o = h.acting a in
        let p = polled w next clock timeout l l.driver s' [] in
        let t : IsTimed w next clock timeout p o.last o.began = record {
          reads = o.timed.reads;
          stamp = o.timed.stamp;
          order = o.timed.order;
          quiet = o.timed.quiet;
        } in
        rw
          (
            poll_once-eq w next clock timeout l pending s' l.driver [] a
                (ap (λ x. next x (tick_context l.driver)) h.same_engine ∙ e)
                (advance-pending w l.driver),
            note_step-same w next clock timeout p o.at_step,
            watch-early w next clock timeout p a
                (elapsed p o.last o.began t (omega (arith, o.room_left))),
          )
          (record {
            same_driver = refl;
            same_engine = refl;
            same_log = append-nil l.log;
            valid = h.valid;
            acting = λ on. record {
              at_step = o.at_step;
              last = suc o.last;
              began = o.began;
              timed = record {
                reads = omega (arith, o.timed.reads);
                stamp = o.timed.stamp;
                order = omega (arith, o.timed.order, c.ticks o.last);
                quiet = omega (arith, quick o.last, o.room_left);
              };
              room_left = omega (arith, quick o.last, o.room_left);
            };
          })

    -- A round that the engine answers gives the next step the whole timeout but a gap.
    pub round-answers :
        (room room' : ℕ) (s s' : S) (r : TurnResult) (l : Loop w S)
        → gap + room' ≤ timeout
        → is_acting l.driver.state ≡ true
        → Stands room l.driver s l.log l
        → next s (tick_context l.driver) ≡ (r, s')
        → r ≢ pending
        → Stands room'
            (advance w l.driver r).0
            s'
            (l.log ++ (advance w l.driver r).1)
            (round w next clock timeout l)
    unfolding round
    round-answers room room' s s' r l fits a h e ne =
        let (d, m) = advance-Moves w l.driver r h.valid a ne in
        let v = subst (λ x. IsValid x.0) m.result (advance-IsValid w l.driver r h.valid) in
        let events = emit_state w d m.detail ∷ [] in
        let p = polled w next clock timeout l d s' events in
        let k = (h.acting a).last in
        let known = (h.acting a).timed.reads in
        rw
          (
            poll_once-eq w next clock timeout l r s' d events a
                (ap (λ x. next x (tick_context l.driver)) h.same_engine ∙ e) m.result,
            m.result,
          )
          (elim (Bool-cases (is_acting d.state)) [
            | inl on ↦
                let noted : Loop w S = record p {
                  last_step = d.step;
                  step_started = mtime clock l.reads;
                  reads = l.reads + 1;
                } in
                let t : IsTimed w next clock timeout noted (suc k) (suc k) = record {
                  reads = omega (arith, known);
                  stamp = ap (mtime clock) known;
                  order = omega arith;
                  quiet = omega arith;
                } in
                rw
                  (
                    note_step-new w next clock timeout p
                        (stepped l.driver d on m.counted (h.acting a).at_step),
                    watch-early w next clock timeout noted on
                        (elapsed noted (suc k) (suc k) t (omega arith)),
                  )
                  (record {
                    same_driver = refl;
                    same_engine = refl;
                    same_log = refl;
                    valid = v;
                    acting = λ _. record {
                      at_step = refl;
                      last = suc (suc k);
                      began = suc k;
                      timed = record {
                        reads = omega (arith, known);
                        stamp = ap (mtime clock) known;
                        order = omega (arith, c.ticks (suc k));
                        quiet = omega (arith, quick (suc k));
                      };
                      room_left = omega (arith, quick (suc k));
                    };
                  })
            | inr off ↦
                rw
                  (
                    note_step-same w next clock timeout p
                        (unstepped l.driver d off m.counted (h.acting a).at_step),
                    watch-over w next clock timeout p off,
                  )
                  (record {
                    same_driver = refl;
                    same_engine = refl;
                    same_log = refl;
                    valid = v;
                    acting = λ on. absurd (ground arith);
                  })
          ])

    pub along :
        {room : ℕ} {d d' : GoalDriver} {s : S} {log log' : List (Event w)} {l : Loop w S}
        → d ≡ d'
        → log ≡ log'
        → Stands room d s log l
        → Stands room d' s log' l
    along e f h = record {
      same_driver = h.same_driver ∙ e;
      same_engine = h.same_engine;
      same_log = h.same_log ∙ f;
      valid = h.valid;
      acting = h.acting;
    }

    pub narrow :
        {room room' : ℕ} {d : GoalDriver} {s : S} {log : List (Event w)} {l : Loop w S}
        → room' ≤ room
        → Stands room d s log l
        → Stands room' d s log l
    narrow less h = record {
      same_driver = h.same_driver;
      same_engine = h.same_engine;
      same_log = h.same_log;
      valid = h.valid;
      acting = λ a.
          let o = h.acting a in
          record {
            at_step = o.at_step;
            last = o.last;
            began = o.began;
            timed = o.timed;
            room_left = omega (arith, o.room_left, less);
          };
    }

    pub acts :
        {room : ℕ} {d : GoalDriver} {s : S} {log : List (Event w)} (l : Loop w S)
        → Stands room d s log l
        → is_acting d.state ≡ true
        → is_acting l.driver.state ≡ true
    acts l h a = ap (λ d. is_acting d.state) h.same_driver ∙ a
