-- ===== src/Kernel/Watchdog/Round.antt =====
-- One round of the loop: what the watchdog does, and that every round uses up time or a transition
-- (kernel/src/agent.rs, `drive_goal`).
use apex_os_rv.Prelude.{
  ℕ, zero, suc, ◌+◌, ◌-◌, ◌≤◌, ◌<◌, ◌≡◌, ◌≢◌, ◌⊎◌, inl, inr, refl, true, false, none, some, [], ◌∷◌,
  ◌++◌, Bool-cases, eqb_refl, eqb_ne, ltb, lt→ltb, ltb_of_le, ltb→lt, ltb_false→le, arith,
}
use apex_os_rv.Protocol.Wire.{Wire}
use apex_os_rv.Goal.Driver.{TurnResult, Inference, pending, stalled, is_acting, advance}
use apex_os_rv.Kernel.Watchdog.{
  Loop, u64, u64_mod, wrapping_sub, idle_quantum_ticks, mtime, note_step, watch, round, drive,
}

-- Time passes between two readings, and less than half the range of the counter. The counter itself
-- may wrap.
pub record IsClock (clock : ℕ → ℕ) : Type 0 where
  pub ticks : (k : ℕ) → clock k < clock (suc k)
  pub no_gap : (k : ℕ) → clock (suc k) ≤ clock k + 9223372036854775808

-- What the code computes from two readings is the time between them, also across a wrap.
pub wrapping_sub-elapsed :
    (a b : ℕ) → a ≤ b → b < a + u64_mod → wrapping_sub (u64 b) (u64 a) ≡ b - a
unfolding wrapping_sub
wrapping_sub-elapsed a b h k = omega arith

pub pending-cases : (r : TurnResult) → (r ≡ pending) ⊎ (r ≢ pending)
pending-cases pending = inl refl
pending-cases r = inr (λ e. cc)

module _ (w : Wire) {S : Type 0} (next : Inference S) (clock : ℕ → ℕ) (timeout : ℕ) where
  pub watch-over :
      (l : Loop w S) → is_acting l.driver.state ≡ false → watch w next clock timeout l ≡ l
  unfolding watch
  watch-over l a = rw a

  -- The watchdog fires exactly when more than the timeout has passed.
  watch-late :
      (l : Loop w S)
      → is_acting l.driver.state ≡ true
      → timeout < wrapping_sub (mtime clock l.reads) l.step_started
      → watch w next clock timeout l ≡ record l {
        driver = (advance w l.driver stalled).0;
        log = l.log ++ (advance w l.driver stalled).1;
        reads = l.reads + 1;
      }
  unfolding watch
  watch-late l a h = rw (a, lt→ltb _ _ h)

  pub watch-early :
      (l : Loop w S)
      → is_acting l.driver.state ≡ true
      → wrapping_sub (mtime clock l.reads) l.step_started ≤ timeout
      → watch w next clock timeout l ≡ record l {
        reads = l.reads + 1;
        wakeups = l.wakeups ++ u64 (mtime clock l.reads + idle_quantum_ticks) ∷ [];
      }
  unfolding watch
  watch-early l a h = rw (a, ltb_of_le _ _ h)

  -- The readings so far, and the one that the step in flight began with: `last` is the newest.
  pub record IsTimed (l : Loop w S) (last began : ℕ) : Type 0 where
    pub reads : l.reads ≡ suc last
    pub stamp : l.step_started ≡ mtime clock began
    pub order : clock began ≤ clock last
    pub quiet : clock last ≤ clock began + timeout

  -- What the watchdog leaves of an acting driver: it fails it when the step is overdue, and else it
  -- keeps it and has read the clock once more.
  pub data Watched (l l' : Loop w S) (last began : ℕ) : Type 0 where
    fired :
        clock began + timeout < clock (suc last)
        → l'.driver ≡ (advance w l.driver stalled).0
        → Watched l l' last began
    idled :
        l'.driver ≡ l.driver
        → l'.last_step ≡ l.last_step
        → IsTimed l' (suc last) began
        → Watched l l' last began

  -- With a clock that ticks with gaps of less than half its range, a timeout below half the
  -- range, and a loop whose goal is acting and whose step began at the reading `began`, not
  -- overdue at the newest reading `last`: either more than the timeout has passed at the next
  -- reading, and the watchdog has failed the goal, or it has kept the driver and read the clock,
  -- and the step is not overdue at that reading.
  pub watch-Watched :
      (l : Loop w S) (last began : ℕ)
      → IsClock clock
      → timeout < 9223372036854775808
      → is_acting l.driver.state ≡ true
      → IsTimed l last began
      → Watched l (watch w next clock timeout l) last began
  watch-Watched l last began c short a t =
      let elapsed : wrapping_sub (mtime clock l.reads) l.step_started
          ≡ clock (suc last) - clock began =
        rw (t.reads, t.stamp)
          (wrapping_sub-elapsed (clock began) (clock (suc last))
            (omega (arith, t.order, c.ticks last)) (omega (arith, t.quiet, c.no_gap last))) in
      elim (Bool-cases (ltb timeout (clock (suc last) - clock began))) [
        | inl late ↦
            rw (watch-late l a (rw elapsed (ltb→lt _ _ late)))
              (fired (omega (arith, ltb→lt _ _ late)) refl)
        | inr early ↦
            let in_time = ltb_false→le _ _ early in
            rw (watch-early l a (rw elapsed in_time)) (
              idled refl refl (record {
                reads = omega (arith, t.reads);
                stamp = t.stamp;
                order = omega (arith, t.order, c.ticks last);
                quiet = omega (arith, in_time);
              }))
      ]

  pub note_step-same :
      (l : Loop w S) → l.driver.step ≡ l.last_step → note_step w next clock timeout l ≡ l
  unfolding note_step
  note_step-same l e = rw (e, eqb_refl)

  pub note_step-new :
      (l : Loop w S)
      → l.driver.step ≢ l.last_step
      → note_step w next clock timeout l ≡ record l {
        last_step = l.driver.step;
        step_started = mtime clock l.reads;
        reads = l.reads + 1;
      }
  unfolding note_step
  note_step-new l e = rw (eqb_ne _ _ e)

  pub drive-over :
      (fuel : ℕ) (l : Loop w S)
      → is_acting l.driver.state ≡ false
      → drive w next clock timeout fuel l ≡ some l
  unfolding drive
  drive-over zero l a = rw a
  drive-over (suc fuel) l a = rw a

  pub drive-zero :
      (l : Loop w S) → is_acting l.driver.state ≡ true → drive w next clock timeout 0 l ≡ none
  unfolding drive
  drive-zero l a = rw a

  pub drive-suc :
      (fuel : ℕ) (l : Loop w S)
      → is_acting l.driver.state ≡ true
      → drive w next clock timeout (suc fuel) l
        ≡ drive w next clock timeout fuel (round w next clock timeout l)
  unfolding drive
  drive-suc fuel l a = rw a refl
