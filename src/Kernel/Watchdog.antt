-- ===== src/Kernel/Watchdog.antt =====
-- The cooperative loop with its stall watchdog (kernel/src/agent.rs, `drive_goal`; the timer is that
-- of kernel/src/time.rs). The clock is a parameter: reading number `k` of `mtime` is `clock k` modulo
-- 2^64. What the loop asks of the hardware besides, to wake it at a deadline, is recorded.
pub mod Round
pub mod Liveness
pub mod Trail
pub mod Transparent
pub mod Calm
pub mod Patient
pub mod Polls
pub mod Keeps
use apex_os_rv.Prelude.{
  ℕ, zero, suc, ◌+◌, ◌-◌, ◌*◌, ◌/◌, ◌%◌, ◌^◌, Bool, true, false, not, Option, none, some, List, [],
  ◌∷◌, ◌++◌, Text, codes, ltb, eqb, unwrap_or, if◌then◌else◌,
}
use apex_os_rv.Protocol.Wire.{Wire, GoalState}
use apex_os_rv.Protocol.Event.{Event}
use apex_os_rv.Goal.Driver.{GoalDriver, TurnResult, Inference, is_acting, start, advance, poll}

abbrev pub u64_mod : ℕ
u64_mod = 18446744073709551616

abbrev pub u64 : ℕ → ℕ
u64 n = n % u64_mod

-- `u64::wrapping_sub`
unfoldable pub wrapping_sub : ℕ → ℕ → ℕ
wrapping_sub a b = (a + u64_mod - b) % u64_mod

abbrev pub ticks_per_sec : ℕ
ticks_per_sec = 10000000

-- The build-time override, as parsed, in seconds.
abbrev pub step_timeout_ticks : Option ℕ → ℕ
step_timeout_ticks secs = u64 (unwrap_or secs 2 * ticks_per_sec)

abbrev pub idle_quantum_ticks : ℕ
idle_quantum_ticks = ticks_per_sec / 100

-- The variables of the loop, the sink, the number of readings of the clock so far, and the
-- deadlines that were armed, newest last.
pub record Loop (w : Wire) (S : Type 0) : Type 0 where
  pub driver : GoalDriver
  pub engine : S
  pub log : List (Event w)
  pub polls : ℕ  -- u64
  pub last_step : ℕ  -- u32
  pub step_started : ℕ  -- u64
  pub reads : ℕ
  pub wakeups : List ℕ

-- `time::mtime`, reading number `k`.
abbrev pub mtime : (ℕ → ℕ) → ℕ → ℕ
mtime clock k = u64 (clock k)

module _ (w : Wire) {S : Type 0} (next : Inference S) (clock : ℕ → ℕ) (timeout : ℕ) where
  -- `polls += 1; driver.poll(inf, &mut emit);`
  unfoldable pub poll_once : Loop w S → Loop w S
  poll_once l =
      let (d, s, events) = poll w next l.driver l.engine in
      record l { driver = d; engine = s; log = l.log ++ events; polls = u64 (l.polls + 1) }

  -- A new step restarts the stall clock.
  unfoldable pub note_step : Loop w S → Loop w S
  note_step l =
      if not (eqb l.driver.step l.last_step)
      then record l {
        last_step = l.driver.step;
        step_started = mtime clock l.reads;
        reads = l.reads + 1;
      }
      else l

  -- The watchdog, while the goal is acting: it fails a quiet step, or the loop idles.
  unfoldable pub watch : Loop w S → Loop w S
  watch l =
      let now = mtime clock l.reads in
      let (d, events) = advance w l.driver TurnResult.stalled in
      if is_acting l.driver.state
      then (if ltb timeout (wrapping_sub now l.step_started)
          then record l { driver = d; log = l.log ++ events; reads = l.reads + 1 }
          else record l {
            reads = l.reads + 1;
            wakeups = l.wakeups ++ u64 (now + idle_quantum_ticks) ∷ [];
          })
      else l

  -- The body of the `while` loop.
  unfoldable pub round : Loop w S → Loop w S
  round l = watch (note_step (poll_once l))

  unfoldable pub drive : ℕ → Loop w S → Option (Loop w S)
  drive zero l = if is_acting l.driver.state then none else some l
  drive (suc fuel) l =
      let rest = drive fuel (round l) in if is_acting l.driver.state then rest else some l

  -- What stands above the loop: goal 1 with eight steps, and the first reading of the clock.
  unfoldable pub begin : Text → S → Loop w S
  unfolding start
  begin objective s =
      let (d, events) = start w 1 objective 8 in
      record {
        driver = d;
        engine = s;
        log = events;
        polls = 0;
        last_step = d.step;
        step_started = mtime clock 0;
        reads = 1;
        wakeups = [];
      }

  -- The loop as a whole; the source returns whether the goal ended `Done`.
  unfoldable pub drive_goal : ℕ → Text → S → Option (Loop w S)
  drive_goal fuel objective s = drive fuel (begin objective s)

abbrev pub is_done : GoalState → Bool
is_done GoalState.done = true
is_done _ = false
