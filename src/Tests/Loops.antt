-- ===== src/Tests/Loops.antt =====
-- The kernel's loop, with a clock whose counter wraps.
use apex_os_rv.Prelude.{ℕ, ◌≡◌, refl, false, some, [], arith}
use apex_os_rv.Goal.Driver.{start, run, is_acting}
use apex_os_rv.Goal.Script
use apex_os_rv.Goal.Script.{ScriptedInference, new, script_success}
use apex_os_rv.Goal.Script.Turns.{IsPrompted, next-Completes}
use apex_os_rv.Goal.Trace.{IsTraced}
use apex_os_rv.Kernel.Watchdog.{Loop, watch, drive_goal}
use apex_os_rv.Kernel.Watchdog.Round.{Watched, watch-Watched}
use apex_os_rv.Kernel.Watchdog.Liveness.{drive_goal_ends}
use apex_os_rv.Kernel.Watchdog.Trail.{drive_goal-IsTraced}
use apex_os_rv.Kernel.Watchdog.Transparent.{seen, drive_goal-run}
use apex_os_rv.Tests.Values.{
  plain, objective, acting_driver, hanging, clock, clock-IsClock, timeout,
}

prompted : IsPrompted (new script_success)
unfolding new
prompted = (tt, (tt, (tt, tt)))

drive_goal_ends_example :
    (l : Loop plain ℕ) × (drive_goal plain hanging clock timeout 198 objective 0 ≡ some l)
    × (is_acting l.driver.state ≡ false)
drive_goal_ends_example =
    drive_goal_ends plain hanging clock timeout clock-IsClock (omega arith) objective 0 198
      (omega arith)

drive_goal-run_example :
    seen (drive_goal plain Script.next clock timeout 8 objective (new script_success))
    ≡ run plain Script.next 8
        (start plain 1 objective 8).0
        (new script_success)
        (start plain 1 objective 8).1
drive_goal-run_example =
    drive_goal-run plain Script.next clock timeout clock-IsClock (λ k. omega arith)
      {Ends = IsPrompted} objective (new script_success) 8 next-Completes prompted

-- The step began at the first reading; the second finds it not overdue, and the loop waits.
abbrev waiting : Loop plain ℕ
waiting = record {
  driver = acting_driver;
  engine = 0;
  log = [];
  polls = 1;
  last_step = 2;
  step_started = 18446744073709551600;
  reads = 1;
  wakeups = [];
}

watch-Watched_example :
    Watched plain hanging clock timeout waiting (watch plain hanging clock timeout waiting) 0 0
watch-Watched_example =
    watch-Watched plain hanging clock timeout waiting 0 0 clock-IsClock (omega arith) refl
      (record { reads = refl; stamp = refl; order = omega arith; quiet = omega arith })

-- The loop that the hanging inference leaves.
returned :
    (l : Loop plain ℕ) × (drive_goal plain hanging clock timeout 198 objective 0 ≡ some l)
    × (is_acting l.driver.state ≡ false)
returned =
    drive_goal_ends plain hanging clock timeout clock-IsClock (omega arith) objective 0 198
      (omega arith)

drive_goal-IsTraced_example : IsTraced plain 1 objective 8 returned.0.driver returned.0.log
drive_goal-IsTraced_example =
    drive_goal-IsTraced plain hanging clock timeout objective 0 198 returned.0 returned.1
