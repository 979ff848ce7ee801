-- ===== src/Kernel/Agent/Exit.antt =====
-- The kernel's exit word against what the goal came to (kernel/src/main.rs, kernel/src/agent.rs).
use apex_os_rv.Prelude.{
  ℕ, zero, suc, ◌+◌, ◌*◌, ◌≤◌, ◌<◌, ◌≡◌, refl, ap, ◌∙◌, true, false, Option, none, some, Text,
  arith, if◌then◌else◌,
}
use apex_os_rv.Map
use apex_os_rv.Protocol.Wire.{Wire}
use apex_os_rv.Protocol.Session.{is_root, root}
use apex_os_rv.Goal.Driver.{
  GoalDriver, Inference, TickContext, pending, is_acting, start, advance, run, tick_context, poll,
}
use apex_os_rv.Goal.Script
use apex_os_rv.Goal.Script.{new, script_success}
use apex_os_rv.Goal.Script.Turns.{next-Completes, IsPrompted}
use apex_os_rv.State.{default, apply, apply_all, register_tools, prompt_content}
use apex_os_rv.Kernel.Watchdog.{Loop, drive_goal, is_done}
use apex_os_rv.Kernel.Watchdog.Round.{IsClock}
use apex_os_rv.Kernel.Watchdog.Liveness.{drive_goal_ends}
use apex_os_rv.Kernel.Watchdog.Trail.{drive_goal-hang}
use apex_os_rv.Kernel.Watchdog.Transparent.{seen, drive_goal-run}
use apex_os_rv.Kernel.Qemu.{exit_pass, exit_fail}
use apex_os_rv.Kernel.Agent.{demo_events, demo_holds, exit_word, normal_flow}

-- The exit word by what is seen of the loop.
abbrev word_of : {A B : Type 0} → Option (GoalDriver × A × B) → Option ℕ
word_of none = none
word_of (some (d, a, b)) = some (if is_done d.state then exit_pass else exit_fail 2)

module _ (w : Wire) (empty args : w.Value) where
  pub demo_holds-apply_all :
      demo_holds w empty args (apply_all (default w) (demo_events w empty args)) ≡ true
  unfolding demo_holds apply_all apply register_tools prompt_content is_root root Map.get Map.insert
      Map.remove
  demo_holds-apply_all = refl

  module _ {S : Type 0} (next : Inference S) (clock : ℕ → ℕ) (timeout : ℕ) where
    normal_flow-drive_goal :
        (fuel : ℕ) (objective : Text) (s : S)
        → normal_flow w empty args next clock timeout fuel objective s
          ≡ exit_word w empty args next clock timeout
              (drive_goal w next clock timeout fuel objective s)
    unfolding normal_flow
    normal_flow-drive_goal fuel objective s = rw demo_holds-apply_all refl

    -- For every inference, a clock that ticks with gaps of less than half its range, a timeout
    -- below half the range, and fuel for nine timeouts: the loop returns, its goal has left
    -- `Acting`, and the kernel ends with the passing word when that goal is done and with the
    -- failing word of code 2 otherwise.
    pub normal_flow_total :
        (objective : Text) (s : S) (fuel : ℕ)
        → IsClock clock
        → timeout < 9223372036854775808
        → 9 * (timeout + 2) ≤ fuel
        → (l : Loop w S) × (drive_goal w next clock timeout fuel objective s ≡ some l)
          × (is_acting l.driver.state ≡ false)
          × (normal_flow w empty args next clock timeout fuel objective s
              ≡ some (if is_done l.driver.state then exit_pass else exit_fail 2))
    unfolding exit_word
    normal_flow_total objective s fuel c short enough =
        let (l, returns, over) =
          drive_goal_ends w next clock timeout c short objective s fuel enough in
        (
          l,
          returns,
          over,
          normal_flow-drive_goal fuel objective s
              ∙ ap (exit_word w empty args next clock timeout) returns,
        )

    -- With an inference whose turns never complete, a clock that ticks with gaps of less than
    -- half its range, a timeout below half the range, and fuel for nine timeouts, the kernel ends
    -- with the failing word of code 2.
    pub normal_flow-hang :
        ((s : S) (ctx : TickContext) → (next s ctx).0 ≡ pending)
        → (objective : Text) (s : S) (fuel : ℕ) → IsClock clock
        → timeout < 9223372036854775808
        → 9 * (timeout + 2) ≤ fuel
        → normal_flow w empty args next clock timeout fuel objective s ≡ some (exit_fail 2)
    unfolding exit_word
    normal_flow-hang hangs objective s fuel c short enough =
        let (l, returns, e, failed, log) =
          drive_goal-hang w next clock timeout hangs objective fuel s c short enough in
        normal_flow-drive_goal fuel objective s
        ∙ ap (exit_word w empty args next clock timeout) returns
        ∙ ap (λ state. some (if is_done state then exit_pass else exit_fail 2))
            (ap (λ d. d.state) e ∙ failed)

  pub prompted : IsPrompted (new script_success)
  unfolding new
  prompted = (tt, (tt, (tt, tt)))

  script_run :
      (objective : Text) (fuel : ℕ)
      → 4 ≤ fuel
      → let (d, events) = start w 1 objective 8 in
        word_of (run w Script.next fuel d (new script_success) events) ≡ some exit_pass
  unfolding start run Script.next Script.reading new advance poll tick_context
  script_run objective (suc (suc (suc (suc fuel)))) enough = refl
  script_run objective zero enough = absurd (omega arith)
  script_run objective (suc zero) enough = absurd (omega arith)
  script_run objective (suc (suc zero)) enough = absurd (omega arith)
  script_run objective (suc (suc (suc zero))) enough = absurd (omega arith)

  exit_word-seen :
      (clock : ℕ → ℕ) (timeout : ℕ) (o : Option (Loop w Script.ScriptedInference))
      → exit_word w empty args Script.next clock timeout o ≡ word_of (seen o)
  unfolding exit_word
  exit_word-seen clock timeout none = refl
  exit_word-seen clock timeout (some l) = refl

  -- With the compiled-in script of the default build, a clock that ticks with gaps of less than
  -- half its range, no more than the timeout between two readings, and fuel for four rounds, the
  -- kernel ends with the passing word.
  pub normal_flow-script_success :
      (clock : ℕ → ℕ) (timeout : ℕ) (objective : Text) (fuel : ℕ)
      → IsClock clock
      → ((k : ℕ) → clock (suc k) ≤ clock k + timeout)
      → 4 ≤ fuel
      → normal_flow w empty args Script.next clock timeout fuel objective (new script_success)
        ≡ some exit_pass
  normal_flow-script_success clock timeout objective fuel c quick enough =
      normal_flow-drive_goal Script.next clock timeout fuel objective (new script_success)
      ∙ exit_word-seen clock timeout
          (drive_goal w Script.next clock timeout fuel objective (new script_success))
      ∙ ap word_of (
          drive_goal-run w Script.next clock timeout c quick objective (new script_success) fuel
            next-Completes prompted)
      ∙ script_run objective fuel enough
