-- ===== src/Kernel/Agent.antt =====
-- What the kernel runs and how it ends (kernel/src/agent.rs, `fold_demo` and `run`; kernel/src/main.rs,
-- `normal_flow` and `panic`). The result is the word that is written to the test device. `none` says
-- that the loop's fuel ran out. The JSON values of the demonstration are parameters.
pub mod Exit
use apex_os_rv.Prelude.{
  ℕ, Bool, true, false, ◌&&◌, Option, none, some, List, [], ◌∷◌, Text, codes, length, eqb, nat_eq,
  if◌then◌else◌,
}
use apex_os_rv.Map
use apex_os_rv.Protocol.Wire.{Wire}
use apex_os_rv.Protocol.Session.{ToolCall, ToolSpec, AgentContext, is_root}
use apex_os_rv.Protocol.Event.{Event, user_prompt, user_approval, plugin_up, approval_pending}
use apex_os_rv.Goal.Driver.{Inference}
use apex_os_rv.State.{SystemState, default, apply_all}
use apex_os_rv.Kernel.Watchdog.{Loop, drive_goal, is_done}
use apex_os_rv.Kernel.Qemu.{exit_pass, exit_fail}

module _ (w : Wire) (empty args : w.Value) where
  -- The events that `fold_demo` folds.
  abbrev pub demo_events : List (Event w)
  demo_events =
      user_prompt 1 (codes "bring the colony contract to metal") []
      ∷ plugin_up (codes "cerebro") (
          record {
            name = codes "cerebro.recall";
            description = codes "recall memories";
            input_schema = empty;
          }
          ∷ record {
            name = codes "cerebro.store";
            description = codes "store a memory";
            input_schema = empty;
          }
          ∷ [])
      ∷ approval_pending 1
          (record { id = 7; tool = codes "cerebro.store"; args = args; needs_approval = true })
      ∷ user_approval 1 7 true
      ∷ []

  abbrev is_fresh : Option (AgentContext w) → Bool
  is_fresh none = false
  is_fresh (some c) = is_root c && eqb (length c.history) 1

  -- The three assertions of `fold_demo`.
  unfoldable pub demo_holds : SystemState w → Bool
  demo_holds st =
      is_fresh (Map.get 1 st.sessions)
      && eqb (length st.tools) 2
      && eqb (length st.pending_approvals) 0

  module _ {S : Type 0} (next : Inference S) (clock : ℕ → ℕ) (timeout : ℕ) where
    -- `normal_flow`'s last decision, on what `drive_goal` returned.
    unfoldable pub exit_word : Option (Loop w S) → Option ℕ
    exit_word none = none
    exit_word (some l) = some (if is_done l.driver.state then exit_pass else exit_fail 2)

    -- A failed assertion is a panic, which ends the kernel with code 1.
    unfoldable pub normal_flow : ℕ → Text → S → Option ℕ
    normal_flow fuel objective s =
        if demo_holds (apply_all (default w) demo_events)
        then exit_word (drive_goal w next clock timeout fuel objective s)
        else some (exit_fail 1)
