-- ===== src/Kernel/Boot/Golden.antt =====
-- The port and the exit word of the default build, line by line.
use apex_os_rv.Prelude.{
  if◌then◌else◌, Bool, ℕ, suc, ◌+◌, ◌*◌, ◌≤◌, ◌<◌, ◌≡◌, refl, ap, ◌∙◌, true, false, some, Option,
  List, [], ◌∷◌, ◌++◌, map, append-nil, Text, codes, returned,
}
use apex_os_rv.Protocol.Wire.{Wire}
use apex_os_rv.Protocol.Event.{Event}
use apex_os_rv.Goal.Script
use apex_os_rv.Goal.Script.{ScriptedInference, new, script_success, script_hang}
use apex_os_rv.Goal.Script.Turns.{next-Completes}
use apex_os_rv.Kernel.Agent.Exit.{prompted}
use apex_os_rv.Kernel.Qemu.{exit_pass, exit_fail}
use apex_os_rv.Kernel.Env.{step_timeout, objective}
use apex_os_rv.Kernel.Probe.{Virtio, probe}
use apex_os_rv.Kernel.Watchdog.{Loop, is_done}
use apex_os_rv.Kernel.Watchdog.Round.{IsClock}
use apex_os_rv.Kernel.Watchdog.Transparent.{drive_goal-run}
use apex_os_rv.Kernel.Watchdog.Polls.{drive_goal-polls}
use apex_os_rv.Kernel.Console.{Json, PrintsAs}
use apex_os_rv.Kernel.Proto.{Literals}
use apex_os_rv.Kernel.Proto.Stable.{AreStable, run_iff}
use apex_os_rv.Kernel.Boot.{
  Features, heap_size, alloc_line, polls_line, halting, script_of, handled, told, fold_demo,
  overdraw, decide, normal_flow, main, kernel,
}
use apex_os_rv.Kernel.Boot
use apex_os_rv.Kernel.Boot.Success.{success_events, finished, run-success, seen-some}
use apex_os_rv.Kernel.Boot.Fate.{goal_loop}
use apex_os_rv.Kernel.Boot.Hang.{hang_events, IsHung, drive_goal-IsHung}
use apex_os_rv.Kernel.Watchdog.Liveness.{drive_goal_ends}
use apex_os_rv.Str.Decimal.{decimal, digits}
use apex_os_rv.Kernel.Boot.Prints.{
  device_lines, init-Prints, fold_demo-Prints, demo_lines, told-Prints, end_lines,
}

alloc_line_default : alloc_line 1048576 ≡ codes "alloc ok: 42 (heap: 1024 KiB)"
unfolding alloc_line decimal digits
alloc_line_default = refl

-- The builds of the gates that run a goal.
abbrev pub build : Bool → Features
build fails = record { tiny_heap = false; panic_test = false; fail_script = fails }

module _ {w : Wire} (print : Event w → Text) where
  -- The lines of the boot, of a device that was found, of the allocator, of the wire contract, of
  -- the demonstration, and of the goal.
  abbrev pub kernel_lines : w.Value → w.Value → List Text → List Text → List Text → List Text
  kernel_lines empty content device proto goal_lines =
      codes "apexos-rv: hart 0 online" ∷ device
      ++ (codes "alloc ok: 42 (heap: 1024 KiB)" ∷ proto
          ++ (demo_lines print empty content ++ goal_lines))

  -- The lines of a goal.
  abbrev pub goal_lines : Loop w Script.ScriptedInference → List Text
  goal_lines l = map print l.log ++ end_lines (is_done l.driver.state) l.polls

module _ {w : Wire} (json : Json w) (print : Event w → Text)
    (total : (ev : Event w) → PrintsAs json ev (print ev)) (empty content : w.Value) (clock : ℕ → ℕ)
    (secs goal : Option Text) (fuel : ℕ) where
  module _ {Transport Nic : Type 0} (virtio : Virtio Transport Nic) (mac_address : Nic → ℕ → ℕ)
      (info : Text) (lit : Literals w) (served : ℕ → ℕ → Bool) where
    -- Of a goal whose loop returned: its events and its end are the last lines, and the word says
    -- whether it is done.
    pub kernel-goal_loop :
        (fails : Bool) (proto : List Text) (l : Loop w Script.ScriptedInference)
        → AreStable json lit proto
        → goal_loop json empty content clock secs goal fuel (build fails) ≡ some l
        → kernel json empty content clock secs goal fuel lit served virtio mac_address info
            (build fails)
          ≡ (
            kernel_lines print empty content
                (device_lines mac_address (probe virtio))
                proto
                (goal_lines print l),
            returned (if is_done l.driver.state then exit_pass else exit_fail 2),
          )
    unfolding kernel main normal_flow overdraw decide Boot.run handled heap_size
    kernel-goal_loop fails proto l stable returns =
        rw
          (
            init-Prints virtio mac_address,
            (run_iff json lit proto).1 stable,
            fold_demo-Prints json print total empty content,
            returns,
            told-Prints json print total l,
            append-nil,
            alloc_line_default,
          )
          refl

    module _ (c : IsClock clock) where
      -- Where serde prints every event and the events of the wire contract are stable, with a
      -- clock that ticks with gaps of less than half its range, a timeout below half the range,
      -- and fuel for nine timeouts: in the build with the script that hangs, the loop returns
      -- with a goal that has failed in its second step with the stall's detail; the script's next
      -- turn still answers `pending`, whatever it is shown, and at the newest reading of the
      -- clock more than the timeout has passed since the step began. The port has the lines of
      -- the boot, of the device that was found, of the allocator, of the wire contract, of the
      -- demonstration and the three events of the goal, and the kernel ends with the failing word
      -- of code 2.
      pub kernel-fail_script :
          (proto : List Text)
          → AreStable json lit proto
          → step_timeout secs < 9223372036854775808
          → 9 * (step_timeout secs + 2) ≤ fuel
          → (l : Loop w Script.ScriptedInference) × (goal_loop json empty content clock secs goal
                fuel
                (build true)
              ≡ some l)
            × IsHung w clock (step_timeout secs) (objective goal) l
            × (kernel json empty content clock secs goal fuel lit served virtio mac_address info
                  (build true)
                ≡ (
                  kernel_lines print empty content
                      (device_lines mac_address (probe virtio))
                      proto
                      (map print (hang_events (objective goal))),
                  returned (exit_fail 2),
                ))
      unfolding script_of
      kernel-fail_script proto stable short enough =
          let timeout = step_timeout secs in
          let (l, returns, over) =
            drive_goal_ends w Script.next clock timeout c short (objective goal) (new script_hang)
              fuel enough in
          let (d, log, waits, late) =
            drive_goal-IsHung w clock timeout (objective goal) fuel l returns over in
          (
            l,
            returns,
            (d, log, waits, late),
            kernel-goal_loop true proto l stable returns ∙ rw (d, log) refl,
          )

      module _ (quick : (k : ℕ) → clock (suc k) ≤ clock k + step_timeout secs)
          (enough : 4 ≤ fuel) where
        success_loop :
            (l : Loop w Script.ScriptedInference) × (goal_loop json empty content clock secs goal
                fuel
                (build false)
              ≡ some l)
            × (l.driver ≡ finished (objective goal))
            × (l.log ≡ success_events (objective goal))
            × (l.polls ≡ 3)
        unfolding finished script_of
        success_loop =
            let o = objective goal in
            let s = new script_success in
            let ready = prompted w empty content in
            let e =
              drive_goal-run w Script.next clock (step_timeout secs) c quick o s fuel next-Completes
                ready
              ∙ run-success w o fuel enough in
            let (l, returns, driver, log) = seen-some _ _ _ _ e in
            (
              l,
              returns,
              driver,
              log,
              drive_goal-polls w Script.next clock (step_timeout secs) c quick o s fuel l
                    next-Completes ready returns
                  ∙ ap (λ d. d.step) driver,
            )

        -- Where serde prints every event and the events of the wire contract are stable, with a
        -- clock that ticks with gaps of less than half its range and no more than the timeout
        -- between two readings, and fuel for four rounds: the default build prints exactly the
        -- lines of the boot, of the device that was found, of the allocator, of the wire
        -- contract, of the demonstration, of a goal that is done at step 3, of its three polls
        -- and of the halt, and ends with the passing word.
        pub kernel-golden :
            (proto : List Text)
            → AreStable json lit proto
            → kernel json empty content clock secs goal fuel lit served virtio mac_address info
                (build false)
              ≡ (
                kernel_lines print empty content
                    (device_lines mac_address (probe virtio))
                    proto
                    (map print (success_events (objective goal)) ++ polls_line 3 ∷ halting ∷ []),
                returned exit_pass,
              )
        unfolding finished
        kernel-golden proto stable =
            let (l, returns, driver, log, polls) = success_loop in
            kernel-goal_loop false proto l stable returns ∙ rw (log, polls, driver) refl
