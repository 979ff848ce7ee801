-- ===== src/Kernel/Boot.antt =====
-- The kernel from its entry to the test device (kernel/src/main.rs; kernel/src/agent.rs, `fold_demo`,
-- `run` and what `drive_goal` prints; kernel/src/net/mod.rs, `init`; kernel/src/heap.rs, `SIZE`), in the
-- builds without a mesh. The features of the build are a record. What the kernel asks of libraries
-- is a parameter: serde, the driver of the network device, the allocator, and the text of a panic.
pub mod Prints
pub mod Golden
pub mod Success
pub mod Ends
pub mod Shows
pub mod Fate
pub mod Gates
pub mod Hang
pub mod Port
pub mod Smokes
use apex_os_rv.Prelude.{
  ℕ, ◌+◌, ◌-◌, ◌*◌, ◌/◌, ◌%◌, Bool, true, false, Option, none, some, List, [], ◌∷◌, ◌++◌, Text,
  codes, ltb, Outcome, returned, panicked, out_of_fuel, if◌then◌else◌,
}
use apex_os_rv.Str.Decimal.{digits, decimal}
use apex_os_rv.Protocol.Wire.{Wire}
use apex_os_rv.Protocol.Event.{Event}
use apex_os_rv.Goal.Driver.{Inference}
use apex_os_rv.Goal.Script
use apex_os_rv.Goal.Script.{ScriptStep, ScriptedInference, new, script_success, script_hang}
use apex_os_rv.State.{SystemState, default, apply}
use apex_os_rv.Kernel.Agent.{demo_events, demo_holds}
use apex_os_rv.Kernel.Watchdog.{Loop, drive_goal, is_done}
use apex_os_rv.Kernel.Qemu.{exit_pass, exit_fail}
use apex_os_rv.Kernel.Probe.{Virtio, probe}
use apex_os_rv.Kernel.Env.{step_timeout, objective}
use apex_os_rv.Kernel.Console.{
  Console, ◌>>=◌, ◌>>◌, pure, println, panic, assert, Json, emit, emit_all,
}
use apex_os_rv.Kernel.Proto
use apex_os_rv.Kernel.Proto.{Literals}

-- The features of a build without a mesh.
pub record Features : Type 0 where
  pub tiny_heap : Bool
  pub panic_test : Bool
  pub fail_script : Bool

-- `heap::SIZE`
unfoldable pub heap_size : Features → ℕ
heap_size f = if f.tiny_heap then 1024 else 1048576

-- A digit of `{:02x}`.
abbrev hex : ℕ → ℕ
hex d = if ltb d 10 then b'0' + d else b'a' + (d - 10)

abbrev hex2 : ℕ → Text
hex2 b = hex (b / 16) ∷ hex (b % 16) ∷ []

-- `init`'s line, at the octets of the address.
unfoldable pub banner : (ℕ → ℕ) → Text
banner mac =
    codes "net: virtio-net up mac="
    ++ hex2 (mac 0)
    ++ codes ":"
    ++ hex2 (mac 1)
    ++ codes ":"
    ++ hex2 (mac 2)
    ++ codes ":"
    ++ hex2 (mac 3)
    ++ codes ":"
    ++ hex2 (mac 4)
    ++ codes ":"
    ++ hex2 (mac 5)

abbrev announce : {Nic : Type 0} → (Nic → ℕ → ℕ) → Option Nic → Console (Option Nic)
announce mac_address none = pure none
announce mac_address (some nic) = println (banner (mac_address nic)) >> pure (some nic)

-- `net::init`
unfoldable pub init :
    {Transport Nic : Type 0} → Virtio Transport Nic → (Nic → ℕ → ℕ) → Console (Option Nic)
init virtio mac_address = announce mac_address (probe virtio)

-- What the loop prints when its goal is done, behind `polls` polls.
unfoldable pub polls_line : ℕ → Text
polls_line polls = codes "loop: goal reached Done in " ++ digits 20 polls [] ++ codes " polls"

abbrev pub halting : Text
halting = codes "APEXOS-RV: goal done — halting"

abbrev pub folded : Text
folded = codes "state: fold ok — sessions=1 tools=2 approvals=0"

unfoldable pub alloc_line : ℕ → Text
alloc_line size =
    codes "alloc ok: " ++ decimal 42 ++ codes " (heap: " ++ decimal (size / 1024) ++ codes " KiB)"

unfoldable pub script_of : Features → List ScriptStep
script_of f = if f.fail_script then script_hang else script_success

-- The negative gate of the tiny heap. `served size n`: the allocator of `size` bytes serves a
-- request for `n`.
unfoldable pub overdraw : (ℕ → ℕ → Bool) → Features → Console Unit
overdraw served f =
    if f.tiny_heap
    then assert (served (heap_size f) 4096) >> println (codes "unreachable under tiny-heap: 4096")
    else pure tt

abbrev pub panic_line : Text → Text
panic_line info = codes "KERNEL PANIC: " ++ info

-- The panic handler; `info` is what the panic prints of itself.
unfoldable pub handled : Text → Console ℕ → Console ℕ
handled info (lines, panicked) = (lines ++ panic_line info ∷ [], returned (exit_fail 1))
handled info (lines, o) = (lines, o)

module _ {w : Wire} (json : Json w) where
  -- The loop over the events of the demonstration.
  unfoldable pub fold_events : SystemState w → List (Event w) → Console (SystemState w)
  fold_events st [] = pure st
  fold_events st (ev ∷ evs) = emit json ev >> fold_events (apply st ev) evs

  -- The end of `drive_goal`, by whether the goal is done.
  unfoldable pub conclude : Bool → ℕ → Console Bool
  conclude true polls = do println (polls_line polls); println halting; pure true
  conclude false polls = pure false

  -- What a loop has sent to its sink is printed before its end.
  unfoldable pub told : {S : Type 0} → Option (Loop w S) → Console Bool
  told none = ([], out_of_fuel)
  told (some l) = emit_all json l.log >> conclude (is_done l.driver.state) l.polls

  module _ (empty content : w.Value) where
    unfoldable pub fold_demo : Console Unit
    fold_demo = do
      st ← fold_events (default w) (demo_events w empty content)
      assert (demo_holds w empty content st)
      println folded

    module _ (clock : ℕ → ℕ) (secs goal : Option Text) (fuel : ℕ) where
      unfoldable pub run : Features → Console Bool
      run f = do
        fold_demo
        told (
            drive_goal w Script.next clock (step_timeout secs) fuel (objective goal)
              (new (script_of f)))

      -- The last decision of `normal_flow`.
      unfoldable pub decide : Features → Console ℕ
      decide f =
          if f.panic_test
          then panic
          else (do done ← run f; pure (if done then exit_pass else exit_fail 2))

      module _ (lit : Literals w) (served : ℕ → ℕ → Bool) where
        unfoldable pub normal_flow : Features → Console ℕ
        normal_flow f = do
          println (alloc_line (heap_size f))
          Proto.run json lit
          overdraw served f
          decide f

        unfoldable pub main :
            {Transport Nic : Type 0} → Virtio Transport Nic → (Nic → ℕ → ℕ) → Features → Console ℕ
        main virtio mac_address f = do
          println (codes "apexos-rv: hart 0 online")
          init virtio mac_address
          normal_flow f

        -- The kernel, with the handler of its panics.
        unfoldable pub kernel :
            {Transport Nic : Type 0}
            → Virtio Transport Nic
            → (Nic → ℕ → ℕ)
            → Text
            → Features
            → Console ℕ
        kernel virtio mac_address info f = handled info (main virtio mac_address f)
