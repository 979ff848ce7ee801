-- ===== src/Tests/Ports.antt =====
-- A host that reads the port, with a serde that knows the events of the default build.
use apex_os_rv.Prelude.{
  ◌+◌, ◌≡◌, refl, false, Option, none, some, List, [], ◌∷◌, ◌++◌, Text, codes, ◌==◌, list_eq,
  nat_eq, eqb, All, arith, if◌then◌else◌,
}
use apex_os_rv.Protocol.Wire.{done}
use apex_os_rv.Protocol.Event.{
  Event, sensor_reading, vast_instance_launched, tool_requested, user_prompt, plugin_up,
  approval_pending, user_approval, goal_state_changed,
}
use apex_os_rv.Kernel.Agent.{demo_events}
use apex_os_rv.Kernel.Env.{objective}
use apex_os_rv.Kernel.Probe.{probe, probe_from, try_slot}
use apex_os_rv.Str.Decimal.{digits}
use apex_os_rv.Kernel.Console.{Json, serial}
use apex_os_rv.Kernel.Console.Reads.{IsLine}
use apex_os_rv.Kernel.Console.Contract.{received, IsCarried}
use apex_os_rv.Kernel.Proto.{report, first_event, second_event, third_event}
use apex_os_rv.Kernel.Proto.Stable.{AreStable}
use apex_os_rv.Kernel.Boot.{kernel, banner, polls_line}
use apex_os_rv.Kernel.Boot.Prints.{device_lines}
use apex_os_rv.Kernel.Boot.Success.{success_events}
use apex_os_rv.Kernel.Boot.Golden.{build}
use apex_os_rv.Kernel.Boot.Port.{
  contract_events, fixed_lines, IsNoEvent, plain_line-IsLine, received-kernel,
}
use apex_os_rv.Tests.Values.{plain, clock, clock-IsClock}
use apex_os_rv.Tests.Boots.{lit, virtio, mac, served, quick}

-- A letter for each event.
abbrev print : Event plain → Text
print (sensor_reading node reading time) = codes "a"
print (vast_instance_launched instance_id recipe cost) = codes "b"
print (tool_requested session call) = codes "c"
print (user_prompt session txt images) = codes "d"
print (plugin_up plugin specs) = codes "e"
print (approval_pending session call) = codes "f"
print (user_approval session action granted) = codes "g"
print (goal_state_changed goal obj done step max detail yolo) = codes "k"
print (goal_state_changed goal obj state step max detail yolo) = (b'g' + step) ∷ []
print _ = codes "z"

abbrev known : List (Text × Event plain)
known =
    (codes "a", first_event lit)
    ∷ (codes "b", second_event lit)
    ∷ (codes "c", third_event lit)
    ∷ named (demo_events plain 0 0 ++ success_events (objective none))
  where
    named : List (Event plain) → List (Text × Event plain)
    named [] = []
    named (ev ∷ evs) = (print ev, ev) ∷ named evs

abbrev look_up : Text → List (Text × Event plain) → Option (Event plain)
look_up t [] = none
look_up t ((u, ev) ∷ more) = let rest = look_up t more in if u == t then some ev else rest

abbrev json : Json plain
json = record {
  to_string = λ ev. some (print ev);
  from_str = λ t. look_up t known;
  value_from_str = λ t. some 0;
  to_value = λ ev. some 0;
  value_eq = λ a b. eqb a b;
}

abbrev letters : List Text
letters = codes "a" ∷ codes "b" ∷ codes "c" ∷ report ∷ []

letters-AreStable : AreStable json lit letters
unfolding first_event second_event third_event
letters-AreStable = (
  codes "a",
  codes "b",
  codes "c",
  (first_event lit, 0, 0, refl, refl, refl, refl, refl, refl),
  (second_event lit, 0, 0, refl, refl, refl, refl, refl, refl),
  (third_event lit, 0, 0, refl, refl, refl, refl, refl, refl),
  refl,
)

contract-IsCarried : All (IsCarried json) (contract_events lit)
unfolding first_event second_event third_event
contract-IsCarried = (
  (codes "a", refl, refl, ((omega arith, tt), ((λ e. omega arith), tt))),
  (
    (codes "b", refl, refl, ((omega arith, tt), ((λ e. omega arith), tt))),
    ((codes "c", refl, refl, ((omega arith, tt), ((λ e. omega arith), tt))), tt),
  ),
)

demo-IsCarried : All (IsCarried json) (demo_events plain 0 0)
demo-IsCarried = (
  (codes "d", refl, refl, ((omega arith, tt), ((λ e. omega arith), tt))),
  (
    (codes "e", refl, refl, ((omega arith, tt), ((λ e. omega arith), tt))),
    (
      (codes "f", refl, refl, ((omega arith, tt), ((λ e. omega arith), tt))),
      ((codes "g", refl, refl, ((omega arith, tt), ((λ e. omega arith), tt))), tt),
    ),
  ),
)

goal-IsCarried : All (IsCarried json) (success_events (objective none))
unfolding objective
goal-IsCarried = (
  (codes "h", refl, refl, ((omega arith, tt), ((λ e. omega arith), tt))),
  (
    (codes "i", refl, refl, ((omega arith, tt), ((λ e. omega arith), tt))),
    (
      (codes "j", refl, refl, ((omega arith, tt), ((λ e. omega arith), tt))),
      ((codes "k", refl, refl, ((omega arith, tt), ((λ e. omega arith), tt))), tt),
    ),
  ),
)

fixed-IsNoEvent : All (IsNoEvent json) fixed_lines
unfolding polls_line digits
fixed-IsNoEvent = (refl, (refl, (refl, (refl, (refl, (refl, tt))))))

device-IsLine : All IsLine (device_lines mac (probe virtio))
unfolding probe probe_from try_slot banner
device-IsLine = (plain_line-IsLine (banner (mac 268447744)) refl, tt)

device-IsNoEvent : All (IsNoEvent json) (device_lines mac (probe virtio))
unfolding probe probe_from try_slot banner
device-IsNoEvent = (refl, tt)

received-kernel_example :
    received json (
      serial
        (kernel json 0 0 clock none none 4 lit served virtio mac (codes "boom") (build false)).0)
    ≡ contract_events lit ++ demo_events plain 0 0 ++ success_events (objective none)
received-kernel_example =
    received-kernel json print (λ ev. refl) 0 0 clock none none 4 lit virtio mac (codes "boom")
      served letters clock-IsClock quick (omega arith) letters-AreStable contract-IsCarried
      demo-IsCarried goal-IsCarried fixed-IsNoEvent device-IsLine device-IsNoEvent refl
