-- ===== src/Kernel/Boot/Prints.antt =====
-- What the parts of the kernel print where serde prints every event.
use apex_os_rv.Prelude.{
  ℕ, refl, Bool, true, false, Option, none, some, List, [], ◌∷◌, ◌++◌, map, Text,
}
use apex_os_rv.Protocol.Wire.{Wire}
use apex_os_rv.Protocol.Event.{Event}
use apex_os_rv.State.{SystemState, default, apply, apply_all}
use apex_os_rv.Kernel.Agent.{demo_events}
use apex_os_rv.Kernel.Agent.Exit.{demo_holds-apply_all}
use apex_os_rv.Kernel.Watchdog.{Loop, is_done}
use apex_os_rv.Kernel.Probe.{Virtio, probe}
use apex_os_rv.Kernel.Console.{Json, emit, emit_all, Prints, PrintsAs}
use apex_os_rv.Kernel.Boot.{
  banner, announce, init, folded, halting, polls_line, fold_events, fold_demo, conclude, told,
}

-- The line of a device that was found.
abbrev pub device_lines : {Nic : Type 0} → (Nic → ℕ → ℕ) → Option Nic → List Text
device_lines mac_address none = []
device_lines mac_address (some nic) = banner (mac_address nic) ∷ []

announce-Prints :
    {Nic : Type 0} (mac_address : Nic → ℕ → ℕ) (found : Option Nic)
    → Prints (announce mac_address found) (device_lines mac_address found) found
announce-Prints mac_address none = refl
announce-Prints mac_address (some nic) = refl

pub init-Prints :
    {Transport Nic : Type 0} (virtio : Virtio Transport Nic) (mac_address : Nic → ℕ → ℕ)
    → Prints (init virtio mac_address) (device_lines mac_address (probe virtio)) (probe virtio)
unfolding init
init-Prints virtio mac_address = announce-Prints mac_address (probe virtio)

-- The end of a goal that is done, and of one that is not.
abbrev pub end_lines : Bool → ℕ → List Text
end_lines true polls = polls_line polls ∷ halting ∷ []
end_lines false polls = []

abbrev pub demo_lines : {w : Wire} → (Event w → Text) → w.Value → w.Value → List Text
demo_lines {w} print empty content = map print (demo_events w empty content) ++ folded ∷ []

module _ {w : Wire} (json : Json w) (print : Event w → Text)
    (total : (ev : Event w) → PrintsAs json ev (print ev)) where
  emit-Prints : (ev : Event w) → Prints (emit json ev) (print ev ∷ []) tt
  unfolding emit
  emit-Prints ev = rw (total ev) refl

  pub emit_all-Prints : (evs : List (Event w)) → Prints (emit_all json evs) (map print evs) tt
  unfolding emit_all
  emit_all-Prints [] = refl
  emit_all-Prints (ev ∷ evs) = rw (emit-Prints ev, emit_all-Prints evs) refl

  fold_events-Prints :
      (st : SystemState w) (evs : List (Event w))
      → Prints (fold_events json st evs) (map print evs) (apply_all st evs)
  unfolding fold_events apply_all
  fold_events-Prints st [] = refl
  fold_events-Prints st (ev ∷ evs) = rw (emit-Prints ev, fold_events-Prints (apply st ev) evs) refl

  conclude-Prints :
      (done : Bool) (polls : ℕ) → Prints (conclude json done polls) (end_lines done polls) done
  unfolding conclude
  conclude-Prints true polls = refl
  conclude-Prints false polls = refl

  pub told-Prints :
      {S : Type 0} (l : Loop w S)
      → Prints
          (told json (some l))
          (map print l.log ++ end_lines (is_done l.driver.state) l.polls)
          (is_done l.driver.state)
  unfolding told
  told-Prints l = rw (emit_all-Prints l.log, conclude-Prints (is_done l.driver.state) l.polls) refl

  module _ (empty content : w.Value) where
    pub fold_demo-Prints : Prints (fold_demo json empty content) (demo_lines print empty content) tt
    unfolding fold_demo
    fold_demo-Prints =
        rw
          (
            fold_events-Prints (default w) (demo_events w empty content),
            demo_holds-apply_all w empty content,
          )
          refl
