-- ===== src/Kernel/Boot/Port.antt =====
-- What a host reads from the port of the default build.
use mathlib.Core.Option.{some_inj}
use apex_os_rv.Prelude.{
  ℕ, suc, ◌+◌, ◌≤◌, ◌≡◌, ◌≢◌, refl, ap, sym, ◌∙◌, subst, Bool, true, false, ◌&&◌, not, Option, none,
  List, [], ◌∷◌, ◌++◌, map, Text, codes, eqb, eqb_iff, ltb, ltb→lt, All, arith,
}
use apex_os_rv.Str.Lines.{newline}
use apex_os_rv.Str.Decimal.{digits}
use apex_os_rv.Protocol.Wire.{Wire}
use apex_os_rv.Protocol.Event.{Event}
use apex_os_rv.Kernel.Agent.{demo_events}
use apex_os_rv.Kernel.Env.{step_timeout, objective}
use apex_os_rv.Kernel.Probe.{Virtio, probe}
use apex_os_rv.Kernel.Watchdog.Round.{IsClock}
use apex_os_rv.Kernel.Console.{Json, PrintsAs, serial}
use apex_os_rv.Kernel.Console.Reads.{IsLine}
use apex_os_rv.Kernel.Console.Contract.{
  received, IsCarried, Reads, Reads-append, Reads-line, Reads-event, Reads-nil, received-Reads,
}
use apex_os_rv.Kernel.Proto.{Literals, report, first_event, second_event, third_event}
use apex_os_rv.Kernel.Proto.Stable.{AreStable}
use apex_os_rv.Kernel.Boot.{halting, folded, polls_line, kernel}
use apex_os_rv.Kernel.Boot.Prints.{device_lines}
use apex_os_rv.Kernel.Boot.Success.{success_events}
use apex_os_rv.Kernel.Boot.Golden.{kernel_lines, build, kernel-golden}

-- A test for `IsLine`.
abbrev pub plain_char : ℕ → Bool
plain_char c = not (eqb c newline) && ltb c 1114112

abbrev pub plain_line : Text → Bool
plain_line [] = true
plain_line (c ∷ t) = plain_char c && plain_line t

and_true : (a b : Bool) → (a && b) ≡ true → (a ≡ true) × (b ≡ true)
and_true true b e = (refl, e)
and_true false b e = absurd (ground arith)

not-newline : (c : ℕ) → not (eqb c newline) ≡ true → c ≢ newline
not-newline c e same = ground (arith, (eqb_iff c newline).1 same)

pub plain_line-IsLine : (t : Text) → plain_line t ≡ true → IsLine t
plain_line-IsLine [] e = (tt, tt)
plain_line-IsLine (c ∷ t) e =
    let (one, more) = and_true (plain_char c) (plain_line t) e in
    let (other, scalar) = and_true (not (eqb c newline)) (ltb c 1114112) one in
    let (scalars, others) = plain_line-IsLine t more in
    ((ltb→lt c 1114112 scalar, scalars), (not-newline c other, others))

polls_line-IsLine : IsLine (polls_line 3)
unfolding polls_line digits
polls_line-IsLine = plain_line-IsLine (polls_line 3) refl

-- The lines of the kernel that are no events.
abbrev pub fixed_lines : List Text
fixed_lines =
    codes "apexos-rv: hart 0 online"
    ∷ codes "alloc ok: 42 (heap: 1024 KiB)"
    ∷ report
    ∷ folded
    ∷ polls_line 3
    ∷ halting
    ∷ []

-- The events of the wire contract.
abbrev pub contract_events : {w : Wire} → Literals w → List (Event w)
contract_events lit = first_event lit ∷ second_event lit ∷ third_event lit ∷ []

module _ {w : Wire} (json : Json w) where
  abbrev pub IsNoEvent : Text → Type 0
  IsNoEvent t = json.from_str t ≡ none

  Reads-lines : (ts : List Text) → All IsLine ts → All IsNoEvent ts → Reads json ts []
  Reads-lines [] h q = Reads-nil json
  Reads-lines (t ∷ ts) (line, h) (e, q) =
      Reads-append json (Reads-line json t line e) (Reads-lines ts h q)

  Reads-carried :
      (ev : Event w) (t : Text)
      → PrintsAs json ev t
      → IsCarried json ev
      → Reads json (t ∷ []) (ev ∷ [])
  Reads-carried ev t e (u, e', r, line) =
      subst (λ t. Reads json (t ∷ []) (ev ∷ [])) (some_inj.0 (sym e' ∙ e))
        (Reads-event json u ev line r)

  Reads-print :
      (print : Event w → Text)
      → ((ev : Event w) → PrintsAs json ev (print ev))
      → (evs : List (Event w)) → All (IsCarried json) evs
      → Reads json (map print evs) evs
  Reads-print print total [] h = Reads-nil json
  Reads-print print total (ev ∷ evs) (c, h) =
      Reads-append json (Reads-carried ev (print ev) (total ev) c) (Reads-print print total evs h)

  module _ (print : Event w → Text) (total : (ev : Event w) → PrintsAs json ev (print ev))
      (empty content : w.Value) (clock : ℕ → ℕ) (secs goal : Option Text) (fuel : ℕ)
      (lit : Literals w) where
    proto-Reads :
        (proto : List Text)
        → AreStable json lit proto
        → All (IsCarried json) (contract_events lit)
        → IsNoEvent report
        → Reads json proto (contract_events lit)
    proto-Reads proto (t1, t2, t3, s1, s2, s3, e) (c1, (c2, (c3, _))) quiet =
        subst (λ ts. Reads json ts (contract_events lit)) (sym e)
          (Reads-append json (Reads-carried (first_event lit) t1 s1.3 c1) (
            Reads-append json (Reads-carried (second_event lit) t2 s2.3 c2) (
              Reads-append json (Reads-carried (third_event lit) t3 s3.3 c3)
                (Reads-line json report (plain_line-IsLine report refl) quiet))))

    golden-Reads :
        (device proto : List Text)
        → AreStable json lit proto
        → All (IsCarried json) (contract_events lit)
        → All (IsCarried json) (demo_events w empty content)
        → All (IsCarried json) (success_events (objective goal))
        → All IsNoEvent fixed_lines
        → All IsLine device
        → All IsNoEvent device
        → Reads json
            (kernel_lines print empty content device proto
              (map print (success_events (objective goal)) ++ polls_line 3 ∷ halting ∷ []))
            (contract_events lit ++ demo_events w empty content ++ success_events (objective goal))
    golden-Reads device proto stable c d g (hart, (alloc, (quiet, (fold, (polls, (halt, _))))))
          lines no_events =
        Reads-append json
          (Reads-line json _ (plain_line-IsLine (codes "apexos-rv: hart 0 online") refl) hart)
          (Reads-append json (Reads-lines device lines no_events) (
            Reads-append json
              (Reads-line json _ (plain_line-IsLine (codes "alloc ok: 42 (heap: 1024 KiB)") refl)
                alloc)
              (Reads-append json (proto-Reads proto stable c quiet) (
                Reads-append json
                  (Reads-append json (Reads-print print total (demo_events w empty content) d)
                    (Reads-line json folded (plain_line-IsLine folded refl) fold))
                  (Reads-append json (Reads-print print total (success_events (objective goal)) g) (
                    Reads-append json (Reads-line json (polls_line 3) polls_line-IsLine polls)
                      (Reads-line json halting (plain_line-IsLine halting refl) halt)))))))

    -- Where serde prints every event, the events of the wire contract are stable, all events of
    -- the default build are read back from their texts, each of which stands on a line, serde
    -- reads no event from the other lines, the line of a device that was found stands on a line,
    -- and with a clock that ticks with gaps of less than half its range, no more than the timeout
    -- between two readings, and fuel for four rounds: a host that reads the bytes on the port of
    -- the default build has exactly the three events of the wire contract, the four of the
    -- demonstration, and the four of the goal.
    pub received-kernel :
        {Transport Nic : Type 0} (virtio : Virtio Transport Nic) (mac_address : Nic → ℕ → ℕ)
        (info : Text) (served : ℕ → ℕ → Bool) (proto : List Text)
        → IsClock clock
        → ((k : ℕ) → clock (suc k) ≤ clock k + step_timeout secs)
        → 4 ≤ fuel
        → AreStable json lit proto
        → All (IsCarried json) (contract_events lit)
        → All (IsCarried json) (demo_events w empty content)
        → All (IsCarried json) (success_events (objective goal))
        → All IsNoEvent fixed_lines
        → All IsLine (device_lines mac_address (probe virtio))
        → All IsNoEvent (device_lines mac_address (probe virtio))
        → json.from_str [] ≡ none
        → received json (
            serial
              (kernel json empty content clock secs goal fuel lit served virtio mac_address info
                (build false)).0)
          ≡ contract_events lit ++ demo_events w empty content ++ success_events (objective goal)
    received-kernel virtio mac_address info served proto c quick enough stable three demo run fixed
          lines no_events no_event =
        ap (λ out. received json (serial out.0))
          (kernel-golden json print total empty content clock secs goal fuel virtio mac_address info
            lit served c quick enough proto stable)
        ∙ received-Reads json _ _
            (golden-Reads (device_lines mac_address (probe virtio)) proto stable three demo run
              fixed lines no_events)
            no_event
