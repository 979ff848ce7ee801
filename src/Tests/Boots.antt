-- ===== src/Tests/Boots.antt =====
-- The kernel with a small serde: a `user_cancel` is its number, and any other event a zero.
use apex_os_rv.Prelude.{
  All, Bool, ℕ, suc, ◌+◌, ◌*◌, ◌≤◌, ◌<◌, ◌≡◌, ◌↔◌, ◌⊎◌, inr, refl, true, false, Option, none, some,
  List, [], ◌∷◌, ◌++◌, map, Text, codes, eqb, not, ltb, returned, arith, lt→ltb,
}
use apex_os_rv.Protocol.Event.{Event, user_cancel}
use apex_os_rv.Str.Decimal.{digits, decimal, parse, parse_from, push_digit}
use apex_os_rv.Kernel.Qemu.{exit_pass, exit_fail}
use apex_os_rv.Kernel.Env.{step_timeout, secs_of, objective}
use apex_os_rv.Kernel.Probe.{Virtio, probe}
use apex_os_rv.Kernel.Console.{Json, Prints, emit_all, serial}
use apex_os_rv.Kernel.Console.Contract.{IsCarried, received, received-emit_all}
use apex_os_rv.Kernel.Proto
use apex_os_rv.Kernel.Proto.{Literals, report}
use apex_os_rv.Kernel.Proto.Stable.{AreStable, run_iff}
use apex_os_rv.Kernel.Boot.{Features, kernel, panic_line, polls_line, halting}
use apex_os_rv.Kernel.Boot.Prints.{device_lines}
use apex_os_rv.Goal.Script.{ScriptedInference}
use apex_os_rv.Kernel.Watchdog.{Loop}
use apex_os_rv.Kernel.Boot.Hang.{hang_events, IsHung}
use apex_os_rv.Kernel.Boot.Fate.{goal_loop, Passed, Failed, kernel_ends}
use apex_os_rv.Kernel.Boot.Ends.{EndsWith}
use apex_os_rv.Kernel.Boot.Gates.{kernel-IsNegative}
use apex_os_rv.Kernel.Boot.Success.{success_events}
use apex_os_rv.Kernel.Boot.Golden.{build, kernel_lines, kernel-golden, kernel-fail_script}
use apex_os_rv.Tests.Values.{plain, clock, clock-IsClock}

abbrev print : Event plain → Text
print (user_cancel n) = decimal n
print _ = codes "0"

abbrev cancelling : Option ℕ → Option (Event plain)
cancelling none = none
cancelling (some n) = some (user_cancel n)

abbrev json : Json plain
json = record {
  to_string = λ ev. some (print ev);
  from_str = λ t. cancelling (parse 18446744073709551615 t);
  value_from_str = λ t. some 0;
  to_value = λ ev. some 0;
  value_eq = λ a b. eqb a b;
}

abbrev pub lit : Literals plain
lit = record { f32 = λ n. n; f64 = λ n. n; query = 0 }

abbrev zeros : List Text
zeros = codes "0" ∷ codes "0" ∷ codes "0" ∷ report ∷ []

zeros-AreStable : AreStable json lit zeros
unfolding Proto.first_event Proto.second_event Proto.third_event parse parse_from push_digit decimal
    digits
zeros-AreStable = (
  codes "0",
  codes "0",
  codes "0",
  (user_cancel 0, 0, 0, refl, refl, refl, refl, refl, refl),
  (user_cancel 0, 0, 0, refl, refl, refl, refl, refl, refl),
  (user_cancel 0, 0, 0, refl, refl, refl, refl, refl, refl),
  refl,
)

run_iff_example : Prints (Proto.run json lit) zeros tt ↔ AreStable json lit zeros
run_iff_example = run_iff json lit zeros

-- The device is in the third slot.
abbrev pub virtio : Virtio ℕ ℕ
virtio = record {
  transport = λ addr. some addr;
  is_network = λ addr. eqb addr 268447744;
  nic = λ addr. some addr;
}

abbrev pub mac : ℕ → ℕ → ℕ
mac nic i = 82 + i

abbrev pub served : ℕ → ℕ → Bool
served size n = not (ltb size n)

pub quick : (k : ℕ) → clock (suc k) ≤ clock k + step_timeout none
unfolding step_timeout secs_of
quick k = omega arith

short : step_timeout none < 9223372036854775808
unfolding step_timeout secs_of
short = omega arith

enough : 9 * (step_timeout none + 2) ≤ 180000018
unfolding step_timeout secs_of
enough = omega arith

kernel-golden_example :
    kernel json 0 0 clock none none 4 lit served virtio mac (codes "boom") (build false) ≡ (
      kernel_lines print 0 0
          (device_lines mac (probe virtio))
          zeros
          (map print (success_events (objective none)) ++ polls_line 3 ∷ halting ∷ []),
      returned exit_pass,
    )
kernel-golden_example =
    kernel-golden json print (λ ev. refl) 0 0 clock none none 4 virtio mac (codes "boom") lit served
      clock-IsClock quick (omega arith) zeros zeros-AreStable

kernel-fail_script_example :
    (l : Loop plain ScriptedInference) × (goal_loop json 0 0 clock none none 180000018 (build true)
      ≡ some l)
    × IsHung plain clock (step_timeout none) (objective none) l
    × (kernel json 0 0 clock none none 180000018 lit served virtio mac (codes "boom") (build true)
        ≡ (
          kernel_lines print 0 0
              (device_lines mac (probe virtio))
              zeros
              (map print (hang_events (objective none))),
          returned (exit_fail 2),
        ))
kernel-fail_script_example =
    kernel-fail_script json print (λ ev. refl) 0 0 clock none none 180000018 virtio mac
      (codes "boom") lit served clock-IsClock zeros zeros-AreStable short enough

abbrev tiny : Features
tiny = record { tiny_heap = true; panic_test = false; fail_script = false }

kernel_ends_example :
    (lines : List Text) × (word : ℕ) × (kernel json 0 0 clock none none 180000018 lit served virtio
        mac
        (codes "boom")
        tiny
      ≡ (lines, returned word))
    × (((word ≡ exit_pass) × Passed json 0 0 clock none none 180000018 tiny lit lines)
        ⊎ ((word ≡ exit_fail 2) × Failed json 0 0 clock none none 180000018 tiny lit lines)
        ⊎ ((word ≡ exit_fail 1) × EndsWith (panic_line (codes "boom")) lines))
kernel_ends_example =
    kernel_ends json 0 0 clock none none 180000018 tiny clock-IsClock short enough virtio mac
      (codes "boom") lit served

kernel-IsNegative_example :
    (lines : List Text) × (kernel json 0 0 clock none none 4 lit served virtio mac
        (codes "boom")
        tiny
      ≡ (lines ++ panic_line (codes "boom") ∷ [], returned (exit_fail 1)))
kernel-IsNegative_example =
    kernel-IsNegative json 0 0 clock none none 4 lit served tiny
      (λ size n h. rw (lt→ltb size n h) refl) virtio mac (codes "boom") (inr refl)

abbrev cancels : List (Event plain)
cancels = user_cancel 7 ∷ user_cancel 42 ∷ []

cancels-IsCarried : All (IsCarried json) cancels
unfolding decimal digits parse parse_from push_digit
cancels-IsCarried = (
  (codes "7", refl, refl, ((omega arith, tt), ((λ e. omega arith), tt))),
  (
    (
      codes "42",
      refl,
      refl,
      ((omega arith, (omega arith, tt)), ((λ e. omega arith), ((λ e. omega arith), tt))),
    ),
    tt,
  ),
)

nothing : json.from_str [] ≡ none
unfolding parse
nothing = refl

received-emit_all_example :
    (lines : List Text) × Prints (emit_all json cancels) lines tt
    × (received json (serial lines) ≡ cancels)
received-emit_all_example = received-emit_all json cancels cancels-IsCarried nothing
