-- ===== src/Kernel/Env.antt =====
-- What the kernel takes from the environment of its build (kernel/src/agent.rs, `step_timeout_ticks`
-- and `OBJECTIVE`). `none` is a variable that is not set.
use apex_os_rv.Prelude.{
  ℕ, ◌*◌, ◌<◌, ◌≡◌, ap, ◌∙◌, Option, none, some, Text, codes, unwrap_or, arith,
}
use apex_os_rv.Str.Decimal.{decimal, parse}
use apex_os_rv.Str.Decimal.Reads.{parse-decimal}
use apex_os_rv.Kernel.Watchdog.{step_timeout_ticks}

abbrev pub u64_max : ℕ
u64_max = 18446744073709551615

-- The number that the variable gives, if it is set and is a `u64`.
unfoldable pub secs_of : Option Text → Option ℕ
secs_of none = none
secs_of (some s) = parse u64_max s

unfoldable pub step_timeout : Option Text → ℕ
unfolding secs_of
step_timeout var = step_timeout_ticks (secs_of var)

unfoldable pub objective : Option Text → Text
objective var = unwrap_or var (codes "prove the colony contract end-to-end on bare metal")

-- Seconds as they are printed, so few that their ticks take less than half the timer's range.
pub step_timeout-decimal :
    (n : ℕ)
    → n * 10000000 < 9223372036854775808
    → n < 10000000000
    → step_timeout (some (decimal n)) ≡ n * 10000000
unfolding step_timeout secs_of
step_timeout-decimal n short ten =
    ap step_timeout_ticks (parse-decimal u64_max n (omega arith) ten) ∙ omega arith
