-- ===== src/Kernel/Qemu.antt =====
-- How the kernel ends (kernel/src/qemu.rs): the words written to the test device.
use apex_os_rv.Prelude.{ℕ, ◌+◌, ◌*◌, ◌%◌}

abbrev pub finisher_pass : ℕ
finisher_pass = 21845

abbrev pub finisher_fail : ℕ
finisher_fail = 13107

unfoldable pub exit_pass : ℕ
exit_pass = finisher_pass

-- `(code as u32) << 16 | FINISHER_FAIL`, where the two parts share no bit.
unfoldable pub exit_fail : ℕ → ℕ
exit_fail code = code * 65536 % 4294967296 + finisher_fail
