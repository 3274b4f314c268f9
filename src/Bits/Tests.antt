-- ===== src/Bits/Tests.antt =====
-- The bit helpers at concrete words.
use doom_os.Base.{ℕ, ◌+◌, ◌%◌, ◌^◌, ◌≤◌, ◌<◌, ◌≡◌, ◌↔◌, true, arith}
use doom_os.Bits.{align_up, is_power_of_two}
use doom_os.Bits.Align.{align_up_lem, is_power_of_two_iff}

align_up_example :
    (align_up 64 0x1003 (2 ^ 12) % 2 ^ 12 ≡ 0)
    × (0x1003 ≤ align_up 64 0x1003 (2 ^ 12))
    × (align_up 64 0x1003 (2 ^ 12) < 0x1003 + 2 ^ 12)
align_up_example = align_up_lem 64 12 0x1003 (omega arith) (omega arith)

is_power_of_two_example : (is_power_of_two 64 4096 ≡ true) ↔ ((k : ℕ) × (k < 64) × (4096 ≡ 2 ^ k))
is_power_of_two_example = is_power_of_two_iff 64 4096 (omega arith)
