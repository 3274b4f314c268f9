-- ===== src/Bits.antt =====
-- kernel/core/utils/bits.hpp: bit and alignment helpers on unsigned words of `w` bits.
mod Digits
pub mod Positions
pub mod Words
pub mod Align
mod Tests
use doom_os.Base.{
  ℕ, ◌+◌, ◌-◌, ◌%◌, ◌^◌, Bool, not, ◌&&◌, bit_and, bit_or, ltb, leb, ◌==◌, ◌!=◌, if◌then◌else◌,
}

-- `~value` of a `w`-bit word.
abbrev pub complement : ℕ → ℕ → ℕ
complement w value = 2 ^ w - 1 - value

-- `value - T{1}`, which wraps at zero.
abbrev pub decrement : ℕ → ℕ → ℕ
decrement w value = (value + (2 ^ w - 1)) % 2 ^ w

pub all_bits : ℕ → ℕ
all_bits w = complement w 0

pub bit : ℕ → ℕ → ℕ
bit w index = if leb w index then 0 else 2 ^ index

pub test_bit : ℕ → ℕ → ℕ → Bool
unfolding bit
test_bit w value index = ltb index w && (bit_and value (bit w index) != 0)

pub set_bit : ℕ → ℕ → ℕ → ℕ
unfolding bit
set_bit w value index = if leb w index then value else bit_or value (bit w index)

pub clear_bit : ℕ → ℕ → ℕ → ℕ
unfolding bit
clear_bit w value index = if leb w index then value else bit_and value (complement w (bit w index))

-- `bit<T>(bit_count)` is at least one here, so the subtraction does not wrap.
unfoldable pub mask : ℕ → ℕ → ℕ
unfolding all_bits bit
mask w bit_count = if leb w bit_count then all_bits w else bit w bit_count - 1

pub is_power_of_two : ℕ → ℕ → Bool
is_power_of_two w value = (value != 0) && (bit_and value (decrement w value) == 0)

unfoldable pub align_down : ℕ → ℕ → ℕ → ℕ
align_down w value alignment = bit_and value (complement w (decrement w alignment))

unfoldable pub align_up : ℕ → ℕ → ℕ → ℕ
unfolding align_down
align_up w value alignment = align_down w (decrement w ((value + alignment) % 2 ^ w)) alignment

unfoldable pub is_aligned : ℕ → ℕ → ℕ → Bool
is_aligned w value alignment = bit_and value (decrement w alignment) == 0
