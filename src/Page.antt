-- ===== src/Page.antt =====
-- kernel/mm/page.hpp: page sizes, protections and the errors of the memory managers.
use doom_os.Base.{ℕ, ◌+◌, ◌-◌, ◌%◌, ◌^◌, Bool, bit_and, bit_or, ◌!=◌}

pub data PageSize : Type 0 where
  size_4k size_2m size_1g : PageSize

abbrev pub frame_shift : ℕ
frame_shift = 12

abbrev pub frame_size : ℕ
frame_size = 2 ^ 12

abbrev pub shift_of : PageSize → ℕ
shift_of size_4k = 12
shift_of size_2m = 21
shift_of size_1g = 30

abbrev pub bytes_in : PageSize → ℕ
bytes_in size = 2 ^ shift_of size

abbrev pub frames_in : PageSize → ℕ
frames_in size = 2 ^ (shift_of size - frame_shift)

pub data MmError : Type 0 where
  out_of_memory invalid_address unsupported_size not_mapped conflict : MmError

-- A set of protection bits of eight bits.
abbrev pub PageProt : Type 0
PageProt = ℕ

abbrev pub prot_write : PageProt
prot_write = 2 ^ 0

abbrev pub prot_exec : PageProt
prot_exec = 2 ^ 1

abbrev pub prot_global : PageProt
prot_global = 2 ^ 3

abbrev pub prot_uncached : PageProt
prot_uncached = 2 ^ 4

abbrev pub kernel_text : PageProt
kernel_text = bit_or prot_exec prot_global

abbrev pub kernel_rodata : PageProt
kernel_rodata = prot_global

abbrev pub kernel_data : PageProt
kernel_data = bit_or prot_write prot_global

abbrev pub mmio : PageProt
mmio = bit_or (bit_or prot_write prot_global) prot_uncached

abbrev pub has : PageProt → PageProt → Bool
has prots prot = bit_and prots prot != 0

pub record Mapping : Type 0 where
  pub frame : ℕ
  pub offset : ℕ
  pub size : PageSize
  pub prot : PageProt

abbrev pub physical : Mapping → ℕ
physical m = (m.frame + m.offset) % 2 ^ 64
