-- ===== src/Lib.antt =====
-- doom-os, a freestanding x86-64 kernel written in C++: its memory managers and the utilities
-- that they and the output stand on.
--
-- Parts of the program and the files that model them:
--   * Bits: kernel/core/utils/bits.hpp, the bit and alignment helpers on unsigned words. A word
--     of w bits is a natural number below 2 ^ w; a function takes w and reduces modulo 2 ^ w
--     where the machine wraps.
--   * Bitmap: kernel/core/utils/bitmap.hpp with 64-bit words, a list of words. The masks, the
--     range operations, the searches and the counts follow the members of `bitmap`.
--   * InplaceVector: kernel/core/utils/inplace_vector.hpp, a vector in an array of static size.
--   * Page: the page sizes, the protections and the errors of kernel/mm/page.hpp.
--   * Boot: the data of kernel/boot/protocol.hpp that the boot loader hands to the kernel.
--   * Multiboot2: kernel/boot/multiboot2/iterator.hpp, the check of the boot loader's tags and the
--     walk over them; the region is the list of its bytes.
--   * Pmm: kernel/mm/pmm.cpp, the physical frame allocator, whole: the state is the record Pmm,
--     each function of the file is a function of that state. Pmm/Populate.antt holds the part
--     that reads the boot information. Pmm/Valid.antt states the invariant: both block lists are
--     doubly linked without a cycle and hold exactly the blocks of their kind, and each block's
--     number is the count of its free frames.
--   * Vmm: kernel/mm/vmm.cpp, the allocator of kernel address space, whole: the table of
--     allocations and the file's entries. The address space (arch/common/mmu/radix_tree.hpp) and
--     the frames are reached through the record KernelSpace of operations, on which no law is
--     assumed. Vmm/Entries.antt states the invariant of the table.
--   * Format: kernel/debug/format_spec.hpp, the parser of format strings. The parts of
--     `parse_field_at` are functions of their own, in its order; a text is a list of character
--     codes.
--   * Emit: kernel/debug/emit.hpp and kernel/debug/formatter.hpp, the printers of values under a
--     format specification. A printer gives the characters that it writes, or none where the
--     compiler refuses the specification; a digit buffer that is too small would give none as well.
--   * Kprint: kernel/debug/kprint.hpp, the printing of a format string with its arguments, and the
--     number printers of kernel/debug/kprint.cpp.
--   * InitGraph: kernel/init/init_graph.hpp, the topological sort of the kernel's components, which
--     the compiler computes, and the run of their `init` functions. A component is a number with
--     its list of dependencies; both are parameters, as they are of the templates.
--   * Lifecycle: kernel/device/lifecycle.cpp, whole but for its log lines: the drivers' nodes, the
--     visit of what they require, their start and their stop. The sections of
--     include/uk/registry.hpp are the lists of a Registry. The drivers' own functions are the
--     parameter DriverCode: each returns, may look capabilities up and may change a world of its
--     own, but does not call the lifecycle itself.
--   * Acpi: kernel/acpi/acpi.cpp and kernel/acpi/madt.cpp: the checksum, the search for a table, the
--     parse of the interrupt controllers' table and its cache. Memory is a function from addresses
--     to bytes; the direct mapping's base and size are parameters, as the build configures them.
--   * SpinLock: kernel/sync/spinlock.hpp, as a step relation on the lock's byte and the places of the
--     threads; an atomic access (kernel/sync/atomic.hpp) is one step.
--   * FixedString: kernel/core/utils/string.hpp, the string in an array of static size.
--   * Base: the list functions, Boolean tests and names that the others share.
--
-- Interaction: the boot information is claimed by `populate`, which sets and clears ranges of
-- the bitmap; `alloc` and `free` of frames search and change the bitmap and move blocks between
-- the lists. `vmm::alloc` asks the frame allocator for frames and the address space to map them.
-- `kprint_ct` parses its format with the functions of Format and prints each argument with those
-- of Emit. `get_madt_info` looks its table up with `find_table` the first time.
--
-- Bounds: the arrays of the frame allocator have the size of the state's lists; the invariant
-- asks for fewer than 2 ^ 16 - 1 blocks, which the index type of the source asks for as well.
-- The table of address space has the 1024 entries of the source. Loops are structural recursion
-- on the count of their rounds, which is computed from the bounds of the source's loop, so none
-- runs out. The loop of `parse_format` is on fuel, one more than the characters of the text, and
-- the loop over the tags on as much as the region has bytes; both are enough since every round
-- moves on. The recursion of `emit_format` has the same fuel as the parser, and `visit` one more
-- than the number of nodes, which is enough since a node on the way is not visited again; so has
-- `topo_component`, of the number of components. The loop of `parse_madt` has one more than the
-- bytes of the table.
--
-- Not modelled: the calls of the lock in the other parts (an operation under it is one step there),
-- memory orders, the page tables, descriptor tables and other code under arch/, the printer of
-- `long double`, the console's sink, the Multiboot adapter, the kernel heap, the services for drivers
-- and the C runtime.
pub mod Acpi
pub mod Base
pub mod Bitmap
pub mod Bits
pub mod Boot
pub mod Emit
pub mod FixedString
pub mod Format
pub mod InitGraph
pub mod InplaceVector
pub mod Kprint
pub mod Lifecycle
pub mod Multiboot2
pub mod Page
pub mod Pmm
pub mod SpinLock
pub mod Vmm
