-- ===== src/Vmm/Tests.antt =====
-- Runs of the allocator of address space over a space that accepts every call: its state is the
-- next frame.
use doom_os.Base.{ℕ, ◌+◌, ◌*◌, refl, arith}
use doom_os.Page.{kernel_data, size_4k, frame_size}
use doom_os.Vmm.{
  Table, no_allocations, KernelSpace, done, gap_start, gap_end, insert, alloc, free, vmalloc_base,
}
use doom_os.Vmm.Entries.{IsOrdered}
use doom_os.Vmm.Insert.{insert-IsOrdered}
use doom_os.Vmm.Allocate.{Allocates, alloc_lem}
use doom_os.Vmm.Release.{Frees, free_lem, no_allocations-IsOrdered}

abbrev willing : KernelSpace ℕ
willing = record {
  alloc_frame = λ n. done (n * frame_size) (n + 1);
  free_frame = λ n size frame. done tt n;
  map_range = λ n va pa bytes size prot. done tt n;
  unmap_range = λ n va bytes size on_removed. done tt n;
  protect_range = λ n va bytes size prot. done tt n;
  translate = λ n va. done (record { frame = 0; offset = 0; size = size_4k; prot = 0 }) n;
}

abbrev one_allocation : Table
one_allocation = insert no_allocations 0 (record { base = vmalloc_base; bytes = 2 * frame_size })

alloc_lem_example :
    Allocates willing no_allocations 0 5000 kernel_data
      (alloc willing (no_allocations, 0) 5000 kernel_data)
alloc_lem_example = alloc_lem willing no_allocations 0 5000 kernel_data no_allocations-IsOrdered

one_allocation-IsOrdered : IsOrdered one_allocation
unfolding gap_start gap_end
one_allocation-IsOrdered =
    insert-IsOrdered no_allocations no_allocations-IsOrdered 0 (2 * frame_size) (omega arith)
      (omega arith) (omega arith) (omega arith) refl

free_lem_example :
    Frees willing one_allocation 1 vmalloc_base 5000
      (free willing (one_allocation, 1) vmalloc_base 5000)
free_lem_example = free_lem willing one_allocation 1 vmalloc_base 5000 one_allocation-IsOrdered
