-- ===== src/Pmm/Populate/Initial.antt =====
-- The allocator after `populate`: it is valid, and holds exactly the usable frames that nothing
-- else uses.
use mathlib.Core.Path.{subst}
use mathlib.Core.Bool.{false≢true}
use doom_os.Base.{
  ℕ, zero, suc, ◌+◌, ◌*◌, ◌/◌, ◌%◌, ◌≤◌, ◌<◌, ◌≡◌, ◌↔◌, refl, sym, ◌∙◌, ap, Bool, true, false, not,
  ◌&&◌, ◌||◌, none, ltb, leb, if◌then◌else◌, arith, length, get_or, replicate, length-replicate,
  get_or-replicate,
}
use doom_os.Bits.Positions.{bit_at, bit_at-zero}
use doom_os.Bitmap.{test, count_set}
use doom_os.Bitmap.Scan.{test_lem, bit_in}
use doom_os.Bitmap.Count.{count_where, count_set_lem, count_where_le}
use doom_os.Boot.{BootInfo}
use doom_os.Pmm.Lists.{IsListed}
use doom_os.Pmm.{
  Pmm, no_block, block, block_count, nil, set_free, Head, whole_list, broken_list, head_of, list_of,
}
use doom_os.Pmm.Moves.{IsLinked, on_list, set_free-SetsFree}
use doom_os.Pmm.Valid.{IsValid, revalid, frames-IsLinked}
use doom_os.Pmm.Take.{none_free, no_heads}
use doom_os.Pmm.Populate.{
  mark, free_phase, reserve_phase, claim, count_blocks, kernel_bytes, populate, unpopulated,
  init_allocator,
}
use doom_os.Pmm.Populate.Marks.{touches, IsSized, Marks, Marks-ext, clear-Marks}
use doom_os.Pmm.Populate.Claims.{usable_in, reserved_in, Marks-trans, claim-Sets, claim-Clears}

-- The frames that are free once the kernel has started.
abbrev pub free_at_start : BootInfo → ℕ → ℕ → ℕ → Bool
free_at_start boot boot_start kernel_physical_end i =
    not (reserved_in boot i)
    && (not (touches boot_start (kernel_bytes boot_start kernel_physical_end) i)
        && (not (touches 0 (1024 * 1024) i) && usable_in boot.memory_map i))

-- `count_blocks`: every block gets the number of its set bits, and its place on the lists.
record Counts (p : Pmm) (index n : ℕ) (q : Pmm) : Type 0 where
  linked : IsLinked q
  count : block_count q ≡ block_count p
  frames : q.frames ≡ p.frames
  free_of :
      (j : ℕ)
      → (block q j).free ≡ (
          if leb index j && ltb j (index + n)
          then count_where (test p.frames) (j * 512) 512
          else (block p j).free)

count_blocks-Counts :
    (p : Pmm) (index n : ℕ)
    → IsLinked p
    → index + n ≤ block_count p
    → Counts p index n (count_blocks p index n)
unfolding count_blocks
count_blocks-Counts p index zero l h = record {
  linked = l;
  count = refl;
  frames = refl;
  free_of = λ j. ground arith;
}
count_blocks-Counts p index (suc n) l h =
    let set_bits : ℕ = count_set p.frames (index * 8) 8 in
    let e : set_bits ≡ count_where (test p.frames) (index * 512) 512 =
      count_set_lem p.frames (index * 8) 8
      ∙ ap (λ from. count_where (test p.frames) from 512) (omega arith) in
    let one =
      set_free-SetsFree p index set_bits l (omega arith)
        (omega (arith, e, count_where_le (test p.frames) (index * 512) 512)) in
    let rest =
      count_blocks-Counts (set_free p index set_bits) (index + 1) n one.linked
        (rw one.count (omega arith)) in
    record {
      linked = rest.linked;
      count = rest.count ∙ one.count;
      frames = rest.frames ∙ one.frames;
      free_of = λ j.
          rest.free_of j
          ∙ ground
              (arith, one.free_of j, ap (λ w. count_where (test w) (j * 512) 512) one.frames, e);
    }

-- The state before.
free_replicate :
    (n i : ℕ) → (get_or (replicate n (record { free = 0; next = 0; prev = 0 })) i no_block).free ≡ 0
free_replicate zero i = refl
free_replicate (suc n) zero = refl
free_replicate (suc n) (suc i) = free_replicate n i

off_list : (n : ℕ) (o : Head) (i : ℕ) → on_list (unpopulated n) o i ≡ false
unfolding unpopulated list_of
off_list n whole_list i = rw (free_replicate n i) (ground arith)
off_list n broken_list i = rw (free_replicate n i) (ground arith)

unpopulated-IsListed : (n : ℕ) (o : Head) → IsListed (unpopulated n) o (on_list (unpopulated n) o)
unpopulated-IsListed n o = record {
  rank = λ i. 0;
  bound = 0;
  chain = record {
    proper = off_list n o nil;
    start = λ ne. absurd (ne (no_head o));
    first = λ i held. absurd (false≢true (sym (off_list n o i) ∙ held));
    back = λ i held. absurd (false≢true (sym (off_list n o i) ∙ held));
    forth = λ i held. absurd (false≢true (sym (off_list n o i) ∙ held));
  };
  below = λ i held. absurd (false≢true (sym (off_list n o i) ∙ held));
}
  where
    no_head : (h : Head) → head_of (unpopulated n) h ≡ nil
    no_head whole_list = unfold unpopulated in refl
    no_head broken_list = unfold unpopulated in refl

length-unpopulated :
    (n : ℕ) → (block_count (unpopulated n) ≡ n) × (length (unpopulated n).frames ≡ 8 * n)
unfolding unpopulated
length-unpopulated n = (length-replicate n _, length-replicate (8 * n) 0)

unpopulated-IsLinked : (n : ℕ) → n < nil → IsLinked (unpopulated n)
unpopulated-IsLinked n h = record {
  small = rw (length-unpopulated n).0 h;
  within = λ o i held. absurd (false≢true (sym (off_list n o i) ∙ held));
  apart = λ i. rw (off_list n whole_list i);
  listed = unpopulated-IsListed n;
}

unpopulated-IsSized : (n : ℕ) → n < nil → IsSized (unpopulated n)
unfolding unpopulated
unpopulated-IsSized n h = record {
  small = rw (length-unpopulated n).0 h;
  sized = (length-unpopulated n).1 ∙ ap (λ k. 8 * k) (sym (length-unpopulated n).0);
  fits = λ j. rw (get_or-replicate {A = ℕ} (8 * n) j 0) (omega arith);
}

test-unpopulated : (n i : ℕ) → test (unpopulated n).frames i ≡ false
unfolding unpopulated bit_in
test-unpopulated n i =
    test_lem (replicate (8 * n) 0) i
    ∙ ap (λ word. bit_at word (i % 64)) (get_or-replicate {A = ℕ} (8 * n) (i / 64) 0)
    ∙ bit_at-zero (i % 64)

-- The lists do not look at the bitmap, and the marks look at nothing else.
relinked : (p q : Pmm) (now : ℕ → Bool) → Marks p now q → IsLinked p → IsLinked q
relinked p q now m l =
    subst IsLinked
      (λ i. record {
        frames = q.frames;
        blocks = sym m.blocks i;
        whole = sym m.whole i;
        broken = sym m.broken i;
      })
      (frames-IsLinked p q.frames l)

or_false : (a : Bool) → (a || false) ≡ a
or_false true = refl
or_false false = refl

-- The bitmap once both passes are done.
module _ (n : ℕ) (boot : BootInfo) (boot_start kernel_physical_end : ℕ) (small : n < nil) where
  claimed : Pmm
  claimed =
      let freed = claim (unpopulated n) free_phase boot in
      let low = mark freed 0 (1024 * 1024) false in
      claim (mark low boot_start (kernel_bytes boot_start kernel_physical_end) false) reserve_phase
        boot

  claimed-Marks : Marks (unpopulated n) (free_at_start boot boot_start kernel_physical_end) claimed
  unfolding claimed
  claimed-Marks =
      let p = unpopulated n in
      let freed = claim p free_phase boot in
      let low = mark freed 0 (1024 * 1024) false in
      let bytes : ℕ = kernel_bytes boot_start kernel_physical_end in
      let kernel = mark low boot_start bytes false in
      let m1 = claim-Sets p boot (unpopulated-IsSized n small) in
      let m2 =
        Marks-trans p freed low _ (λ i old. not (touches 0 (1024 * 1024) i) && old) m1
          (clear-Marks freed 0 (1024 * 1024) m1.sized) in
      let m3 =
        Marks-trans p low kernel _ (λ i old. not (touches boot_start bytes i) && old) m2
          (clear-Marks low boot_start bytes m2.sized) in
      let m4 =
        Marks-trans p kernel _ _ (λ i old. not (reserved_in boot i) && old) m3
          (claim-Clears kernel boot m3.sized) in
      Marks-ext p _ _ _ (λ i h. rw (test-unpopulated n i, or_false (usable_in boot.memory_map i)))
        m4

  started : Pmm
  started = populate (unpopulated n) boot boot_start kernel_physical_end

  claimed-IsLinked : IsLinked claimed
  claimed-IsLinked = relinked (unpopulated n) claimed _ claimed-Marks (unpopulated-IsLinked n small)

  claimed_count : block_count claimed ≡ n
  claimed_count = ap length claimed-Marks.blocks ∙ (length-unpopulated n).0

  started-Counts : Counts claimed 0 (block_count claimed) started
  unfolding started populate claimed
  started-Counts =
      count_blocks-Counts claimed 0 (block_count claimed) claimed-IsLinked (omega arith)

  started_count : block_count started ≡ n
  started_count = started-Counts.count ∙ claimed_count

  started-IsValid : IsValid started
  started-IsValid =
      revalid started started-Counts.linked
        (rw (started-Counts.frames, started-Counts.count) claimed-Marks.sized.sized)
        (rw started-Counts.frames claimed-Marks.sized.fits)
        (λ i h. ground (
          arith,
          started-Counts.free_of i,
          started-Counts.count,
          ap (λ w. count_where (test w) (i * 512) 512) started-Counts.frames,
        ))

  test-started :
      (i : ℕ)
      → i < n * 512
      → test started.frames i ≡ free_at_start boot boot_start kernel_physical_end i
  test-started i h =
      ap (λ w. test w i) started-Counts.frames
      ∙ claimed-Marks.frames i (rw (length-unpopulated n).0 h)

-- With fewer than 2 ^ 16 - 1 blocks, `populate` of the initial state gives a valid allocator with as
-- many blocks, in which a frame is free exactly when it lies within a usable region and neither the first MiB, nor the kernel, nor any other region or range that the boot
-- information names touches it.
pub populate_lem :
    (n : ℕ) (boot : BootInfo) (boot_start kernel_physical_end : ℕ)
    → n < nil
    → let p = populate (unpopulated n) boot boot_start kernel_physical_end in
      IsValid p
      × (block_count p ≡ n)
      × ((i : ℕ)
          → i < n * 512
          → test p.frames i ≡ free_at_start boot boot_start kernel_physical_end i)
unfolding started
populate_lem n boot bs ke small = (
  started-IsValid n boot bs ke small,
  started_count n boot bs ke small,
  test-started n boot bs ke small,
)

module _ (n : ℕ) (boot : BootInfo) (bs ke : ℕ) (small : n < nil) where
  unallocated :
      init_allocator n boot bs ke ≡ none
      → ((started n boot bs ke small).whole ≡ nil) × ((started n boot bs ke small).broken ≡ nil)
  unfolding init_allocator started
  unallocated e = ground arith

  no_memory :
      (started n boot bs ke small).whole ≡ nil
      → (started n boot bs ke small).broken ≡ nil
      → init_allocator n boot bs ke ≡ none
  unfolding init_allocator started
  no_memory w b = rw (w, b)

-- With fewer than 2 ^ 16 - 1 blocks, `init_allocator` reports that there is no usable memory exactly
-- when the boot information leaves no frame free.
pub init_allocator_lem :
    (n : ℕ) (boot : BootInfo) (boot_start kernel_physical_end : ℕ)
    → n < nil
    → (init_allocator n boot boot_start kernel_physical_end ≡ none)
      ↔ ((i : ℕ) → i < n * 512 → free_at_start boot boot_start kernel_physical_end i ≡ false)
init_allocator_lem n boot bs ke small = (forward, backward)
  where
    valid : IsValid (started n boot bs ke small)
    valid = started-IsValid n boot bs ke small

    count : block_count (started n boot bs ke small) ≡ n
    count = started_count n boot bs ke small

    forward :
        init_allocator n boot bs ke ≡ none
        → (i : ℕ) → i < n * 512
        → free_at_start boot bs ke i ≡ false
    forward e i h =
        let (w, b) = unallocated n boot bs ke small e in
        sym (test-started n boot bs ke small i h) ∙ none_free _ valid w b i (omega (arith, count))

    backward :
        ((i : ℕ) → i < n * 512 → free_at_start boot bs ke i ≡ false)
        → init_allocator n boot bs ke ≡ none
    backward clear =
        let heads = no_heads _ valid (λ i h.
          test-started n boot bs ke small i (omega (arith, count))
          ∙ clear i (omega (arith, count))) in
        no_memory n boot bs ke small (heads whole_list) (heads broken_list)
