-- ===== src/Pmm/Populate/Claims.antt =====
-- Which frames the claims of the boot information set and clear.
use doom_os.Base.{
  ℕ, ◌+◌, ◌*◌, ◌^◌, ◌≤◌, ◌<◌, ◌≡◌, refl, ◌∙◌, ap, Bool, true, false, not, ◌&&◌, ◌||◌, List, [], ◌∷◌,
  map, ltb, leb, ◌==◌, ◌!=◌, if◌then◌else◌, arith, Bool-cases, inl, inr,
}
use doom_os.Bitmap.{test}
use doom_os.Boot.{MemoryRegion, AddressRange, BootInfo}
use doom_os.Pmm.{Pmm, max_frames}
use doom_os.Pmm.Populate.{
  mark, is_usable_kind, free_phase, reserve_phase, claim_region, claim_range, claim_regions,
  claim_ranges, claim,
}
use doom_os.Pmm.Populate.Marks.{
  covers, touches, IsSized, Marks, Marks-none, Marks-ext, set-Marks, clear-Marks,
}

-- Frames within a usable region, and frames that a region in other use or a range touches.
abbrev pub usable_in : List MemoryRegion → ℕ → Bool
usable_in [] i = false
usable_in (r ∷ rs) i = (is_usable_kind r.kind && covers r.base r.length i) || usable_in rs i

abbrev pub used_in : List MemoryRegion → ℕ → Bool
used_in [] i = false
used_in (r ∷ rs) i = (not (is_usable_kind r.kind) && touches r.base r.length i) || used_in rs i

abbrev pub touched_in : List AddressRange → ℕ → Bool
touched_in [] i = false
touched_in (r ∷ rs) i = touches r.base r.length i || touched_in rs i

-- The frames that the reserved parts of the boot information touch.
abbrev pub reserved_in : BootInfo → ℕ → Bool
reserved_in boot i =
    used_in boot.memory_map i
    || (touched_in (map (λ m. m.range) boot.modules) i
        || (touched_in boot.reserved i
            || (touches boot.framebuffer.range.base boot.framebuffer.range.length i
                || touches boot.acpi.rsdp.base boot.acpi.rsdp.length i)))

abbrev pub Sets : Pmm → (ℕ → Bool) → Pmm → Type 0
Sets p c q = Marks p (λ i. c i || test p.frames i) q

abbrev pub Clears : Pmm → (ℕ → Bool) → Pmm → Type 0
Clears p c q = Marks p (λ i. not (c i) && test p.frames i) q

-- Steps one after the other.
pub Marks-trans :
    (p q r : Pmm) (now : ℕ → Bool) (c : ℕ → Bool → Bool)
    → Marks p now q
    → Marks q (λ i. c i (test q.frames i)) r
    → Marks p (λ i. c i (now i)) r
Marks-trans p q r now c a b = record {
  sized = b.sized;
  blocks = b.blocks ∙ a.blocks;
  whole = b.whole ∙ a.whole;
  broken = b.broken ∙ a.broken;
  frames = λ i h.
      b.frames i (
        let e : max_frames q ≡ max_frames p = ap (λ bs. doom_os.Base.length bs * 512) a.blocks in
        omega arith)
      ∙ ap (c i) (a.frames i h);
}

claim_regions-Sets :
    (p : Pmm) (rs : List MemoryRegion)
    → IsSized p
    → Sets p (usable_in rs) (claim_regions p free_phase rs)
unfolding claim_regions claim_region
claim_regions-Sets p [] s = Marks-none p s
claim_regions-Sets p (r ∷ rs) s = elim (Bool-cases (is_usable_kind r.kind)) [
  | inl free ↦
      let one = set-Marks p r.base r.length s in
      rw free (
        Marks-ext p _ _ _ (λ i h. ground arith)
          (Marks-trans p (mark p r.base r.length true) _ _ (λ i old. usable_in rs i || old) one
            (claim_regions-Sets (mark p r.base r.length true) rs one.sized)))
  | inr kept ↦ rw kept (claim_regions-Sets p rs s)
]

claim_regions-Clears :
    (p : Pmm) (rs : List MemoryRegion)
    → IsSized p
    → Clears p (used_in rs) (claim_regions p reserve_phase rs)
unfolding claim_regions claim_region
claim_regions-Clears p [] s = Marks-none p s
claim_regions-Clears p (r ∷ rs) s = elim (Bool-cases (is_usable_kind r.kind)) [
  | inl free ↦ rw free (claim_regions-Clears p rs s)
  | inr kept ↦
      let one = clear-Marks p r.base r.length s in
      rw kept (
        Marks-ext p _ _ _ (λ i h. ground arith)
          (Marks-trans p (mark p r.base r.length false) _ _ (λ i old. not (used_in rs i) && old) one
            (claim_regions-Clears (mark p r.base r.length false) rs one.sized)))
]

claim_ranges_free : (p : Pmm) (rs : List AddressRange) → claim_ranges p free_phase rs ≡ p
unfolding claim_ranges claim_range
claim_ranges_free p [] = refl
claim_ranges_free p (r ∷ rs) = claim_ranges_free p rs

claim_ranges-Clears :
    (p : Pmm) (rs : List AddressRange)
    → IsSized p
    → Clears p (touched_in rs) (claim_ranges p reserve_phase rs)
unfolding claim_ranges claim_range
claim_ranges-Clears p [] s = Marks-none p s
claim_ranges-Clears p (r ∷ rs) s =
    let one = clear-Marks p r.base r.length s in
    Marks-ext p _ _ _ (λ i h. ground arith)
      (Marks-trans p (mark p r.base r.length false) _ _ (λ i old. not (touched_in rs i) && old) one
        (claim_ranges-Clears (mark p r.base r.length false) rs one.sized))

-- The first pass over the boot information frees the usable memory.
pub claim-Sets :
    (p : Pmm) (boot : BootInfo)
    → IsSized p
    → Sets p (usable_in boot.memory_map) (claim p free_phase boot)
unfolding claim claim_range
claim-Sets p boot s =
    rw
      (
        claim_ranges_free
            (claim_ranges (claim_regions p free_phase boot.memory_map) free_phase
              (map (λ m. m.range) boot.modules))
            boot.reserved,
        claim_ranges_free (claim_regions p free_phase boot.memory_map)
            (map (λ m. m.range) boot.modules),
      )
      (claim_regions-Sets p boot.memory_map s)

-- The second takes back all that is in use.
pub claim-Clears :
    (p : Pmm) (boot : BootInfo)
    → IsSized p
    → Clears p (reserved_in boot) (claim p reserve_phase boot)
unfolding claim claim_range
claim-Clears p boot s =
    let ranges = map (λ m. m.range) boot.modules in
    let q1 = claim_regions p reserve_phase boot.memory_map in
    let q2 = claim_ranges q1 reserve_phase ranges in
    let q3 = claim_ranges q2 reserve_phase boot.reserved in
    let q4 = mark q3 boot.framebuffer.range.base boot.framebuffer.range.length false in
    let m1 = claim_regions-Clears p boot.memory_map s in
    let m2 =
      Marks-trans p q1 q2 _ (λ i old. not (touched_in ranges i) && old) m1
        (claim_ranges-Clears q1 ranges m1.sized) in
    let m3 =
      Marks-trans p q2 q3 _ (λ i old. not (touched_in boot.reserved i) && old) m2
        (claim_ranges-Clears q2 boot.reserved m2.sized) in
    let m4 =
      Marks-trans p q3 q4 _
        (λ i old. not (touches boot.framebuffer.range.base boot.framebuffer.range.length i) && old)
        m3 (clear-Marks q3 boot.framebuffer.range.base boot.framebuffer.range.length m3.sized) in
    let m5 =
      Marks-trans p q4 _ _
        (λ i old. not (touches boot.acpi.rsdp.base boot.acpi.rsdp.length i) && old) m4
        (clear-Marks q4 boot.acpi.rsdp.base boot.acpi.rsdp.length m4.sized) in
    Marks-ext p _ _ _
      (λ i h.
        regroup (used_in boot.memory_map i) (touched_in ranges i) (touched_in boot.reserved i) _ _
          (test p.frames i))
      m5
  where
    regroup :
        (a b c d e t : Bool)
        → (not e && (not d && (not c && (not b && (not a && t)))))
          ≡ (not (a || (b || (c || (d || e)))) && t)
    regroup a b c d e t = ground arith
