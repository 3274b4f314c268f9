-- ===== src/Pmm/Populate/Marks.antt =====
-- Which frames `mark` sets or clears.
use doom_os.Base.{
  ℕ, ◌+◌, ◌-◌, ◌*◌, ◌/◌, ◌%◌, ◌^◌, ◌≤◌, ◌<◌, ◌≡◌, inl, inr, refl, ◌∙◌, Bool, true, false, not, ◌&&◌,
  ◌||◌, ltb, leb, ◌==◌, ◌!=◌, if◌then◌else◌, arith, Bool-cases, length,
}
use doom_os.Bits.{align_up, align_down}
use doom_os.Bits.Align.{align_up_lem, align_down_lem}
use doom_os.Bitmap.{test, apply}
use doom_os.Bitmap.Scan.{Fits}
use doom_os.Bitmap.Ranges.{test-apply, apply-Fits, length-apply, set_range-apply, clear_range-apply}
use doom_os.Pmm.{Pmm, block_count, max_frames, nil}
use doom_os.Pmm.Populate.{mark, mark_between, max_memory}

-- A frame that lies within `size` bytes from `base`, and one that they touch.
abbrev pub covers : ℕ → ℕ → ℕ → Bool
covers base size i = leb base (i * 4096) && leb (i * 4096 + 4096) (base + size)

abbrev pub touches : ℕ → ℕ → ℕ → Bool
touches base size i = (size != 0) && (ltb (i * 4096) (base + size) && ltb base (i * 4096 + 4096))

-- What of the state the bitmap operations rely on.
pub record IsSized (p : Pmm) : Type 0 where
  pub small : block_count p < nil
  pub sized : length p.frames ≡ 8 * block_count p
  pub fits : Fits p.frames

-- A step that changes the bitmap alone.
pub record Marks (p : Pmm) (now : ℕ → Bool) (q : Pmm) : Type 0 where
  pub sized : IsSized q
  pub blocks : q.blocks ≡ p.blocks
  pub whole : q.whole ≡ p.whole
  pub broken : q.broken ≡ p.broken
  pub frames : (i : ℕ) → i < max_frames p → test q.frames i ≡ now i

pub Marks-ext :
    (p q : Pmm) (now now' : ℕ → Bool)
    → ((i : ℕ) → i < max_frames p → now i ≡ now' i)
    → Marks p now q
    → Marks p now' q
Marks-ext p q now now' e m = record {
  sized = m.sized;
  blocks = m.blocks;
  whole = m.whole;
  broken = m.broken;
  frames = λ i h. m.frames i h ∙ e i h;
}

pub Marks-none : (p : Pmm) → IsSized p → Marks p (test p.frames) p
Marks-none p s = record {
  sized = s;
  blocks = refl;
  whole = refl;
  broken = refl;
  frames = λ i h. refl;
}

-- The frames from one aligned address up to another are written.
written-Marks :
    (p : Pmm) (first last : ℕ) (value : Bool)
    → IsSized p
    → first % 4096 ≡ 0
    → last % 4096 ≡ 0
    → first < last
    → last ≤ max_memory p
    → Marks p
        (λ i. if leb first (i * 4096) && ltb (i * 4096) last then value else test p.frames i)
        (record p { frames = apply p.frames (first / 2 ^ 12) ((last - first) / 2 ^ 12) value })
written-Marks p first last value s fa la order within =
    let start : ℕ = first / 2 ^ 12 in
    let count : ℕ = (last - first) / 2 ^ 12 in
    let room : start + count ≤ 64 * length p.frames = omega (arith, s.sized) in
    let words : 64 * length p.frames < 2 ^ 64 = omega (arith, s.sized, s.small) in
    record {
      sized = record {
        small = s.small;
        sized = length-apply p.frames start count value ∙ s.sized;
        fits = apply-Fits p.frames start count value s.fits room words;
      };
      blocks = refl;
      whole = refl;
      broken = refl;
      frames = λ i h. test-apply p.frames start count value s.fits room words i ∙ ground arith;
    }

-- `mark` past its early return.
module _ (p : Pmm) (s : IsSized p) (base end : ℕ) (order : base < end)
    (within : end ≤ max_memory p) where
  top : end < 2 ^ 40
  top = omega (arith, s.small)

  set_between-Marks :
      Marks p
        (λ i. (leb base (i * 4096) && leb (i * 4096 + 4096) end) || test p.frames i)
        (mark_between p base end true)
  unfolding mark_between
  set_between-Marks =
      let up = align_up_lem 64 12 base (omega arith) (omega (arith, top)) in
      let down = align_down_lem 64 12 end (omega arith) (omega (arith, top)) in
      elim (Bool-cases (leb (align_down 64 end 4096) (align_up 64 base 4096))) [
        | inl none ↦
            rw none
              (Marks-ext p p (test p.frames) _ (λ i h. ground (arith, up, down)) (Marks-none p s))
        | inr more ↦
            rw (more, set_range-apply p.frames)
              (Marks-ext p _ _ _ (λ i h. ground (arith, up, down))
                (written-Marks p (align_up 64 base 4096) (align_down 64 end 4096) true s up.0
                  (omega (arith, down)) (ground arith) (omega (arith, down))))
      ]

  clear_between-Marks :
      Marks p
        (λ i. not (ltb (i * 4096) end && ltb base (i * 4096 + 4096)) && test p.frames i)
        (mark_between p base end false)
  unfolding mark_between
  clear_between-Marks =
      let up = align_up_lem 64 12 end (omega arith) (omega (arith, top)) in
      let down = align_down_lem 64 12 base (omega arith) (omega (arith, top)) in
      let below : (leb (align_up 64 end 4096) (align_down 64 base 4096)) ≡ false = ground arith in
      rw (below, clear_range-apply p.frames)
        (Marks-ext p _ _ _ (λ i h. ground (arith, up, down))
          (written-Marks p (align_down 64 base 4096) (align_up 64 end 4096) false s
            (omega (arith, down)) up.0 (ground arith) (omega (arith, up, within))))

-- `mark` sets exactly the frames that lie within usable bytes, and clears exactly those that
-- reserved bytes touch.
pub set-Marks :
    (p : Pmm) (base size : ℕ)
    → IsSized p
    → Marks p (λ i. covers base size i || test p.frames i) (mark p base size true)
unfolding mark
set-Marks p base size s = elim (Bool-cases ((size == 0) || leb (max_memory p) base)) [
  | inl none ↦ rw none (Marks-ext p p (test p.frames) _ (λ i h. ground arith) (Marks-none p s))
  | inr some_bytes ↦ rw some_bytes (
      Marks-ext p _ _ _ (λ i h. ground arith)
        (set_between-Marks p s base
          (if ltb (max_memory p - base) size then max_memory p else base + size) (ground arith)
          (ground arith)))
]

pub clear-Marks :
    (p : Pmm) (base size : ℕ)
    → IsSized p
    → Marks p (λ i. not (touches base size i) && test p.frames i) (mark p base size false)
unfolding mark
clear-Marks p base size s = elim (Bool-cases ((size == 0) || leb (max_memory p) base)) [
  | inl none ↦ rw none (Marks-ext p p (test p.frames) _ (λ i h. ground arith) (Marks-none p s))
  | inr some_bytes ↦ rw some_bytes (
      Marks-ext p _ _ _ (λ i h. ground arith)
        (clear_between-Marks p s base
          (if ltb (max_memory p - base) size then max_memory p else base + size) (ground arith)
          (ground arith)))
]
