-- ===== src/Pmm/Valid.antt =====
-- The allocator's invariant, and the blocks' numbers of free frames.
use doom_os.Base.{
  ℕ, zero, suc, ◌+◌, ◌*◌, ◌^◌, ◌≤◌, ◌<◌, ◌≡◌, refl, ◌∙◌, ◌&&◌, ltb, leb, if◌then◌else◌, arith,
  length,
}
use doom_os.Bitmap.{Bitmap, test}
use doom_os.Bitmap.Scan.{Fits}
use doom_os.Bitmap.Count.{count_where}
use doom_os.Pmm.{
  Pmm, block, block_count, set_free, set_free_all, Head, whole_list, broken_list, head_of,
}
use doom_os.Pmm.Lists.{IsListed-frame}
use doom_os.Pmm.Moves.{IsLinked, on_list, set_free-SetsFree}

-- The lists hold the blocks that belong on them, and each block's number of free frames is the
-- number of set bits among its 512.
pub record IsValid (p : Pmm) : Type 0 where
  pub linked : IsLinked p
  pub sized : length p.frames ≡ 8 * block_count p
  pub fits : Fits p.frames
  pub counted :
      (i : ℕ) → i < block_count p → (block p i).free ≡ count_where (test p.frames) (i * 512) 512

-- `set_free` of a run of blocks.
pub record SetsFreeAll (p : Pmm) (first n free : ℕ) (q : Pmm) : Type 0 where
  pub linked : IsLinked q
  pub count : block_count q ≡ block_count p
  pub frames : q.frames ≡ p.frames
  pub free_of :
      (j : ℕ)
      → (block q j).free ≡ (if leb first j && ltb j (first + n) then free else (block p j).free)

pub set_free_all-SetsFreeAll :
    (p : Pmm) (first n free : ℕ)
    → IsLinked p
    → first + n ≤ block_count p
    → free < 2 ^ 16
    → SetsFreeAll p first n free (set_free_all p first n free)
unfolding set_free_all
set_free_all-SetsFreeAll p first zero free linked inside small = record {
  linked = linked;
  count = refl;
  frames = refl;
  free_of = λ j. ground arith;
}
set_free_all-SetsFreeAll p first (suc n) free linked inside small =
    let one = set_free-SetsFree p first free linked (omega arith) small in
    let rest =
      set_free_all-SetsFreeAll (set_free p first free) (first + 1) n free one.linked
        (rw one.count (omega arith)) small in
    record {
      linked = rest.linked;
      count = rest.count ∙ one.count;
      frames = rest.frames ∙ one.frames;
      free_of = λ j. rest.free_of j ∙ ground (arith, one.free_of j);
    }

-- The lists do not look at the bitmap.
head_of-frames :
    (p : Pmm) (words : Bitmap) (h : Head) → head_of (record p { frames = words }) h ≡ head_of p h
head_of-frames p words whole_list = refl
head_of-frames p words broken_list = refl

pub frames-IsLinked :
    (p : Pmm) (words : Bitmap) → IsLinked p → IsLinked (record p { frames = words })
frames-IsLinked p words l = record {
  small = l.small;
  within = l.within;
  apart = l.apart;
  listed = λ h.
      IsListed-frame p (record p { frames = words }) h (on_list p h) (l.listed h)
        (head_of-frames p words h) (λ i m. (refl, refl));
}

-- A state with the lists in order and the numbers right for its bitmap.
pub revalid :
    (q : Pmm)
    → IsLinked q
    → length q.frames ≡ 8 * block_count q
    → Fits q.frames
    → ((i : ℕ) → i < block_count q → (block q i).free ≡ count_where (test q.frames) (i * 512) 512)
    → IsValid q
revalid q l s f c = record { linked = l; sized = s; fits = f; counted = c }
