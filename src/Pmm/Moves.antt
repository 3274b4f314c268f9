-- ===== src/Pmm/Moves.antt =====
-- `set_free` of kernel/mm/pmm.cpp: a block whose number of free frames changes is moved to the list
-- of the new number, and both lists stay lists of exactly the blocks that belong there.
use mathlib.Core.Path.{subst, fun_ext}
use doom_os.Base.{
  ℕ, ◌%◌, ◌^◌, ◌<◌, ◌≡◌, inl, inr, refl, ◌∙◌, ap, Bool, true, false, ◌&&◌, Option, none, some, ltb,
  ◌==◌, if◌then◌else◌, arith, Bool-cases, length-set,
}
use doom_os.Pmm.{
  Block, Pmm, Head, whole_list, broken_list, block, block_count, set_block, same_list, leave, enter,
  set_free, list_of,
}
use doom_os.Pmm.Links.{
  Keeps, Keeps-trans, Keeps-refl, head_of-set_block, next-set_block, prev-set_block,
  block-set_block,
}
use doom_os.Pmm.Push.{push-Keeps}
use doom_os.Pmm.Unlink.{unlink-Keeps}
use doom_os.Pmm.Lists.{
  AreListed, IsListed-frame, removed, unlink-AreListed, push-AreListed, ok_next, ok_prev, no_loop,
  ok_head,
}

-- Whether block `i` belongs on the list of `head`, by its number of free frames.
abbrev pub on_list : Pmm → Head → ℕ → Bool
on_list p head i = ltb i (block_count p) && same_list (list_of (block p i).free) (some head)

-- The lists hold exactly the blocks that belong on them.
abbrev pub IsLinked : Pmm → Type 0
IsLinked p = AreListed p (on_list p)

AreListed-members :
    (p : Pmm) (inside inside' : Head → ℕ → Bool)
    → ((o : Head) (i : ℕ) → inside o i ≡ inside' o i)
    → AreListed p inside
    → AreListed p inside'
AreListed-members p inside inside' e = subst (AreListed p) (fun_ext λ o. fun_ext (e o))

same_list_lem : (h o : Head) → same_list (some h) (some o) ≡ true → h ≡ o
same_list_lem whole_list whole_list e = refl
same_list_lem whole_list broken_list e = cc
same_list_lem broken_list whole_list e = cc
same_list_lem broken_list broken_list e = refl

same_list-none : (h : Head) → same_list none (some h) ≡ false
same_list-none whole_list = refl
same_list-none broken_list = refl

same_list-eq : (a b : Option Head) → same_list a b ≡ true → a ≡ b
same_list-eq none none e = refl
same_list-eq none (some whole_list) e = cc
same_list-eq none (some broken_list) e = cc
same_list-eq (some whole_list) none e = cc
same_list-eq (some broken_list) none e = cc
same_list-eq (some whole_list) (some whole_list) e = refl
same_list-eq (some whole_list) (some broken_list) e = cc
same_list-eq (some broken_list) (some whole_list) e = cc
same_list-eq (some broken_list) (some broken_list) e = refl

same_list-some : (h : Head) → same_list (some h) (some h) ≡ true
same_list-some whole_list = refl
same_list-some broken_list = refl

module _ (p : Pmm) (index : ℕ) (linked : IsLinked p) (on_array : index < block_count p) where
  leave-AreListed :
      (from : Option Head)
      → list_of (block p index).free ≡ from
      → AreListed (leave from p index) (removed (on_list p) index)
  leave-AreListed none e =
      AreListed-members p (on_list p) (removed (on_list p) index)
        (λ o i. ground (arith, same_list-none o)) linked
  leave-AreListed (some h) e =
      unlink-AreListed p (on_list p) linked h index (ground (arith, same_list-some h))

  leave-Keeps :
      (from : Option Head) → list_of (block p index).free ≡ from → Keeps p (leave from p index)
  leave-Keeps none e = Keeps-refl p
  leave-Keeps (some h) e =
      let held : on_list p h index ≡ true = ground (arith, same_list-some h) in
      unlink-Keeps p h index on_array (ok_next p (on_list p) linked h index held)
        (ok_prev p (on_list p) linked h index held) (no_loop p (on_list p) linked h index held)

module _ (p : Pmm) (inside : Head → ℕ → Bool) (index : ℕ) (a : AreListed p inside)
    (off : (o : Head) → inside o index ≡ false) (on_array : index < block_count p) where
  enter-AreListed :
      (to : Option Head)
      → AreListed
          (enter to p index)
          (λ o i. if i == index then same_list to (some o) else inside o i)
  enter-AreListed none =
      AreListed-members p inside _ (λ o i. ground (arith, same_list-none o, off o)) a
  enter-AreListed (some h) = push-AreListed p inside a h index off on_array

  enter-Keeps : (to : Option Head) → Keeps p (enter to p index)
  enter-Keeps none = Keeps-refl p
  enter-Keeps (some h) =
      push-Keeps p h index on_array (omega (arith, a.small))
        (ok_head p inside a h index off on_array)

abbrev counted : Pmm → ℕ → ℕ → Pmm
counted p index free = set_block p index (record (block p index) { free = free })

-- The members of the lists once `index` has `free` free frames.
abbrev members : Pmm → ℕ → ℕ → Head → ℕ → Bool
members p index free o i =
    if i == index
    then ltb index (block_count p) && same_list (list_of free) (some o)
    else on_list p o i

-- A change of the number of free frames of one block.
module _ (p : Pmm) (index free : ℕ) (on_array : index < block_count p) where
  counted-AreListed :
      (inside : Head → ℕ → Bool) → AreListed p inside → AreListed (counted p index free) inside
  counted-AreListed inside a = record {
    small = rw (length-set p.blocks index (record (block p index) { free = free })) a.small;
    within = λ o i m.
        rw (length-set p.blocks index (record (block p index) { free = free })) (a.within o i m);
    apart = a.apart;
    listed = λ o.
        IsListed-frame p (counted p index free) o (inside o) (a.listed o)
          (head_of-set_block p o index (record (block p index) { free = free }))
          (λ i m. (
            next-set_block p index (record (block p index) { free = free }) on_array i
                ∙ ground arith,
            prev-set_block p index (record (block p index) { free = free }) on_array i
                ∙ ground arith,
          ));
  }

  free_counted :
      (j : ℕ)
      → (block (counted p index free) j).free ≡ (if index == j then free else (block p j).free)
  free_counted j =
      ap (λ (b : Block). b.free)
        (block-set_block p index j (record (block p index) { free = free }) on_array)
      ∙ ground arith

-- What `set_free` does to the numbers of free frames, and that it keeps the lists.
pub record SetsFree (p : Pmm) (index free : ℕ) (q : Pmm) : Type 0 where
  pub linked : IsLinked q
  pub count : block_count q ≡ block_count p
  pub frames : q.frames ≡ p.frames
  pub free_of : (j : ℕ) → (block q j).free ≡ (if index == j then free else (block p j).free)

-- The new number, written once the block stands where it belongs.
counted-SetsFree :
    (p q : Pmm) (index free : ℕ)
    → index < block_count p
    → Keeps p q
    → AreListed q (members p index free)
    → SetsFree p index free (counted q index free)
counted-SetsFree p q index free on_array keeps a =
    let there : index < block_count q = rw keeps.count on_array in
    let count : block_count (counted q index free) ≡ block_count p =
      length-set q.blocks index (record (block q index) { free = free }) ∙ keeps.count in
    let free_of : (j : ℕ)
        → (block (counted q index free) j).free ≡ (if index == j then free else (block p j).free) =
      λ j.
        free_counted q index free there j
        ∙ ap (λ old. if index == j then free else old) (keeps.free j) in
    record {
      linked =
          AreListed-members (counted q index free) (members p index free)
            (on_list (counted q index free))
            (λ o i. ground (arith, count, free_counted q index free there i, keeps.free i))
            (counted-AreListed q index free there (members p index free) a);
      count = count;
      frames = keeps.frames;
      free_of = free_of;
    }

module _ (p : Pmm) (index free : ℕ) (linked : IsLinked p) (on_array : index < block_count p) where
  -- A block that stays on its list, or on none.
  stay-AreListed :
      same_list (list_of (block p index).free) (list_of free) ≡ true
      → AreListed p (members p index free)
  stay-AreListed e =
      let same : list_of (block p index).free ≡ list_of free = same_list-eq _ _ e in
      AreListed-members p (on_list p) (members p index free) (λ o i. ground arith) linked

  left : Pmm
  left = leave (list_of (block p index).free) p index

  left-Keeps : Keeps p left
  unfolding left
  left-Keeps = leave-Keeps p index linked on_array (list_of (block p index).free) refl

  left-AreListed : AreListed left (removed (on_list p) index)
  unfolding left
  left-AreListed = leave-AreListed p index linked on_array (list_of (block p index).free) refl

  off : (o : Head) → removed (on_list p) index o index ≡ false
  off o = ground arith

  still : index < block_count left
  still = rw left-Keeps.count on_array

  moved-AreListed : AreListed (enter (list_of free) left index) (members p index free)
  moved-AreListed =
      AreListed-members (enter (list_of free) left index)
        (λ o i.
          if i == index then same_list (list_of free) (some o) else removed (on_list p) index o i)
        (members p index free) (λ o i. ground arith)
        (enter-AreListed left (removed (on_list p) index) index left-AreListed off still
          (list_of free))

  moved-Keeps : Keeps p (enter (list_of free) left index)
  moved-Keeps =
      Keeps-trans left-Keeps
        (enter-Keeps left (removed (on_list p) index) index left-AreListed off still (list_of free))

  -- While the block lists are in order, `set_free` of a block of the array to a number below 2 ^ 16
  -- keeps them in order: it moves the block to the list of its new number, records that number, and
  -- keeps the bitmap and the number of every other block.
  pub set_free-SetsFree : free < 2 ^ 16 → SetsFree p index free (set_free p index free)
  unfolding set_free left
  set_free-SetsFree small =
      let e : free % 2 ^ 16 ≡ free = omega arith in
      elim (Bool-cases (same_list (list_of (block p index).free) (list_of free))) [
        | inl same ↦
            rw (same, e)
              (counted-SetsFree p p index free on_array (Keeps-refl p) (stay-AreListed same))
        | inr other ↦
            rw (other, e)
              (counted-SetsFree p (enter (list_of free) left index) index free on_array moved-Keeps
                moved-AreListed)
      ]
