-- ===== src/Pmm/Links.antt =====
-- Reading a block or a list head of the allocator after a write of either.
use doom_os.Base.{
  ℕ, ◌<◌, ◌≡◌, ◌≢◌, inl, inr, refl, ◌∙◌, ◌==◌, if◌then◌else◌, arith, Bool-cases, length, length-set,
  get_or-set_self, get_or-set_ne,
}
use doom_os.Pmm.{
  Block, no_block, Pmm, Head, whole_list, broken_list, block, set_block, head_of, set_head,
}

-- A block written and read back.
pub block-set_block :
    (p : Pmm) (i j : ℕ) (b : Block)
    → i < length p.blocks
    → block (set_block p i b) j ≡ (if i == j then b else block p j)
block-set_block p i j b h = elim (Bool-cases (i == j)) [
  | inl same ↦
      let e : i ≡ j = ground arith in
      rw same (ground (arith, get_or-set_self p.blocks i b no_block h))
  | inr other ↦ let ne : i ≢ j = ground arith in rw other (get_or-set_ne p.blocks i j b no_block ne)
]

pub blocks-set_head : (p : Pmm) (head : Head) (v : ℕ) → (set_head p head v).blocks ≡ p.blocks
blocks-set_head p whole_list v = refl
blocks-set_head p broken_list v = refl

pub frames-set_head : (p : Pmm) (head : Head) (v : ℕ) → (set_head p head v).frames ≡ p.frames
frames-set_head p whole_list v = refl
frames-set_head p broken_list v = refl

pub head_of-set_head : (p : Pmm) (head other : Head) (v : ℕ) → head_of (set_head p head v) head ≡ v
head_of-set_head p whole_list other v = refl
head_of-set_head p broken_list other v = refl

pub head_of-set_block :
    (p : Pmm) (head : Head) (i : ℕ) (b : Block) → head_of (set_block p i b) head ≡ head_of p head
head_of-set_block p whole_list i b = refl
head_of-set_block p broken_list i b = refl

pub other_head-set_head :
    (p : Pmm) (head other : Head) (v : ℕ)
    → other ≢ head
    → head_of (set_head p head v) other ≡ head_of p other
other_head-set_head p whole_list whole_list v ne = absurd (ne refl)
other_head-set_head p whole_list broken_list v ne = refl
other_head-set_head p broken_list whole_list v ne = refl
other_head-set_head p broken_list broken_list v ne = absurd (ne refl)

-- A write of the next or the prev link of one block.
module _ (p : Pmm) (i : ℕ) (b : Block) (h : i < length p.blocks) where
  pub next-set_block :
      (j : ℕ) → (block (set_block p i b) j).next ≡ (if i == j then b.next else (block p j).next)
  next-set_block j = rw (block-set_block p i j b h) (ground arith)

  pub prev-set_block :
      (j : ℕ) → (block (set_block p i b) j).prev ≡ (if i == j then b.prev else (block p j).prev)
  prev-set_block j = rw (block-set_block p i j b h) (ground arith)

  pub free-set_block :
      (j : ℕ) → b.free ≡ (block p i).free → (block (set_block p i b) j).free ≡ (block p j).free
  free-set_block j e = rw (block-set_block p i j b h) (ground arith)

-- The parts of a state that the links do not touch.
pub record Keeps (p q : Pmm) : Type 0 where
  pub count : length q.blocks ≡ length p.blocks
  pub frames : q.frames ≡ p.frames
  pub free : (j : ℕ) → (block q j).free ≡ (block p j).free

pub Keeps-trans : {p q r : Pmm} → Keeps p q → Keeps q r → Keeps p r
Keeps-trans a b = record {
  count = b.count ∙ a.count;
  frames = b.frames ∙ a.frames;
  free = λ j. b.free j ∙ a.free j;
}

pub set_block-Keeps :
    (p : Pmm) (i : ℕ) (b : Block)
    → i < length p.blocks
    → b.free ≡ (block p i).free
    → Keeps p (set_block p i b)
set_block-Keeps p i b h e = record {
  count = length-set p.blocks i b;
  frames = refl;
  free = λ j. free-set_block p i b h j e;
}

pub set_head-Keeps : (p : Pmm) (head : Head) (v : ℕ) → Keeps p (set_head p head v)
set_head-Keeps p whole_list v = record { count = refl; frames = refl; free = λ j. refl }
set_head-Keeps p broken_list v = record { count = refl; frames = refl; free = λ j. refl }

pub Keeps-refl : (p : Pmm) → Keeps p p
Keeps-refl p = record { count = refl; frames = refl; free = λ j. refl }
