-- ===== src/Pmm/Push.antt =====
-- What `push` of kernel/mm/pmm.cpp leaves in each block and list head.
use doom_os.Base.{
  ℕ, ◌%◌, ◌^◌, ◌<◌, ◌≡◌, ◌≢◌, inl, inr, refl, ◌∙◌, ap, ◌&&◌, ◌==◌, ◌!=◌, if◌then◌else◌, arith,
  Bool-cases, length, get_or,
}
use doom_os.Pmm.{Block, no_block, Pmm, Head, nil, block, head_of, link_front, link_old, push}
use doom_os.Pmm.Links.{
  blocks-set_head, head_of-set_head, other_head-set_head, head_of-set_block, next-set_block,
  prev-set_block, Keeps, Keeps-trans, Keeps-refl, set_block-Keeps, set_head-Keeps,
}

-- `link_old`.
module _ (p : Pmm) (old index : ℕ) (ok_old : old ≢ nil → old < length p.blocks) where
  link_old-Keeps : Keeps p (link_old p old index)
  unfolding link_old
  link_old-Keeps = elim (Bool-cases (old != nil)) [
    | inl more ↦ rw more (set_block-Keeps p old _ (ok_old (ground arith)) refl)
    | inr end ↦ rw end (Keeps-refl p)
  ]

  next-link_old : (j : ℕ) → (block (link_old p old index) j).next ≡ (block p j).next
  unfolding link_old
  next-link_old j = elim (Bool-cases (old != nil)) [
    | inl more ↦ rw more (next-set_block p old _ (ok_old (ground arith)) j ∙ ground arith)
    | inr end ↦ rw end
  ]

  prev-link_old :
      (j : ℕ)
      → (block (link_old p old index) j).prev
        ≡ (if (old != nil) && (old == j) then index % 2 ^ 16 else (block p j).prev)
  unfolding link_old
  prev-link_old j = elim (Bool-cases (old != nil)) [
    | inl more ↦ rw more (prev-set_block p old _ (ok_old (ground arith)) j ∙ ground arith)
    | inr end ↦ rw end
  ]

  head_of-link_old : (head : Head) → head_of (link_old p old index) head ≡ head_of p head
  unfolding link_old
  head_of-link_old head = elim (Bool-cases (old != nil)) [
    | inl more ↦
        rw more (head_of-set_block p head old (record (block p old) { prev = index % 2 ^ 16 }))
    | inr end ↦ rw end
  ]

-- The same reads of `push`.
module _ (p : Pmm) (head : Head) (index : ℕ) (inside_array : index < length p.blocks)
    (small : index < nil) (ok_head : head_of p head ≢ nil → head_of p head < length p.blocks) where
  front : Pmm
  front = link_front p head index

  front-Keeps : Keeps p front
  unfolding front link_front
  front-Keeps = set_block-Keeps p index _ inside_array refl

  ok_front : head_of p head ≢ nil → head_of p head < length front.blocks
  ok_front ne = rw (front-Keeps.count) (ok_head ne)

  pub push-Keeps : Keeps p (push p head index)
  unfolding push front
  push-Keeps = Keeps-trans front-Keeps (
      Keeps-trans (link_old-Keeps front (head_of p head) index ok_front)
        (set_head-Keeps (link_old front (head_of p head) index) head (index % 2 ^ 16)))

  block-push :
      (j : ℕ) → block (push p head index) j ≡ block (link_old front (head_of p head) index) j
  unfolding push front
  block-push j = ap (λ bs. get_or bs j no_block) (blocks-set_head _ head (index % 2 ^ 16))

  pub next-push :
      (j : ℕ)
      → (block (push p head index) j).next
        ≡ (if index == j then head_of p head else (block p j).next)
  unfolding front link_front
  next-push j =
      ap (λ (b : Block). b.next) (block-push j)
      ∙ next-link_old front (head_of p head) index ok_front j
      ∙ next-set_block p index _ inside_array j

  pub prev-push :
      (j : ℕ)
      → (block (push p head index) j).prev ≡ (
          if index == j
          then (if (head_of p head != nil) && (head_of p head == j) then index else nil)
          else if (head_of p head != nil) && (head_of p head == j)
          then index
          else (block p j).prev)
  unfolding front link_front
  prev-push j =
      ap (λ (b : Block). b.prev) (block-push j)
      ∙ prev-link_old front (head_of p head) index ok_front j
      ∙ ground (
        arith,
        prev-set_block p index (record (block p index) { next = head_of p head; prev = nil })
            inside_array j,
      )

  pub head_of-push : head_of (push p head index) head ≡ index
  unfolding push
  head_of-push = head_of-set_head _ head head (index % 2 ^ 16) ∙ omega arith

  pub other_head-push :
      (other : Head) → other ≢ head → head_of (push p head index) other ≡ head_of p other
  unfolding push link_front front
  other_head-push other ne =
      other_head-set_head _ head other (index % 2 ^ 16) ne
      ∙ head_of-link_old (link_front p head index) (head_of p head) index ok_front other
      ∙ head_of-set_block p other index
          (record (block p index) { next = head_of p head; prev = nil })
