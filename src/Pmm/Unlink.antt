-- ===== src/Pmm/Unlink.antt =====
-- What `unlink` of kernel/mm/pmm.cpp leaves in each block and list head.
use doom_os.Base.{
  ℕ, ◌<◌, ◌≡◌, ◌≢◌, inl, inr, refl, ◌∙◌, ap, ◌&&◌, ◌==◌, ◌!=◌, if◌then◌else◌, arith, Bool-cases,
  length, get_or,
}
use doom_os.Pmm.{no_block, Pmm, Head, nil, block, head_of, bypass, bypass_back, unlink}
use doom_os.Pmm.Links.{
  blocks-set_head, head_of-set_head, other_head-set_head, head_of-set_block, next-set_block,
  prev-set_block, Keeps, Keeps-trans, Keeps-refl, set_block-Keeps, set_head-Keeps,
}

module _ (p : Pmm) (head : Head) (index : ℕ) (inside_array : index < length p.blocks)
    (ok_next : (block p index).next ≢ nil → (block p index).next < length p.blocks)
    (ok_prev : (block p index).prev ≢ nil → (block p index).prev < length p.blocks)
    (no_loop : (block p index).prev ≢ index) where
  bypass-Keeps : Keeps p (bypass p head index)
  unfolding bypass
  bypass-Keeps = elim (Bool-cases ((block p index).prev == nil)) [
    | inl top ↦ rw top (set_head-Keeps p head (block p index).next)
    | inr more ↦ rw more (set_block-Keeps p (block p index).prev _ (ok_prev (ground arith)) refl)
  ]

  next-bypass :
      (j : ℕ)
      → (block (bypass p head index) j).next ≡ (
          if ((block p index).prev != nil) && ((block p index).prev == j)
          then (block p index).next
          else (block p j).next)
  unfolding bypass
  next-bypass j = elim (Bool-cases ((block p index).prev == nil)) [
    | inl top ↦ rw top (
        ap (λ bs. (get_or bs j no_block).next) (blocks-set_head p head (block p index).next)
        ∙ ground arith)
    | inr more ↦
        rw more (next-set_block p (block p index).prev _ (ok_prev (ground arith)) j ∙ ground arith)
  ]

  prev-bypass : (j : ℕ) → (block (bypass p head index) j).prev ≡ (block p j).prev
  unfolding bypass
  prev-bypass j = elim (Bool-cases ((block p index).prev == nil)) [
    | inl top ↦
        rw top
          (ap (λ bs. (get_or bs j no_block).prev) (blocks-set_head p head (block p index).next))
    | inr more ↦
        rw more (prev-set_block p (block p index).prev _ (ok_prev (ground arith)) j ∙ ground arith)
  ]

  head_of-bypass :
      head_of (bypass p head index) head
      ≡ (if (block p index).prev == nil then (block p index).next else head_of p head)
  unfolding bypass
  head_of-bypass = elim (Bool-cases ((block p index).prev == nil)) [
    | inl top ↦ rw top (head_of-set_head p head head (block p index).next)
    | inr more ↦ rw more (
        head_of-set_block p head (block p index).prev
          (record (block p (block p index).prev) { next = (block p index).next }))
  ]

  other_head-bypass :
      (other : Head) → other ≢ head → head_of (bypass p head index) other ≡ head_of p other
  unfolding bypass
  other_head-bypass other ne = elim (Bool-cases ((block p index).prev == nil)) [
    | inl top ↦ rw top (other_head-set_head p head other (block p index).next ne)
    | inr more ↦ rw more (
        head_of-set_block p other (block p index).prev
          (record (block p (block p index).prev) { next = (block p index).next }))
  ]

  after : Pmm
  after = bypass p head index

  next_after : (block after index).next ≡ (block p index).next
  unfolding after
  next_after = ground (arith, next-bypass index)

  prev_after : (block after index).prev ≡ (block p index).prev
  unfolding after
  prev_after = prev-bypass index

  ok_after : (block after index).next ≢ nil → (block after index).next < length after.blocks
  unfolding after
  ok_after ne = ground (arith, next_after, ok_next, bypass-Keeps.count)

  pub unlink-Keeps : Keeps p (unlink p head index)
  unfolding unlink bypass_back after
  unlink-Keeps = Keeps-trans bypass-Keeps (elim (Bool-cases ((block after index).next != nil)) [
    | inl more ↦
        rw more (set_block-Keeps after (block after index).next _ (ok_after (ground arith)) refl)
    | inr end ↦ rw end (Keeps-refl after)
  ])

  pub next-unlink :
      (j : ℕ)
      → (block (unlink p head index) j).next ≡ (
          if ((block p index).prev != nil) && ((block p index).prev == j)
          then (block p index).next
          else (block p j).next)
  unfolding unlink bypass_back after
  next-unlink j = elim (Bool-cases ((block after index).next != nil)) [
    | inl more ↦ rw more (
        next-set_block after (block after index).next _ (ok_after (ground arith)) j
        ∙ ground (arith, next-bypass j))
    | inr end ↦ rw end (next-bypass j)
  ]

  pub prev-unlink :
      (j : ℕ)
      → (block (unlink p head index) j).prev ≡ (
          if ((block p index).next != nil) && ((block p index).next == j)
          then (block p index).prev
          else (block p j).prev)
  unfolding unlink bypass_back after
  prev-unlink j = elim (Bool-cases ((block after index).next != nil)) [
    | inl more ↦ rw more (
        prev-set_block after (block after index).next _ (ok_after (ground arith)) j
        ∙ ground (arith, prev-bypass j, next_after, prev_after))
    | inr end ↦ rw end (ground (arith, prev-bypass j, next_after))
  ]

  heads_back : (other : Head) → head_of (unlink p head index) other ≡ head_of after other
  unfolding unlink bypass_back after
  heads_back other = elim (Bool-cases ((block after index).next != nil)) [
    | inl more ↦ rw more (
        head_of-set_block after other (block after index).next
          (record (block after (block after index).next) { prev = (block after index).prev }))
    | inr end ↦ rw end
  ]

  pub head_of-unlink :
      head_of (unlink p head index) head
      ≡ (if (block p index).prev == nil then (block p index).next else head_of p head)
  unfolding after
  head_of-unlink = heads_back head ∙ head_of-bypass

  pub other_head-unlink :
      (other : Head) → other ≢ head → head_of (unlink p head index) other ≡ head_of p other
  unfolding after
  other_head-unlink other ne = heads_back other ∙ other_head-bypass other ne
