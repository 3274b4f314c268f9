-- ===== src/Pmm/Chain.antt =====
-- The doubly linked lists that are threaded through the blocks, over the functions that read their
-- links: what makes them lists, and that adding in front and taking out keep them so.
use mathlib.Core.Path.{subst₂, fun_ext}
use doom_os.Base.{
  ℕ, zero, suc, ◌+◌, ◌≤◌, ◌<◌, ◌≡◌, ◌≢◌, inl, inr, Bool, true, false, ◌&&◌, ◌||◌, ◌==◌, ◌!=◌,
  if◌then◌else◌, arith, Bool-cases,
}
use doom_os.Pmm.{nil}

-- The blocks of `inside` form one list from `head`, by the links `next` and `prev`. `rank` falls
-- along `next`, so that the list has no cycle and the head is reached from each block.
pub record IsChain (next prev : ℕ → ℕ) (head : ℕ) (inside : ℕ → Bool) (rank : ℕ → ℕ) : Type 0 where
  pub proper : inside nil ≡ false
  pub start : head ≢ nil → (inside head ≡ true) × (prev head ≡ nil)
  pub first : (i : ℕ) → inside i ≡ true → prev i ≡ nil → head ≡ i
  pub back :
      (i : ℕ)
      → inside i ≡ true
      → prev i ≢ nil
      → (inside (prev i) ≡ true) × (next (prev i) ≡ i) × (rank i < rank (prev i))
  pub forth :
      (i : ℕ) → inside i ≡ true → next i ≢ nil → (inside (next i) ≡ true) × (prev (next i) ≡ i)

-- A list that holds a block has a head: going back along `prev`, `rank` rises, below the bound.
pub head-ne-nil :
    (next prev : ℕ → ℕ) (head : ℕ) (inside : ℕ → Bool) (rank : ℕ → ℕ) (bound : ℕ)
    → IsChain next prev head inside rank
    → ((i : ℕ) → inside i ≡ true → rank i < bound)
    → (fuel i : ℕ) → bound ≤ rank i + fuel
    → inside i ≡ true
    → head ≢ nil
head-ne-nil next prev head inside rank bound c below zero i h held =
    absurd (omega (arith, below i held))
head-ne-nil next prev head inside rank bound c below (suc fuel) i h held =
    elim (Bool-cases (prev i == nil)) [
      | inl top ↦
          λ e. let at_head : head ≡ i = c.first i held (ground arith) in ground (arith, c.proper)
      | inr more ↦
          let (there, _, up) = c.back i held (ground arith) in
          head-ne-nil next prev head inside rank bound c below fuel (prev i) (omega arith) there
    ]

-- Only the links of its own blocks matter to a list.
pub IsChain-ext :
    (next prev next' prev' : ℕ → ℕ) (head : ℕ) (inside : ℕ → Bool) (rank : ℕ → ℕ)
    → IsChain next prev head inside rank
    → ((i : ℕ) → inside i ≡ true → (next' i ≡ next i) × (prev' i ≡ prev i))
    → IsChain next' prev' head inside rank
IsChain-ext next prev next' prev' head inside rank c same = record {
  proper = c.proper;
  start = λ ne. (ground (arith, c.start ne), ground (arith, c.start ne, same head));
  first = λ i held e. ground (arith, c.first i held, same i held);
  back = λ i held ne. ground (arith, c.back i held, same i held, same (prev i));
  forth = λ i held ne. ground (arith, c.forth i held, same i held, same (next i));
}

abbrev pub with_block : ℕ → (ℕ → Bool) → ℕ → Bool
with_block index inside i = (i == index) || inside i

abbrev pub without_block : ℕ → (ℕ → Bool) → ℕ → Bool
without_block index inside i = (i != index) && inside i

-- A block put in front ranks above all others.
abbrev pub rank_with : ℕ → ℕ → (ℕ → ℕ) → ℕ → ℕ
rank_with index bound rank i = if i == index then bound else rank i

-- A block put in front of the list.
module _ (next prev next' prev' : ℕ → ℕ) (head index : ℕ) (inside : ℕ → Bool) (rank : ℕ → ℕ)
    (bound : ℕ) (c : IsChain next prev head inside rank)
    (below : (i : ℕ) → inside i ≡ true → rank i < bound) (fresh : inside index ≡ false)
    (small : index ≢ nil) (next-eq : (j : ℕ) → next' j ≡ (if index == j then head else next j))
    (prev-eq : (j : ℕ)
      → prev' j ≡ (
          if index == j then nil else if (head != nil) && (head == j) then index else prev j)) where
  pub push-IsChain :
      IsChain next' prev' index (with_block index inside) (rank_with index bound rank)
  push-IsChain = record {
    proper = ground (arith, c.proper);
    start = λ ne. ground (arith, prev-eq index);
    first = λ i held e. ground (arith, prev-eq i, c.first i);
    back = λ i held ne. ground (arith, prev-eq i, next-eq (prev' i), c.back i, below i, c.start);
    forth = λ i held ne. ground (arith, next-eq i, prev-eq (next' i), c.forth i, c.start, c.proper);
  }

-- A block taken out of the list.
module _ (next prev next' prev' : ℕ → ℕ) (head head' index : ℕ) (inside : ℕ → Bool) (rank : ℕ → ℕ)
    (c : IsChain next prev head inside rank) (held : inside index ≡ true)
    (head-eq : head' ≡ (if prev index == nil then next index else head))
    (next-eq : (j : ℕ)
      → next' j ≡ (if (prev index != nil) && (prev index == j) then next index else next j))
    (prev-eq : (j : ℕ)
      → prev' j ≡ (if (next index != nil) && (next index == j) then prev index else prev j)) where
  pub unlink-IsChain : IsChain next' prev' head' (without_block index inside) rank
  unlink-IsChain = record {
    proper = ground (arith, c.proper);
    start = λ ne. ground (arith, head-eq, prev-eq head', c.start, c.forth index, c.back index);
    first = λ i there e. ground (arith, prev-eq i, c.first i, c.first index, head-eq);
    back = λ i there ne.
        ground
          (arith, prev-eq i, next-eq (prev' i), c.back i, c.back index, c.forth index, c.proper);
    forth = λ i there ne.
        ground
          (arith, next-eq i, prev-eq (next' i), c.forth i, c.forth index, c.back index, c.proper);
  }

-- Links and members that agree everywhere.
pub IsChain-subst :
    (next prev next' prev' : ℕ → ℕ) (head head' : ℕ) (inside inside' : ℕ → Bool) (rank : ℕ → ℕ)
    → ((i : ℕ) → next i ≡ next' i)
    → ((i : ℕ) → prev i ≡ prev' i)
    → head ≡ head'
    → ((i : ℕ) → inside i ≡ inside' i)
    → IsChain next prev head inside rank
    → IsChain next' prev' head' inside' rank
IsChain-subst next prev next' prev' head head' inside inside' rank n p h m c =
    subst₂ (λ a b. IsChain a b head' inside' rank) (fun_ext n) (fun_ext p)
      (subst₂ (λ a b. IsChain next prev a b rank) h (fun_ext m) c)
