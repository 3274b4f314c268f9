-- ===== src/Pmm/Lists.antt =====
-- The two lists of blocks together: each is a chain, no block is on both, and a block that changes
-- its number of free frames moves to the list of that number.
use mathlib.Core.Path.{subst, fun_ext}
use doom_os.Base.{
  ℕ, suc, ◌<◌, ◌≡◌, ◌≢◌, ◌⊎◌, inl, inr, refl, sym, Bool, true, false, ◌&&◌, some, ◌==◌, ◌!=◌,
  if◌then◌else◌, arith,
}
use doom_os.Pmm.{
  Pmm, Head, whole_list, broken_list, nil, block, block_count, head_of, push, unlink, same_list,
}
use doom_os.Pmm.Chain.{
  IsChain, IsChain-ext, IsChain-subst, push-IsChain, unlink-IsChain, rank_with, with_block,
}
use doom_os.Pmm.Push.{push-Keeps, next-push, prev-push, head_of-push, other_head-push}
use doom_os.Pmm.Unlink.{unlink-Keeps, next-unlink, prev-unlink, head_of-unlink, other_head-unlink}

abbrev pub next_in : Pmm → ℕ → ℕ
next_in p i = (block p i).next

abbrev pub prev_in : Pmm → ℕ → ℕ
prev_in p i = (block p i).prev

-- The blocks of `inside` are the list of `head`.
pub record IsListed (p : Pmm) (head : Head) (inside : ℕ → Bool) : Type 0 where
  pub rank : ℕ → ℕ
  pub bound : ℕ
  pub chain : IsChain (next_in p) (prev_in p) (head_of p head) inside rank
  pub below : (i : ℕ) → inside i ≡ true → rank i < bound

-- Both lists.
pub record AreListed (p : Pmm) (inside : Head → ℕ → Bool) : Type 0 where
  pub small : block_count p < nil
  pub within : (h : Head) (i : ℕ) → inside h i ≡ true → i < block_count p
  pub apart : (i : ℕ) → (inside whole_list i && inside broken_list i) ≡ false
  pub listed : (h : Head) → IsListed p h (inside h)

pub IsListed-frame :
    (p q : Pmm) (head : Head) (inside : ℕ → Bool)
    → IsListed p head inside
    → head_of q head ≡ head_of p head
    → ((i : ℕ) → inside i ≡ true → (next_in q i ≡ next_in p i) × (prev_in q i ≡ prev_in p i))
    → IsListed q head inside
IsListed-frame p q head inside l e same = record {
  rank = l.rank;
  bound = l.bound;
  chain =
      IsChain-subst (next_in q) (prev_in q) (next_in q) (prev_in q) (head_of p head)
        (head_of q head) inside inside l.rank (λ i. refl) (λ i. refl) (sym e) (λ i. refl)
        (IsChain-ext (next_in p) (prev_in p) (next_in q) (prev_in q) (head_of p head) inside l.rank
          l.chain same);
  below = l.below;
}

abbrev pub same_head : Head → Head → Bool
same_head h o = same_list (some h) (some o)

-- The members of the lists after a block is taken out, or put on the list of `h`.
abbrev pub removed : (Head → ℕ → Bool) → ℕ → Head → ℕ → Bool
removed inside index o i = (i != index) && inside o i

abbrev pub added : (Head → ℕ → Bool) → Head → ℕ → Head → ℕ → Bool
added inside h index o i = if i == index then same_head h o else inside o i

pub Head-cases : (h o : Head) → (o ≡ h) ⊎ (o ≢ h)
Head-cases whole_list whole_list = inl refl
Head-cases whole_list broken_list = inr (λ e. cc)
Head-cases broken_list whole_list = inr (λ e. cc)
Head-cases broken_list broken_list = inl refl

pub same_head_refl : (h : Head) → same_head h h ≡ true
same_head_refl whole_list = refl
same_head_refl broken_list = refl

pub same_head_ne : (h o : Head) → o ≢ h → same_head h o ≡ false
same_head_ne whole_list whole_list ne = absurd (ne refl)
same_head_ne whole_list broken_list ne = refl
same_head_ne broken_list whole_list ne = refl
same_head_ne broken_list broken_list ne = absurd (ne refl)

one_head : (h : Head) → (same_head h whole_list && same_head h broken_list) ≡ false
one_head whole_list = refl
one_head broken_list = refl

disjoint :
    (inside : Head → ℕ → Bool) (h o : Head) (i : ℕ)
    → (inside whole_list i && inside broken_list i) ≡ false
    → o ≢ h
    → (inside h i && inside o i) ≡ false
disjoint inside whole_list whole_list i e ne = absurd (ne refl)
disjoint inside whole_list broken_list i e ne = e
disjoint inside broken_list whole_list i e ne = ground arith
disjoint inside broken_list broken_list i e ne = absurd (ne refl)

IsListed-members :
    (p : Pmm) (head : Head) (inside inside' : ℕ → Bool)
    → ((i : ℕ) → inside i ≡ inside' i)
    → IsListed p head inside
    → IsListed p head inside'
IsListed-members p head inside inside' e = subst (IsListed p head) (fun_ext e)

module _ (p : Pmm) (inside : Head → ℕ → Bool) (a : AreListed p inside) (h : Head) (index : ℕ) where
  module _ (held : inside h index ≡ true) where
    on_array : index < block_count p
    on_array = a.within h index held

    pub ok_next : next_in p index ≢ nil → next_in p index < block_count p
    ok_next ne = a.within h _ ((a.listed h).chain.forth index held ne).0

    pub ok_prev : prev_in p index ≢ nil → prev_in p index < block_count p
    ok_prev ne = a.within h _ ((a.listed h).chain.back index held ne).0

    pub no_loop : prev_in p index ≢ index
    no_loop e =
        let l = (a.listed h).chain in ground (arith, l.back index held, l.proper, a.small, on_array)

    unlink_same : IsListed (unlink p h index) h (removed inside index h)
    unlink_same = record {
      rank = (a.listed h).rank;
      bound = (a.listed h).bound;
      chain =
          unlink-IsChain (next_in p) (prev_in p) (next_in (unlink p h index))
            (prev_in (unlink p h index)) (head_of p h) (head_of (unlink p h index) h) index
            (inside h) (a.listed h).rank (a.listed h).chain held
            (head_of-unlink p h index on_array ok_next ok_prev no_loop)
            (next-unlink p h index on_array ok_next ok_prev no_loop)
            (prev-unlink p h index on_array ok_next ok_prev no_loop);
      below = λ i m. (a.listed h).below i (ground arith);
    }

    unlink_other : (o : Head) → o ≢ h → IsListed (unlink p h index) o (removed inside index o)
    unlink_other o ne =
        IsListed-members (unlink p h index) o (inside o) (removed inside index o)
          (λ i. ground (arith, disjoint inside h o i (a.apart i) ne))
          (IsListed-frame p (unlink p h index) o (inside o) (a.listed o)
            (other_head-unlink p h index on_array ok_next ok_prev no_loop o ne)
            (λ i m. (
              ground (
                arith,
                next-unlink p h index on_array ok_next ok_prev no_loop i,
                (a.listed h).chain.back index held,
                disjoint inside h o i (a.apart i) ne,
              ),
              ground (
                arith,
                prev-unlink p h index on_array ok_next ok_prev no_loop i,
                (a.listed h).chain.forth index held,
                disjoint inside h o i (a.apart i) ne,
              ),
            )))

    -- `unlink` takes the block off its list, and leaves the other list as it is.
    pub unlink-AreListed : AreListed (unlink p h index) (removed inside index)
    unlink-AreListed = record {
      small = rw (unlink-Keeps p h index on_array ok_next ok_prev no_loop).count a.small;
      within = λ o i m.
          rw (unlink-Keeps p h index on_array ok_next ok_prev no_loop).count
            (a.within o i (ground arith));
      apart = λ i. ground (arith, a.apart i);
      listed = λ o. elim (Head-cases h o) [
        | inl same ↦
            subst (λ g. IsListed (unlink p h index) g (removed inside index g)) (sym same)
              unlink_same
        | inr other ↦ unlink_other o other
      ];
    }

  -- A block on no list, put in front of the list of `h`.
  module _ (free_block : (o : Head) → inside o index ≡ false)
      (on_array : index < block_count p) where
    in_array : index < nil
    in_array = omega (arith, a.small)

    pub ok_head : head_of p h ≢ nil → head_of p h < block_count p
    ok_head ne = a.within h _ ((a.listed h).chain.start ne).0

    push_same : IsListed (push p h index) h (added inside h index h)
    push_same =
        IsListed-members (push p h index) h (with_block index (inside h)) (added inside h index h)
          (λ i. ground (arith, same_head_refl h))
          (record {
            rank = rank_with index (a.listed h).bound (a.listed h).rank;
            bound = suc (a.listed h).bound;
            chain =
                subst
                  (λ top.
                    IsChain (next_in (push p h index)) (prev_in (push p h index)) top
                      (with_block index (inside h))
                      (rank_with index (a.listed h).bound (a.listed h).rank))
                  (sym (head_of-push p h index on_array in_array ok_head))
                  (push-IsChain (next_in p) (prev_in p) (next_in (push p h index))
                    (prev_in (push p h index)) (head_of p h) index (inside h) (a.listed h).rank
                    (a.listed h).bound (a.listed h).chain (a.listed h).below (free_block h)
                    (λ e. omega arith) (next-push p h index on_array in_array ok_head)
                    (λ j. ground (
                      arith,
                      prev-push p h index on_array in_array ok_head j,
                      (a.listed h).chain.start,
                      free_block h,
                    )));
            below = λ i m. ground (arith, (a.listed h).below i);
          })

    push_other : (o : Head) → o ≢ h → IsListed (push p h index) o (added inside h index o)
    push_other o ne =
        IsListed-members (push p h index) o (inside o) (added inside h index o)
          (λ i. ground (arith, same_head_ne h o ne, free_block o))
          (IsListed-frame p (push p h index) o (inside o) (a.listed o)
            (other_head-push p h index on_array in_array ok_head o ne)
            (λ i m. (
              ground (arith, next-push p h index on_array in_array ok_head i, free_block o),
              ground (
                arith,
                prev-push p h index on_array in_array ok_head i,
                free_block o,
                (a.listed h).chain.start,
                disjoint inside h o i (a.apart i) ne,
              ),
            )))

    -- `push` adds the block to that list, and leaves the other list as it is.
    pub push-AreListed : AreListed (push p h index) (added inside h index)
    push-AreListed = record {
      small = rw (push-Keeps p h index on_array in_array ok_head).count a.small;
      within = λ o i m.
          rw (push-Keeps p h index on_array in_array ok_head).count (ground (arith, a.within o i));
      apart = λ i. ground (arith, a.apart i, one_head h);
      listed = λ o. elim (Head-cases h o) [
        | inl same ↦
            subst (λ g. IsListed (push p h index) g (added inside h index g)) (sym same) push_same
        | inr other ↦ push_other o other
      ];
    }
