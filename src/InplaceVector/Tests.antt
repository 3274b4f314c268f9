-- ===== src/InplaceVector/Tests.antt =====
-- Runs of the inline vector.
use doom_os.Base.{ℕ, ◌≡◌, refl, arith, [], ◌∷◌}
use doom_os.InplaceVector.{
  InplaceVector, changed, capacity, emplace_back, push_back, pop_back, try_pop_back,
}
use doom_os.InplaceVector.Items.{Contains, Pushes, push_back_lem, pop_back-push_back}

abbrev two_of_three : InplaceVector ℕ
two_of_three = record { items = 7 ∷ 8 ∷ 0 ∷ []; size = 2 }

abbrev three_of_three : InplaceVector ℕ
three_of_three = record { items = 7 ∷ 8 ∷ 9 ∷ []; size = 3 }

two_of_three-Contains : Contains two_of_three (7 ∷ 8 ∷ [])
two_of_three-Contains = record { within = omega arith; items = refl }

pushed : push_back two_of_three 9 ≡ changed three_of_three
unfolding push_back emplace_back
pushed = refl

push_back_example : Pushes two_of_three (7 ∷ 8 ∷ []) 9 (push_back two_of_three 9)
push_back_example = push_back_lem two_of_three (7 ∷ 8 ∷ []) 9 two_of_three-Contains

pop_back_example :
    (u : InplaceVector ℕ) × (pop_back three_of_three ≡ changed u)
    × Contains u (7 ∷ 8 ∷ [])
    × (capacity u ≡ capacity two_of_three)
pop_back_example =
    pop_back-push_back two_of_three three_of_three (7 ∷ 8 ∷ []) 9 two_of_three-Contains pushed

-- `try_pop_back` of a vector with items reports success and removes none.
not_popped : try_pop_back three_of_three ≡ changed three_of_three
unfolding try_pop_back
not_popped = refl
