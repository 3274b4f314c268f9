-- ===== src/InplaceVector.antt =====
-- kernel/core/utils/inplace_vector.hpp: a vector in an array of static size, `capacity` here.
pub mod Items
mod Tests
use doom_os.Base.{
  ℕ, ◌+◌, ◌-◌, ◌<◌, Bool, List, Option, none, some, length, get_or, set, ◌==◌, if◌then◌else◌,
}

pub record InplaceVector {ℓ} (A : Type ℓ) : Type ℓ where
  pub items : List A
  pub size : ℕ

pub data ContainerError : Type 0 where
  capacity_exceeded empty_container : ContainerError

-- How a call ends: with the vector that it leaves, with an error, which leaves the vector as it is,
-- or in the kernel's panic.
pub data Changed {ℓ} (A : Type ℓ) : Type ℓ where
  changed : InplaceVector A → Changed A
  failed : ContainerError → Changed A
  panicked : Changed A

module _ {ℓ} {A : Type ℓ} where
  abbrev pub capacity : InplaceVector A → ℕ
  capacity v = length v.items

  unfoldable pub is_empty : InplaceVector A → Bool
  is_empty v = v.size == 0

  -- `operator[]`; `other` is what a read out of the array gives.
  unfoldable pub item : InplaceVector A → ℕ → A → A
  item v index other = get_or v.items index other

  unfoldable pub front : InplaceVector A → A → A
  front v other = get_or v.items 0 other

  unfoldable pub back : InplaceVector A → A → A
  back v other = get_or v.items (v.size - 1) other

  unfoldable pub emplace_back : InplaceVector A → A → Changed A
  emplace_back v value =
      if v.size == capacity v
      then panicked
      else changed (record { items = set v.items v.size value; size = v.size + 1 })

  unfoldable pub push_back : InplaceVector A → A → Changed A
  push_back v value = if v.size == capacity v then panicked else emplace_back v value

  unfoldable pub pop_back : InplaceVector A → Changed A
  pop_back v = if v.size == 0 then panicked else changed (record v { size = v.size - 1 })

  unfoldable pub try_push_back : InplaceVector A → A → Changed A
  try_push_back v value =
      if v.size == capacity v then failed capacity_exceeded else emplace_back v value

  unfoldable pub try_pop_back : InplaceVector A → Changed A
  try_pop_back v = if v.size == 0 then failed empty_container else changed v

  unfoldable pub clear : InplaceVector A → InplaceVector A
  clear v = record v { size = 0 }
