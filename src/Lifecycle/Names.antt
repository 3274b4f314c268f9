-- ===== src/Lifecycle/Names.antt =====
-- The names of drivers, and the searches by them (kernel/device/lifecycle.cpp).
use doom_os.Base.{
  ℕ, zero, suc, ◌+◌, ◌<◌, ◌≡◌, ◌↔◌, refl, ap, true, ◌||◌, List, [], ◌∷◌, Option, none, some, get_or,
  set, length, ◌==◌, arith, Bool-cases, inl, inr,
}
use doom_os.Lifecycle.{
  Name, DriverId, DriverNode, same_chars, string_equal, ids, find_id_from, find_node_by_id,
  find_name_from, find_node_by_name, is_null, no_driver,
}
use doom_os.Lifecycle.Records.{node_at}

same_chars_iff : (cs ds : List ℕ) → (same_chars cs ds ≡ true) ↔ (cs ≡ ds)
unfolding same_chars
same_chars_iff [] [] = (λ e. refl, λ e. refl)
same_chars_iff [] (d ∷ ds) = (λ e. ground arith, λ e. ground arith)
same_chars_iff (c ∷ cs) [] = (λ e. ground arith, λ e. ground arith)
same_chars_iff (c ∷ cs) (d ∷ ds) = ground (arith, same_chars_iff cs ds)

-- `string_equal` holds of a null pointer and itself, and of equal strings.
pub string_equal_iff : (a b : Name) → (string_equal a b ≡ true) ↔ (a ≡ b)
unfolding string_equal
string_equal_iff none none = (λ e. refl, λ e. refl)
string_equal_iff none (some d) = (λ e. ground arith, λ e. ground arith)
string_equal_iff (some c) none = (λ e. ground arith, λ e. ground arith)
string_equal_iff (some c) (some d) = ground (arith, same_chars_iff c d)

find_id_from-lt :
    (es : List DriverId) (d : DriverId) (at i : ℕ)
    → find_id_from es d at ≡ some i
    → i < at + length es
unfolding find_id_from
find_id_from-lt [] d at i e = ground arith
find_id_from-lt (x ∷ xs) d at i e =
    elim (Bool-cases ((x.address == d.address) || string_equal x.name d.name)) [
      | inl found ↦ ground arith
      | inr other ↦ let h = find_id_from-lt xs d (at + 1) i (rw other at e) in omega arith
    ]

pub find_node_by_id-lt :
    (es : List DriverId) (d : Option DriverId) (i : ℕ)
    → find_node_by_id es d ≡ some i
    → i < length es
unfolding find_node_by_id
find_node_by_id-lt es none i e = ground arith
find_node_by_id-lt es (some d) i e = omega (arith, find_id_from-lt es d 0 i e)

find_name_from-lt :
    (es : List DriverId) (name : Name) (at i : ℕ)
    → find_name_from es name at ≡ some i
    → i < at + length es
unfolding find_name_from
find_name_from-lt [] name at i e = ground arith
find_name_from-lt (x ∷ xs) name at i e = elim (Bool-cases (string_equal x.name name)) [
  | inl found ↦ ground arith
  | inr other ↦ let h = find_name_from-lt xs name (at + 1) i (rw other at e) in omega arith
]

pub find_node_by_name-lt :
    (es : List DriverId) (name : Name) (i : ℕ) → find_node_by_name es name ≡ some i → i < length es
unfolding find_node_by_name
find_node_by_name-lt es name i e = elim (Bool-cases (is_null name)) [
  | inl null ↦ let e' : none ≡ some i = rw null at e in ground arith
  | inr given ↦ omega (arith, find_name_from-lt es name 0 i (rw given at e))
]

-- The identities of the nodes.
pub length-ids : (ns : List DriverNode) → length (ids ns) ≡ length ns
length-ids [] = refl
length-ids (n ∷ ns) = ap suc (length-ids ns)

pub id_at : (ns : List DriverNode) (i : ℕ) → (node_at ns i).id ≡ get_or (ids ns) i no_driver
id_at [] i = refl
id_at (n ∷ ns) zero = refl
id_at (n ∷ ns) (suc i) = id_at ns i

-- A write that keeps a node's identity keeps them all.
pub ids-set :
    (ns : List DriverNode) (i : ℕ) (n : DriverNode)
    → n.id ≡ (node_at ns i).id
    → ids (set ns i n) ≡ ids ns
ids-set [] i n e = refl
ids-set (m ∷ ns) zero n e = ap (λ d. d ∷ ids ns) e
ids-set (m ∷ ns) (suc i) n e = ap (λ ds. m.id ∷ ds) (ids-set ns i n e)
