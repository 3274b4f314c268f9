-- ===== src/Multiboot2/Tags.antt =====
-- `well_formed` and the walk over the tags (kernel/boot/multiboot2/iterator.hpp).
use doom_os.Base.{
  ℕ, zero, suc, ◌+◌, ◌-◌, ◌*◌, ◌%◌, ◌^◌, ◌≤◌, ◌<◌, ◌≡◌, ◌↔◌, refl, sym, ap, ◌∙◌, Bool, true, false,
  ◌||◌, List, [], ◌∷◌, Option, none, some, ltb, ◌==◌, arith, Bool-cases, inl, inr,
}
use doom_os.Bits.Align.{align_up_lem}
use doom_os.Multiboot2.{
  Bytes, u32_at, header_size, end_type, total_size, tag_type, tag_size, tag_step, tags_well_formed,
  well_formed, tags_from,
}

pub u32_small : (mem : Bytes) (i : ℕ) → u32_at mem i < 2 ^ 32
unfolding u32_at
u32_small mem i = omega arith

pub step_lem :
    (mem : Bytes) (at : ℕ)
    → (tag_step mem at % 8 ≡ 0)
      × (tag_size mem at ≤ tag_step mem at)
      × (tag_step mem at < tag_size mem at + 8)
step_lem mem at =
    align_up_lem 64 3 (tag_size mem at) (omega arith) (omega (arith, u32_small mem (at + 4)))

-- From the offset `at` on, tags follow each other below `end` up to an end tag: each has room for
-- its header, and lies with its padding below `end`.
pub data IsTags (mem : Bytes) (end : ℕ) : ℕ → Type 0 where
  last :
      (at : ℕ)
      → at + header_size ≤ end
      → tag_type mem at ≡ end_type
      → tag_size mem at ≡ header_size
      → IsTags mem end at
  next :
      (at : ℕ)
      → (tag_type mem at == end_type) ≡ false
      → header_size ≤ tag_size mem at
      → at + tag_step mem at ≤ end
      → IsTags mem end (at + tag_step mem at)
      → IsTags mem end at

-- The loop ends, and accepts exactly the tags.
pub record Decides (mem : Bytes) (end at : ℕ) (r : Option Bool) : Type 0 where
  pub verdict : Bool
  pub ends : r ≡ some verdict
  pub sound : verdict ≡ true → IsTags mem end at
  pub complete : IsTags mem end at → verdict ≡ true

module _ (mem : Bytes) (end : ℕ) where
  refused : (at : ℕ) → ¬ IsTags mem end at → Decides mem end at (some false)
  refused at f = record {
    verdict = false;
    ends = refl;
    sound = λ e. ground arith;
    complete = λ t. absurd (f t);
  }

  has_room :
      (at : ℕ)
      → IsTags mem end at
      → (at + header_size ≤ end) × (header_size ≤ tag_size mem at) × (at + tag_size mem at ≤ end)
  has_room at (last _ room e s) = (room, omega arith, omega arith)
  has_room at (next _ t s room rest) =
      let (a, b, c) = step_lem mem at in (omega arith, s, omega arith)

  after_next :
      (at : ℕ)
      → (tag_type mem at == end_type) ≡ false
      → IsTags mem end at
      → (at + tag_step mem at ≤ end) × IsTags mem end (at + tag_step mem at)
  after_next at e (last _ room t s) = absurd (ground arith)
  after_next at e (next _ t s room rest) = (room, rest)

  at_end : (at : ℕ) → tag_type mem at ≡ end_type → IsTags mem end at → tag_size mem at ≡ header_size
  at_end at e (last _ room t s) = s
  at_end at e (next _ t s room rest) = absurd (ground arith)

  tags_well_formed-Decides :
      (at fuel : ℕ)
      → at ≤ end
      → end < at + 8 * fuel
      → Decides mem end at (tags_well_formed mem end at fuel)
  unfolding tags_well_formed
  tags_well_formed-Decides at zero inside h = absurd (omega arith)
  tags_well_formed-Decides at (suc fuel) inside h = elim (Bool-cases (ltb (end - at) header_size)) [
    | inl short ↦ rw short (refused at (λ t. let (a, _, _) = has_room at t in ground arith))
    | inr long ↦
        elim (Bool-cases (ltb (tag_size mem at) header_size || ltb (end - at) (tag_size mem at))) [
          | inl bad ↦
              rw (long, bad) (refused at (λ t. let (_, b, c) = has_room at t in ground arith))
          | inr good ↦
              let size : header_size ≤ tag_size mem at = ground arith in
              let room : at + header_size ≤ end = ground arith in
              let (_, bigger, _) = step_lem mem at in
              elim (Bool-cases (tag_type mem at == end_type)) [
                | inl final ↦
                    let e : tag_type mem at ≡ end_type = ground arith in
                    rw (long, good, final)
                      (record {
                        verdict = tag_size mem at == header_size;
                        ends = refl;
                        sound = λ v. last at room e (ground arith);
                        complete = λ t. let s = at_end at e t in ground arith;
                      })
                | inr other ↦ elim (Bool-cases (ltb (end - at) (tag_step mem at))) [
                  | inl over ↦
                      rw (long, good, other, over)
                        (refused at (λ t. let (a, _) = after_next at other t in ground arith))
                  | inr fits ↦
                      let below : at + tag_step mem at ≤ end = ground arith in
                      let d =
                        tags_well_formed-Decides (at + tag_step mem at) fuel below (omega arith) in
                      rw (long, good, other, fits)
                        (record {
                          verdict = d.verdict;
                          ends = d.ends;
                          sound = λ v. next at other size below (d.sound v);
                          complete = λ t. d.complete (after_next at other t).1;
                        })
                ]
              ]
        ]
  ]

-- `well_formed` ends on all contents of the memory, and accepts exactly a region whose size has room
-- for its header, does not reach past the last address, and in which tags follow each other up to
-- an end tag, each with its padding inside the region.
pub well_formed_lem :
    (mem : Bytes) (begin : ℕ)
    → (v : Bool) × (well_formed mem begin ≡ some v)
      × ((v ≡ true) ↔ (
          (header_size ≤ total_size mem)
          × (total_size mem ≤ 2 ^ 64 - 1 - begin)
          × IsTags mem (total_size mem) header_size))
unfolding well_formed
well_formed_lem mem begin = elim (Bool-cases (ltb (total_size mem) header_size)) [
  | inl short ↦ (false, rw short refl, (λ e. ground arith, λ (a, b, c). ground arith))
  | inr long ↦ elim (Bool-cases (ltb (2 ^ 64 - 1 - begin) (total_size mem))) [
    | inl wraps ↦ (false, rw (long, wraps) refl, (λ e. ground arith, λ (a, b, c). ground arith))
    | inr fits ↦
        let d =
          tags_well_formed-Decides mem (total_size mem) header_size (total_size mem) (ground arith)
            (ground arith) in
        (
          d.verdict,
          rw (long, fits) d.ends,
          (λ e. (ground arith, ground arith, d.sound e), λ (a, b, c). d.complete c),
        )
  ]
]

-- All the tags at the offsets lie below `end`, with their headers.
abbrev pub AllInside : Bytes → ℕ → List ℕ → Type 0
AllInside mem end [] = Unit
AllInside mem end (at ∷ rest) =
    ((at + header_size ≤ end) × (at + tag_size mem at ≤ end)) × AllInside mem end rest

walk :
    (mem : Bytes) (end at fuel : ℕ)
    → IsTags mem end at
    → end < at + 8 * fuel
    → (tags : List ℕ) × (tags_from mem at fuel ≡ some tags) × AllInside mem end tags
unfolding tags_from
walk mem end at zero t h = absurd (let (a, b, c) = has_room mem end at t in omega arith)
walk mem end at (suc fuel) (last _ room e s) h =
    let final : (tag_type mem at == end_type) ≡ true = ground arith in ([], rw final refl, tt)
walk mem end at (suc fuel) (next _ other size room rest) h =
    let (_, bigger, _) = step_lem mem at in
    let (tags, e, inside) = walk mem end (at + tag_step mem at) fuel rest (omega arith) in
    (at ∷ tags, rw (other, e) refl, ((omega arith, omega arith), inside))

abbrev or_false : Option Bool → Bool
or_false none = false
or_false (some b) = b

-- On a region that `well_formed` accepts, `tag_iterator` from the first tag on reaches the end tag,
-- and every tag that it stands on before lies in the region, header and contents.
pub tags_from-well_formed :
    (mem : Bytes) (begin : ℕ)
    → well_formed mem begin ≡ some true
    → (tags : List ℕ) × (tags_from mem header_size (total_size mem) ≡ some tags)
      × AllInside mem (total_size mem) tags
tags_from-well_formed mem begin e =
    let (v, ends, accepts) = well_formed_lem mem begin in
    let (a, b, tags) = accepts.0 (ap or_false (sym ends ∙ e)) in
    walk mem (total_size mem) header_size (total_size mem) tags (omega arith)
