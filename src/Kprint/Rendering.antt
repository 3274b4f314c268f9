-- ===== src/Kprint/Rendering.antt =====
-- `kprint_ct` (kernel/debug/kprint.hpp) against the grammar of format strings.
use doom_os.Base.{
  ℕ, zero, suc, ◌+◌, ◌-◌, ◌≤◌, ◌<◌, ◌≡◌, refl, sym, ap, ◌∙◌, true, false, ◌||◌, ◌&&◌, ◌>>=◌, List,
  [], ◌∷◌, Option, none, some, length, drop, leb, ltb, ◌==◌, arith, Bool-cases, inl, inr,
}
use doom_os.Format.{
  Text, FormatSpec, char_at, is_at, open_brace, close_brace, parse_field_at, literal_run_length,
  run_end,
}
use doom_os.Format.Fields.{parse_field_at-IsField}
use doom_os.Format.Strings.{IsFormat, at_end, plain, two_open, two_close, field, parse_format_lem}
use doom_os.Emit.{Output, Value, emit_value, cons_some}
use doom_os.Kprint.{emit_nth_arg, slice, append_some, emit_format, kprint_ct}

module _ (text : Text) where
  -- What a format prints, by its grammar: plain characters as they are, a doubled brace as one, and
  -- for each field the next value under the field's specification.
  unfoldable pub render : {index n : ℕ} → IsFormat text index n → List Value → Option Output
  render (at_end _ _) vs = some []
  render (plain index _ _ _ _ rest) vs = cons_some (char_at text index) (render rest vs)
  render (two_open _ _ _ _ rest) vs = cons_some open_brace (render rest vs)
  render (two_close _ _ _ _ rest) vs = cons_some close_brace (render rest vs)
  render (field index _ _ _ rest) [] = none
  render (field index _ _ _ rest) (v ∷ vs) =
      emit_value (parse_field_at text index).spec v >>= λ out. append_some out (render rest vs)

  -- The argument that a field prints is the first of those that are left.
  emit_nth_arg-none :
      (k : ℕ) (spec : FormatSpec) (args : List Value)
      → drop k args ≡ []
      → emit_nth_arg k spec args ≡ none
  unfolding emit_nth_arg
  emit_nth_arg-none k spec [] e = refl
  emit_nth_arg-none zero spec (a ∷ args) e = absurd (grind arith)
  emit_nth_arg-none (suc k) spec (a ∷ args) e = emit_nth_arg-none k spec args e

  emit_nth_arg-some :
      (k : ℕ) (spec : FormatSpec) (args : List Value) (v : Value) (vs : List Value)
      → drop k args ≡ v ∷ vs
      → (emit_nth_arg k spec args ≡ emit_value spec v) × (drop (suc k) args ≡ vs)
  unfolding emit_nth_arg
  emit_nth_arg-some zero spec [] v vs e = absurd (grind arith)
  emit_nth_arg-some (suc k) spec [] v vs e = absurd (grind arith)
  emit_nth_arg-some zero spec (a ∷ args) v vs e = (grind arith, grind arith)
  emit_nth_arg-some (suc k) spec (a ∷ args) v vs e = emit_nth_arg-some k spec args v vs e

  append_some-cons :
      (c : ℕ) (cs : Output) (o : Option Output)
      → append_some (c ∷ cs) o ≡ cons_some c (append_some cs o)
  append_some-cons c cs none = refl
  append_some-cons c cs (some out) = refl

  append_some-nil : (o : Option Output) → append_some [] o ≡ o
  append_some-nil none = refl
  append_some-nil (some out) = refl

  -- The grammar goes on at `to`, after the characters that stand between.
  abbrev Skips : {index n : ℕ} → List Value → IsFormat text index n → ℕ → Type 0
  Skips {index} {n} vs f to =
      (g : IsFormat text to n) × (index ≤ to)
      × (to ≤ length text)
      × (render f vs ≡ append_some (slice text index (to - index)) (render g vs))

  nothing-Skips :
      {index n : ℕ} (vs : List Value) (f : IsFormat text index n)
      → index ≤ length text
      → Skips vs f index
  nothing-Skips {index} vs f h =
      let z : index - index ≡ 0 = omega arith in
      (f, omega arith, h, rw z (sym (append_some-nil (render f vs))))

  -- A run of plain characters is what the grammar prints one by one.
  run_end-Skips :
      (rounds index n : ℕ) (vs : List Value) (f : IsFormat text index n)
      → index + rounds ≡ length text
      → Skips vs f (run_end text index rounds)
  unfolding run_end render
  run_end-Skips zero index n vs f e = nothing-Skips vs f (omega arith)
  run_end-Skips (suc rounds) index n vs (at_end _ h) e = absurd (omega arith)
  run_end-Skips (suc rounds) index n vs (plain _ _ h o c rest) e =
      let (g, low, high, r) = run_end-Skips rounds (index + 1) n vs rest (omega arith) in
      let to = run_end text (index + 1) rounds in
      let k : to - index ≡ suc (to - (index + 1)) = omega arith in
      let cs = slice text (index + 1) (to - (index + 1)) in
      let d = char_at text index in
      rw (o, c)
        (
          g,
          omega arith,
          high,
          rw k (ap (cons_some d) r ∙ sym (append_some-cons d cs (render g vs))),
        )
  run_end-Skips (suc rounds) index n vs (two_open _ _ c d rest) e =
      let t : (char_at text index == open_brace) ≡ true = ground arith in
      rw t (nothing-Skips vs (two_open index n c d rest) (omega arith))
  run_end-Skips (suc rounds) index n vs (two_close _ _ c d rest) e =
      let t : (char_at text index == open_brace) || (char_at text index == close_brace) ≡ true =
        ground arith in
      rw t (nothing-Skips vs (two_close index n c d rest) (omega arith))
  run_end-Skips (suc rounds) index n vs (field _ m d v rest) e =
      let o = (parse_field_at-IsField text index v).opens in
      let t : (char_at text index == open_brace) ≡ true = ground arith in
      rw t (nothing-Skips vs (field index m d v rest) (omega arith))

  next_value :
      (args : List Value) (index k n : ℕ) (vs : List Value)
      (d : is_at text (index + 1) open_brace ≡ false) (v : (parse_field_at text index).valid ≡ true)
      (rest : IsFormat text (index + (parse_field_at text index).length) n) (after : Option Output)
      → drop k args ≡ vs
      → ((us : List Value) → drop (suc k) args ≡ us → after ≡ render rest us)
      → emit_nth_arg k (parse_field_at text index).spec args >>= (λ out. append_some out after)
        ≡ render (field index n d v rest) vs
  unfolding render
  next_value args index k n [] d v rest after e ih =
      rw (emit_nth_arg-none k (parse_field_at text index).spec args e) refl
  next_value args index k n (u ∷ us) d v rest after e ih =
      let (e1, e2) = emit_nth_arg-some k (parse_field_at text index).spec args u us e in
      rw (e1, ih us e2) refl

  -- What is left of the format string is printed with the arguments that are left.
  emit_format-render :
      (args : List Value) (fuel index k n : ℕ) (vs : List Value) (f : IsFormat text index n)
      → index ≤ length text
      → length text < index + fuel
      → drop k args ≡ vs
      → emit_format text args index k fuel ≡ render f vs
  unfolding emit_format literal_run_length render
  emit_format-render args zero index k n vs f i l e = absurd (omega arith)
  emit_format-render args (suc fuel) index k n vs (at_end _ h) i l e =
      let t : leb (length text) index ≡ true = ground arith in rw t refl
  emit_format-render args (suc fuel) index k n vs (plain _ _ h o c rest) i l e =
      let t : leb (length text) index ≡ false = ground arith in
      let to = run_end text index (length text - index) in
      elim (Bool-cases (ltb 0 (to - index))) [
        | inl some_run ↦
            let (g, low, high, r) =
              run_end-Skips (length text - index) index n vs (plain _ _ h o c rest) (omega arith) in
            let j : index + (to - index) ≡ to = omega arith in
            rw (t, o, c, some_run, j)
              (ap (append_some (slice text index (to - index)))
                  (emit_format-render args fuel to k n vs g high (ground arith) e)
                ∙ sym r)
        | inr no_run ↦
            rw (t, o, c, no_run)
              (ap (cons_some (char_at text index)) (
                emit_format-render args fuel (index + 1) k n vs rest (omega arith) (omega arith) e))
      ]
  emit_format-render args (suc fuel) index k n vs (two_open _ _ c d rest) i l e =
      let t : leb (length text) index ≡ false = ground arith in
      let q : (char_at text index == open_brace) && (char_at text (index + 1) == open_brace)
          ≡ true =
        ground arith in
      rw (t, q)
        (ap (cons_some open_brace)
          (emit_format-render args fuel (index + 2) k n vs rest (ground arith) (omega arith) e))
  emit_format-render args (suc fuel) index k n vs (two_close _ _ c d rest) i l e =
      let t : leb (length text) index ≡ false = ground arith in
      let p : (char_at text index == open_brace) && (char_at text (index + 1) == open_brace)
          ≡ false =
        ground arith in
      let q : (char_at text index == close_brace) && (char_at text (index + 1) == close_brace)
          ≡ true =
        ground arith in
      rw (t, p, q)
        (ap (cons_some close_brace)
          (emit_format-render args fuel (index + 2) k n vs rest (ground arith) (omega arith) e))
  emit_format-render args (suc fuel) index k n vs (field _ m d v rest) i l e =
      let w = parse_field_at-IsField text index v in
      let s = (parse_field_at text index).spec in
      let len = (parse_field_at text index).length in
      let c = w.opens in
      let inside = w.inside in
      let some_length = w.some_length in
      let t : leb (length text) index ≡ false = ground arith in
      let q : (char_at text index == close_brace) ≡ false = ground arith in
      let r : (char_at text index == open_brace) ≡ true = ground arith in
      let b : ltb (index + 1) (length text) ≡ true = ground arith in
      let p : (char_at text (index + 1) == open_brace) ≡ false = rw b at d in
      let next : k + 1 ≡ suc k = omega arith in
      rw (t, r, p, q, v, next)
        (next_value args index k m vs d v rest (emit_format text args (index + len) (suc k) fuel) e
          (λ us h.
            emit_format-render args fuel (index + len) (suc k) m us rest (omega arith) (omega arith)
              h))

-- `kprint_ct` of a format string whose fields are as many as its arguments prints what the grammar
-- says: plain characters as they are, doubled braces as one, and each argument under the
-- specification of its field, or is refused when an argument does not fit its specification. The
-- recursion always ends. Any other format string is refused.
pub kprint_ct_lem :
    (text : Text) (args : List Value)
    → ((f : IsFormat text 0 (length args)) → kprint_ct text args ≡ render text f args)
      × (¬ IsFormat text 0 (length args) → kprint_ct text args ≡ none)
unfolding kprint_ct
kprint_ct_lem text args =
    let w = parse_format_lem text in
    let ends = w.ends in
    let accepts = w.complete (length args) in
    let sound = w.sound in
    (
      λ f.
          let a = accepts f in
          let t : w.result.valid && (w.result.field_count == length args) ≡ true = ground arith in
          rw (ends, t)
            (emit_format-render text args (length text + 1) 0 0 (length args) args f (omega arith)
              (omega arith) refl),
      λ no. elim (Bool-cases (w.result.valid && (w.result.field_count == length args))) [
        | inl both ↦
            let valid : w.result.valid ≡ true = ground arith in
            let (n, g, count) = sound valid in
            let m : n ≡ length args = ground arith in absurd (no (rw m at g))
        | inr other ↦ rw (ends, other) refl
      ],
    )
