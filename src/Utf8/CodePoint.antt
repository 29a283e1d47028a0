-- ===== src/Utf8/CodePoint.antt =====
-- include/foxy/code_point_iterator.hpp and code_point_view.hpp: the code points of a UTF-8 text.
-- An iterator is the text from its place on; reading through it is what moves it.
use foxy.Base.{
  ℕ, zero, suc, ◌+◌, ◌<◌, ◌≤◌, ◌≡◌, refl, sym, ap, ◌∙◌, Bool, true, false, List, [], ◌∷◌, ◌++◌,
  append_assoc, append-nil, Text, length, length-append, All, arith, ◌⊎◌, ◌==◌, dec_lt,
}
use foxy.Utf8.{Utf, utf8_encode, utf8_encode_range}

pub record CodePointIterator : Type 0 where
  pub iterator : Text
  pub end : Text

abbrev pub make_code_point_iterator : Text → Text → CodePointIterator
make_code_point_iterator iterator end = record { iterator = iterator; end = end }

-- operator=(&&): the target, and the source with both pointers null.
unfoldable pub move_assign : CodePointIterator → CodePointIterator × CodePointIterator
move_assign rhs =
    (record { iterator = rhs.iterator; end = rhs.end }, record { iterator = []; end = [] })

-- swap: this and rhs afterwards.
unfoldable pub swap : CodePointIterator → CodePointIterator → CodePointIterator × CodePointIterator
swap this rhs =
    let tmp_iterator = rhs.iterator in
    let tmp_end = rhs.end in
    let rhs' = record rhs { iterator = this.iterator; end = this.end } in
    (record this { iterator = tmp_iterator; end = tmp_end }, rhs')

-- operator== compares the positions: within one text these are the lengths left.
unfoldable pub same : CodePointIterator → CodePointIterator → Bool
same this rhs = length this.iterator == length rhs.iterator

-- code_point_view::begin and end.
abbrev pub begin : Text → CodePointIterator
begin view = make_code_point_iterator view []

abbrev pub view_end : Text → CodePointIterator
view_end view = make_code_point_iterator [] []

-- A scalar value: a code point that is no surrogate.
abbrev pub IsScalar : ℕ → Type 0
IsScalar c = (c < 0x110000) × ((c < 0xD800) ⊎ (0xE000 ≤ c))

module _ (u : Utf) where
  -- operator*: decode takes the iterator by reference, and so moves it.
  unfoldable pub deref : CodePointIterator → ℕ × CodePointIterator
  deref i =
      let (code_point, rest) = u.decode i.iterator in (code_point, record i { iterator = rest })

  -- operator++ leaves the iterator as it is.
  unfoldable pub increment : CodePointIterator → CodePointIterator
  increment i = i

  -- for (auto c : code_point_view(view)), for so many rounds at most.
  unfoldable pub code_points : ℕ → CodePointIterator → CodePointIterator → List ℕ
  unfolding deref increment same
  code_points zero i stop = []
  code_points (suc fuel) i stop = elim (same i stop) [
    | true ↦ []
    | false ↦ (deref i).0 ∷ code_points fuel (increment (deref i).1) stop
  ]

  utf8_encode_range-append :
      (s out : Text) → utf8_encode_range u s out ≡ out ++ utf8_encode_range u s []
  unfolding utf8_encode_range utf8_encode
  utf8_encode_range-append [] out = sym (append-nil out)
  utf8_encode_range-append (c ∷ s) out =
      utf8_encode_range-append s (out ++ u.encode c)
      ∙ append_assoc out (u.encode c) (utf8_encode_range u s [])
      ∙ ap (◌++◌ out) (sym (utf8_encode_range-append s (u.encode c)))

  encode-nonempty : (c : ℕ) → c < 0x110000 → 1 ≤ length (u.encode c)
  encode-nonempty c h = elim (dec_lt c 0x80) [
    | yes one ↦ rw (u.encode_one c one) (omega arith)
    | no past_one ↦ elim (dec_lt c 0x800) [
      | yes two ↦ rw (u.encode_two c (omega arith) two) (omega arith)
      | no past_two ↦ elim (dec_lt c 0x10000) [
        | yes three ↦ rw (u.encode_three c (omega arith) three) (omega arith)
        | no past_three ↦ rw (u.encode_four c (omega arith) h) (omega arith)
      ]
    ]
  ]

  code_points-step :
      (fuel c : ℕ) (t r : Text)
      → u.decode t ≡ (c, r)
      → 1 ≤ length t
      → code_points (suc fuel) (begin t) (view_end t) ≡ c ∷ code_points fuel (begin r) (view_end r)
  unfolding code_points
  code_points-step fuel c t r e h = ground arith

  code_points-loop :
      (s : Text) (fuel : ℕ)
      → All IsScalar s
      → length (utf8_encode_range u s []) ≤ fuel
      → code_points fuel (begin (utf8_encode_range u s [])) (view_end (utf8_encode_range u s []))
        ≡ s
  unfolding code_points utf8_encode_range utf8_encode
  code_points-loop [] zero h enough = refl
  code_points-loop [] (suc fuel) h enough = refl
  code_points-loop (c ∷ s) fuel h enough =
      let split = utf8_encode_range-append s (u.encode c) in
      let count = ap length split ∙ length-append (u.encode c) (utf8_encode_range u s []) in
      let some_byte = encode-nonempty c h.0.0 in
      after fuel split (omega (arith, enough, count, some_byte))
        λ fuel' enough'. code_points-loop s fuel' h.1 enough'
    where
      after :
          (fuel : ℕ)
          → utf8_encode_range u s (u.encode c) ≡ u.encode c ++ utf8_encode_range u s []
          → 1 + length (utf8_encode_range u s []) ≤ fuel
          → ((fuel' : ℕ)
              → length (utf8_encode_range u s []) ≤ fuel'
              → code_points fuel'
                  (begin (utf8_encode_range u s []))
                  (view_end (utf8_encode_range u s []))
                ≡ s)
          → code_points fuel
              (begin (utf8_encode_range u s (u.encode c)))
              (view_end (utf8_encode_range u s (u.encode c)))
            ≡ c ∷ s
      after zero split enough ih = absurd (omega arith)
      after (suc fuel) split enough ih = rw split (
          code_points-step fuel c _ _ (u.decode-encode c (utf8_encode_range u s []) h.0.0 h.0.1) (
            omega (
              arith,
              length-append (u.encode c) (utf8_encode_range u s []),
              encode-nonempty c h.0.0,
            ))
          ∙ ap (◌∷◌ c) (ih fuel (omega arith)))

  -- Walking over the code points of an encoded text gives the text back, when it holds no surrogate.
  pub code_points-utf8_encode :
      (s : Text)
      → All IsScalar s
      → code_points
          (length (utf8_encode_range u s []))
          (begin (utf8_encode_range u s []))
          (view_end (utf8_encode_range u s []))
        ≡ s
  code_points-utf8_encode s h = code_points-loop s _ h (omega arith)
