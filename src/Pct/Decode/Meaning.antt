-- ===== src/Pct/Decode/Meaning.antt =====
-- What the decoder does with a text, read as characters and percent pairs.
use foxy.Base.{
  ap, ℕ, zero, suc, ◌≤◌, ◌≡◌, ◌≢◌, refl, sym, ◌∙◌, true, false, none, some, List, [], ◌∷◌, ◌++◌,
  append_assoc, append-nil, map, Text, length, All, arith, ◌⊎◌,
}
use foxy.X3.Grammar.{standard, xdigit, one, strip}
use foxy.X3.Run.{run}
use foxy.X3.Progress.{is_safe}
use foxy.X3.Library.{X3, parse-run}
use foxy.X3.Consumed.{take-append}
use foxy.Uri.Raw.{view}
use foxy.Pct.Decode.{
  unexpected_pct, xpair, no_percent, to_utf8_byte, decode_round, decode_loop, used_up, report,
  pct_decode,
}

-- A character that stands for itself, or a percent sign with two digits.
pub data Item : Type 0 where
  plain : ℕ → Item
  pair : ℕ → ℕ → Item

abbrev pub spell_item : Item → Text
spell_item (plain c) = c ∷ []
spell_item (pair a b) = b'%' ∷ a ∷ b ∷ []

abbrev pub spell : List Item → Text
spell [] = []
spell (i ∷ is) = spell_item i ++ spell is

abbrev pub item_byte : Item → ℕ
item_byte (plain c) = c
item_byte (pair a b) = to_utf8_byte a b

module _ (x : X3) where
  abbrev pub IsHex : ℕ → Type 0
  IsHex d = x.is_class standard xdigit d ≡ true

  abbrev pub IsItem : Item → Type 0
  IsItem (plain c) = c ≢ b'%'
  IsItem (pair a b) = IsHex a × IsHex b

  -- A percent sign that no two hexadecimal digits follow.
  abbrev pub IsBad : Text → Type 0
  IsBad [] = Unit
  IsBad (a ∷ []) = Unit
  IsBad (a ∷ b ∷ s) =
      (x.is_class standard xdigit a ≡ false) ⊎ (x.is_class standard xdigit b ≡ false)

  pub xpair-run : (s : Text) → x.parse xpair s ≡ run x.is_class xpair s
  unfolding xpair is_safe
  xpair-run s = parse-run x xpair s refl

  pub no_percent-run : (s : Text) → x.parse no_percent s ≡ run x.is_class no_percent s
  unfolding no_percent is_safe
  no_percent-run s = parse-run x no_percent s refl

  view_one : (c : ℕ) (s : Text) → view (c ∷ s) s ≡ c ∷ []
  unfolding view
  view_one c s = take-append (c ∷ []) s

  view_three : (a b c : ℕ) (s : Text) → view (a ∷ b ∷ c ∷ s) s ≡ a ∷ b ∷ c ∷ []
  unfolding view
  view_three a b c s = take-append (a ∷ b ∷ c ∷ []) s

  xpair-plain : (c : ℕ) (s : Text) → c ≢ b'%' → x.parse xpair (c ∷ s) ≡ none
  unfolding xpair run strip
  xpair-plain c s h = xpair-run (c ∷ s) ∙ ground arith

  no_percent-plain : (c : ℕ) (s : Text) → c ≢ b'%' → x.parse no_percent (c ∷ s) ≡ some s
  unfolding no_percent run strip one
  no_percent-plain c s h = no_percent-run (c ∷ s) ∙ ground arith

  xpair-pair : (a b : ℕ) (s : Text) → IsHex a → IsHex b → x.parse xpair (b'%' ∷ a ∷ b ∷ s) ≡ some s
  unfolding xpair run strip one
  xpair-pair a b s ha hb = xpair-run (b'%' ∷ a ∷ b ∷ s) ∙ rw (ha, one) (rw hb)

  xpair-bad : (s : Text) → IsBad s → x.parse xpair (b'%' ∷ s) ≡ none
  unfolding xpair run strip one
  xpair-bad [] h = xpair-run (b'%' ∷ [])
  xpair-bad (a ∷ []) h = xpair-run (b'%' ∷ a ∷ []) ∙ ground arith
  xpair-bad (a ∷ b ∷ s) h = xpair-run (b'%' ∷ a ∷ b ∷ s) ∙ ground arith

  no_percent-bad : (s : Text) → x.parse no_percent (b'%' ∷ s) ≡ none
  unfolding no_percent run strip one
  no_percent-bad s = no_percent-run (b'%' ∷ s)

  round-plain : (c : ℕ) (s : Text) → c ≢ b'%' → decode_round x (c ∷ s) ≡ some (c ∷ [], s)
  unfolding decode_round
  round-plain c s h =
      rw (xpair-plain c s h, decode_round) (rw (no_percent-plain c s h) (rw (view_one c s)))

  round-pair :
      (a b : ℕ) (s : Text)
      → IsHex a
      → IsHex b
      → decode_round x (b'%' ∷ a ∷ b ∷ s) ≡ some (to_utf8_byte a b ∷ [], s)
  unfolding decode_round
  round-pair a b s ha hb = rw (xpair-pair a b s ha hb, decode_round) (rw (view_three b'%' a b s))

  round-bad : (s : Text) → IsBad s → decode_round x (b'%' ∷ s) ≡ none
  unfolding decode_round
  round-bad s h = rw (xpair-bad s h, decode_round) (rw (no_percent-bad s))

  pub round_end : decode_round x [] ≡ none
  unfolding decode_round xpair no_percent run strip one
  round_end = rw (xpair-run [], decode_round) (rw (no_percent-run []))

  round_item :
      (i : Item) (s : Text)
      → IsItem i
      → decode_round x (spell_item i ++ s) ≡ some (item_byte i ∷ [], s)
  round_item (plain c) s h = round-plain c s h
  round_item (pair a b) s h = round-pair a b s h.0 h.1

  -- The loop over a text that begins with items.
  pub loop_items :
      (is : List Item) (fuel : ℕ) (rest sink : Text)
      → All IsItem is
      → length (spell is ++ rest) ≤ fuel
      → (fuel' : ℕ) × (length rest ≤ fuel')
        × (decode_loop x fuel (spell is ++ rest) sink
            ≡ decode_loop x fuel' rest (sink ++ map item_byte is))
  unfolding decode_loop
  loop_items [] fuel rest sink h enough = (fuel, enough, rw append-nil)
  loop_items (plain c ∷ is) zero rest sink h enough = absurd (omega arith)
  loop_items (pair a b ∷ is) zero rest sink h enough = absurd (omega arith)
  loop_items (plain c ∷ is) (suc fuel) rest sink h enough =
      let (fuel', left, e) = loop_items is fuel rest (sink ++ c ∷ []) h.1 (omega arith) in
      (
        fuel',
        left,
        rw (round-plain c (spell is ++ rest) h.0, decode_loop)
            (e ∙ ap (decode_loop x fuel' rest) (append_assoc sink (c ∷ []) (map item_byte is))),
      )
  loop_items (pair a b ∷ is) (suc fuel) rest sink h enough =
      let byte = to_utf8_byte a b in
      let (fuel', left, e) = loop_items is fuel rest (sink ++ byte ∷ []) h.1 (omega arith) in
      (
        fuel',
        left,
        rw (round-pair a b (spell is ++ rest) h.0.0 h.0.1, decode_loop)
            (e ∙ ap (decode_loop x fuel' rest) (append_assoc sink (byte ∷ []) (map item_byte is))),
      )

  loop_end : (fuel : ℕ) (sink : Text) → decode_loop x fuel [] sink ≡ (sink, [])
  unfolding decode_loop
  loop_end zero sink = refl
  loop_end (suc fuel) sink = rw (round_end, decode_loop)

  loop_bad :
      (fuel : ℕ) (s sink : Text) → IsBad s → decode_loop x fuel (b'%' ∷ s) sink ≡ (sink, b'%' ∷ s)
  unfolding decode_loop
  loop_bad zero s sink h = refl
  loop_bad (suc fuel) s sink h = rw (round-bad s h, decode_loop)

  -- A text made of plain characters and percent pairs is decoded item by item, with no error.
  pub pct_decode-spell :
      (is : List Item) (sink : Text)
      → All IsItem is
      → pct_decode x (spell is) sink ≡ (sink ++ map item_byte is, none)
  unfolding pct_decode
  pct_decode-spell is sink h =
      let enough : length (spell is ++ []) ≤ length (spell is) = rw append-nil (omega arith) in
      let (fuel, left, e) = loop_items is (length (spell is)) [] sink h enough in
      let whole =
        ap (λ t. decode_loop x (length (spell is)) t sink) (sym (append-nil (spell is))) in
      ap (λ d. report (used_up d)) (whole ∙ e ∙ loop_end fuel (sink ++ map item_byte is))

  -- A percent sign that no two digits follow ends the decoding: what stands before it is written,
  -- and the error is reported.
  pub pct_decode-bad :
      (is : List Item) (s sink : Text)
      → All IsItem is
      → IsBad s
      → pct_decode x (spell is ++ (b'%' ∷ s)) sink ≡ (sink ++ map item_byte is, some unexpected_pct)
  unfolding pct_decode
  pct_decode-bad is s sink h bad =
      let str = spell is ++ (b'%' ∷ s) in
      let (fuel, left, e) = loop_items is (length str) (b'%' ∷ s) sink h (omega arith) in
      ap (λ d. report (used_up d)) (e ∙ loop_bad fuel s (sink ++ map item_byte is) bad)
