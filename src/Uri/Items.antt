-- ===== src/Uri/Items.antt =====
-- include/foxy/uri.hpp: what the character rules take of plain characters and percent pairs.
use foxy.Base.{
  ap, ℕ, ◌≡◌, ◌≢◌, refl, sym, ◌∙◌, Bool, true, false, ◌||◌, none, some, List, [], ◌∷◌, ◌++◌, map,
  arith, if◌then◌else◌, Text, All, ◌==◌,
}
use foxy.X3.Grammar.{
  Grammar, Encoding, Class, xdigit, lit, char_set, char_class, ◌>>◌, ◌<|>◌, star, in_set, one,
  strip, ascii_class, is_xdigit,
}
use foxy.X3.Run.{run}
use foxy.X3.Ascii.{IsAscii}
use foxy.X3.Library.{X3}
use foxy.X3.Pieces.{IsPiece, concat, star-concat}
use foxy.Pct.Decode.Meaning.{Item, plain, pair, spell_item, spell}

-- An ASCII character that the test accepts, or a pair of digits where pairs are allowed.
abbrev pub Fits : (ℕ → Bool) → Bool → Item → Type 0
Fits test pairs (plain c) = IsAscii c × (c ≢ b'%') × (test c ≡ true)
Fits test pairs (pair a b) =
    IsAscii a × IsAscii b × (is_xdigit a ≡ true) × (is_xdigit b ≡ true) × (pairs ≡ true)

-- The end, or an ASCII character that the test refuses.
abbrev pub Stops : (ℕ → Bool) → Text → Type 0
Stops test [] = Unit
Stops test (c ∷ s) = IsAscii c × (c ≢ b'%') × (test c ≡ false)

module _ (x : X3) where
  -- A rule that takes one accepted character, or one pair.
  pub record Reads (g : Grammar) (test : ℕ → Bool) (pairs : Bool) : Type 0 where
    pub on_char :
        (c : ℕ) (s : Text)
        → IsAscii c
        → c ≢ b'%'
        → run x.is_class g (c ∷ s) ≡ (if test c then some s else none)
    pub on_pair :
        (a b : ℕ) (s : Text)
        → IsAscii a
        → IsAscii b
        → is_xdigit a ≡ true
        → is_xdigit b ≡ true
        → run x.is_class g (b'%' ∷ a ∷ b ∷ s) ≡ (if pairs then some s else none)
    pub on_end : run x.is_class g [] ≡ none

  pub class-Reads :
      (e : Encoding) (k : Class)
      → ascii_class k b'%' ≡ false
      → Reads (char_class e k) (ascii_class k) false
  unfolding run one
  class-Reads e k apart = record {
    on_char = λ c s a n. rw (x.class_ascii e k c a);
    on_pair = λ a b s la lb ha hb. rw (x.class_ascii e k b'%' (omega arith) ∙ apart);
    on_end = refl;
  }

  pub set-Reads : (def : Text) → in_set def b'%' ≡ false → Reads (char_set def) (in_set def) false
  unfolding run one
  set-Reads def apart = record {
    on_char = λ c s a n. refl;
    on_pair = λ a b s la lb ha hb. rw apart;
    on_end = refl;
  }

  pub lit-Reads : (d : ℕ) → d ≢ b'%' → Reads (lit (d ∷ [])) (λ c. c == d) false
  unfolding run strip
  lit-Reads d apart = record {
    on_char = λ c s a n. refl;
    on_pair = λ a b s la lb ha hb. ground arith;
    on_end = refl;
  }

  pub pct-Reads :
      (e : Encoding)
      → Reads (lit (b'%' ∷ []) >> char_class e xdigit >> char_class e xdigit) (λ c. false) true
  unfolding run strip one ascii_class
  pct-Reads e = record {
    on_char = λ c s a n. ground arith;
    on_pair = λ a b s la lb ha hb.
        rw (x.class_ascii e xdigit a la ∙ ha) (rw (x.class_ascii e xdigit b lb ∙ hb));
    on_end = refl;
  }

  pub or-Reads :
      (g h : Grammar) (test test' : ℕ → Bool) (pairs pairs' : Bool)
      → Reads g test pairs
      → Reads h test' pairs'
      → Reads (g <|> h) (λ c. test c || test' c) (pairs || pairs')
  unfolding run
  or-Reads g h test test' pairs pairs' p q = record {
    on_char = λ c s a n. rw (p.on_char c s a n, q.on_char c s a n) (ground arith);
    on_pair = λ a b s la lb ha hb.
        rw (p.on_pair a b s la lb ha hb, q.on_pair a b s la lb ha hb) (ground arith);
    on_end = rw (p.on_end, q.on_end);
  }

  module _ (g : Grammar) (test : ℕ → Bool) (pairs : Bool) (reads : Reads g test pairs) where
    item-IsPiece :
        (i : Item) → Fits test pairs i → IsPiece (run x.is_class g) (λ _. Unit {0}) (spell_item i)
    item-IsPiece (plain c) h = record {
      solid = omega arith;
      taken = λ rest k. reads.on_char c rest h.0 h.1 ∙ rw h.2;
      may_follow = λ rest. tt;
    }
    item-IsPiece (pair a b) h = record {
      solid = omega arith;
      taken = λ rest k. reads.on_pair a b rest h.0 h.1 h.2 h.3 ∙ rw h.4;
      may_follow = λ rest. tt;
    }

    items-IsPiece :
        (is : List Item)
        → All (Fits test pairs) is
        → All (IsPiece (run x.is_class g) (λ _. Unit {0})) (map spell_item is)
    items-IsPiece [] h = tt
    items-IsPiece (i ∷ is) h = (item-IsPiece i h.0, items-IsPiece is h.1)

    pub Stops-none : (rest : Text) → Stops test rest → run x.is_class g rest ≡ none
    Stops-none [] h = reads.on_end
    Stops-none (c ∷ s) h = reads.on_char c s h.0 h.1 ∙ rw h.2

  concat-map : (is : List Item) → concat (map spell_item is) ≡ spell is
  concat-map [] = refl
  concat-map (i ∷ is) = ap (λ t. spell_item i ++ t) (concat-map is)

  -- A loop over such a rule takes the items that fit, up to a character that it refuses.
  pub star-spell :
      (g : Grammar) (test : ℕ → Bool) (pairs : Bool) (is : List Item) (rest : Text)
      → Reads g test pairs
      → All (Fits test pairs) is
      → Stops test rest
      → run x.is_class (star g) (spell is ++ rest) ≡ some rest
  star-spell g test pairs is rest reads h stop =
      ap (λ t. run x.is_class (star g) (t ++ rest)) (sym (concat-map is))
      ∙ star-concat x.is_class g (λ _. Unit {0}) (map spell_item is) rest
          (items-IsPiece g test pairs reads is h) tt (Stops-none g test pairs reads rest stop)
