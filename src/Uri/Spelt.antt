-- ===== src/Uri/Spelt.antt =====
-- include/foxy/uri.hpp: what each rule between the delimiters of a URI takes of a spelt part.
use foxy.Base.{
  ◌⊎◌, ap, ℕ, ◌≡◌, ◌≢◌, refl, sym, ◌∙◌, Bool, true, false, ◌||◌, some, List, [], ◌∷◌, ◌++◌, map,
  arith, Text, codes, All, ◌==◌,
}
use foxy.X3.Grammar.{
  Grammar, alpha, digit, standard, lit, char_set, char_class, ◌<|>◌, star, in_set, is_alpha,
  is_digit, ascii_class, one,
}
use foxy.X3.Run.{run}
use foxy.X3.Ascii.{IsAscii}
use foxy.X3.Library.{X3}
use foxy.Pct.Decode.Meaning.{Item, plain, spell}
use foxy.Uri.Standard
use foxy.Uri.Items.{Reads, Fits, Stops, class-Reads, set-Reads, lit-Reads, or-Reads, star-spell}
use foxy.Uri.Characters.{
  is_name_char, is_user_char, is_pchar, is_query_char, is_scheme_char, name-Reads, pchar-Reads,
}

-- A character that stands for itself where the test accepts it.
abbrev pub IsPlain : (ℕ → Bool) → ℕ → Type 0
IsPlain test c = IsAscii c × (c ≢ b'%') × (test c ≡ true)

pub spell-plain : (t : Text) → spell (map plain t) ≡ t
spell-plain [] = refl
spell-plain (c ∷ t) = ap (◌∷◌ c) (spell-plain t)

plain-Fits :
    (test : ℕ → Bool) (pairs : Bool) (t : Text)
    → All (IsPlain test) t
    → All (Fits test pairs) (map plain t)
plain-Fits test pairs [] h = tt
plain-Fits test pairs (c ∷ t) h = (h.0, plain-Fits test pairs t h.1)

-- What comes behind the digits that the text begins with is no dot.
abbrev pub NoDot : Text → Type 0
NoDot [] = Unit
NoDot (c ∷ s) = IsAscii c × (((is_digit c ≡ true) × NoDot s) ⊎ ((is_digit c ≡ false) × (c ≢ b'.')))

-- No bracket begins the text, and no digits that a dot ends, as in a registered name that cannot be
-- taken for an address.
abbrev pub IsNamed : Text → Type 0
IsNamed [] = Unit
IsNamed (c ∷ s) = IsAscii c × (c ≢ b'[') × ((is_digit c ≡ false) ⊎ ((is_digit c ≡ true) × NoDot s))

module _ (x : X3) where
  pub star-plain :
      (g : Grammar) (test : ℕ → Bool) (pairs : Bool) (t rest : Text)
      → Reads x g test pairs
      → All (IsPlain test) t
      → Stops test rest
      → run x.is_class (star g) (t ++ rest) ≡ some rest
  star-plain g test pairs t rest reads h stop =
      ap (λ u. run x.is_class (star g) (u ++ rest)) (sym (spell-plain t))
      ∙ star-spell x g test pairs (map plain t) rest reads (plain-Fits test pairs t h) stop

  scheme-Reads :
      Reads x
        (char_class standard alpha <|> char_class standard digit <|> char_set (codes "+-."))
        is_scheme_char
        false
  unfolding ascii_class in_set is_alpha is_digit
  scheme-Reads =
      or-Reads x (char_class standard alpha <|> char_class standard digit) (char_set (codes "+-."))
        (λ c. is_alpha c || is_digit c) (in_set (codes "+-.")) false false
        (or-Reads x (char_class standard alpha) (char_class standard digit) is_alpha is_digit false
          false (class-Reads x standard alpha refl) (class-Reads x standard digit refl))
        (set-Reads x (codes "+-.") refl)

  pub run-scheme :
      (c : ℕ) (t rest : Text)
      → IsAscii c
      → is_alpha c ≡ true
      → All (IsPlain is_scheme_char) t
      → Stops is_scheme_char rest
      → run x.is_class Standard.scheme (c ∷ (t ++ rest)) ≡ some rest
  unfolding Standard.scheme run one ascii_class
  run-scheme c t rest a is h stop = rw (x.class_ascii standard alpha c a ∙ is) (
      star-plain
        (char_class standard alpha <|> char_class standard digit <|> char_set (codes "+-."))
        is_scheme_char false t rest scheme-Reads h stop)

  pub run-port :
      (t rest : Text)
      → All (IsPlain is_digit) t
      → Stops is_digit rest
      → run x.is_class Standard.port (t ++ rest) ≡ some rest
  unfolding Standard.port ascii_class is_digit
  run-port t rest h stop =
      star-plain (char_class standard digit) is_digit false t rest
        (class-Reads x standard digit refl) h stop

  pub run-userinfo :
      (is : List Item) (rest : Text)
      → All (Fits is_user_char true) is
      → Stops is_user_char rest
      → run x.is_class Standard.userinfo (spell is ++ rest) ≡ some rest
  unfolding Standard.userinfo
  run-userinfo is rest h stop =
      star-spell x
        (Standard.unreserved <|> Standard.pct_encoded <|> Standard.sub_delims <|> lit (codes ":"))
        is_user_char true is rest
        (or-Reads x (Standard.unreserved <|> Standard.pct_encoded <|> Standard.sub_delims)
          (lit (codes ":")) is_name_char (λ c. c == b':') true false (name-Reads x)
          (lit-Reads x b':' (omega arith)))
        h stop

  query-Reads : Reads x (Standard.pchar <|> char_set (codes "/?")) is_query_char true
  unfolding in_set
  query-Reads =
      or-Reads x Standard.pchar (char_set (codes "/?")) is_pchar (in_set (codes "/?")) true false
        (pchar-Reads x) (set-Reads x (codes "/?") refl)

  pub run-query :
      (is : List Item) (rest : Text)
      → All (Fits is_query_char true) is
      → Stops is_query_char rest
      → run x.is_class Standard.query (spell is ++ rest) ≡ some rest
  unfolding Standard.query
  run-query is rest h stop =
      star-spell x (Standard.pchar <|> char_set (codes "/?")) is_query_char true is rest query-Reads
        h stop

  pub run-fragment :
      (is : List Item) (rest : Text)
      → All (Fits is_query_char true) is
      → Stops is_query_char rest
      → run x.is_class Standard.fragment (spell is ++ rest) ≡ some rest
  unfolding Standard.fragment
  run-fragment is rest h stop =
      star-spell x (Standard.pchar <|> char_set (codes "/?")) is_query_char true is rest query-Reads
        h stop
