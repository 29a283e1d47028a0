-- ===== src/Uri/Characters.antt =====
-- include/foxy/uri.hpp: the characters that the rules between the delimiters are made of.
use foxy.Base.{ℕ, ◌≡◌, refl, ◌∙◌, Bool, true, false, ◌||◌, arith, codes, ◌==◌}
use foxy.X3.Grammar.{
  Grammar, alpha, digit, standard, char_set, char_class, ◌<|>◌, in_set, is_alpha, is_digit,
  ascii_class,
}
use foxy.X3.Library.{X3}
use foxy.Uri.Standard
use foxy.Uri.Items.{Reads, class-Reads, set-Reads, pct-Reads, or-Reads}

-- unreserved / sub-delims
abbrev pub is_name_char : ℕ → Bool
is_name_char c =
    is_alpha c || is_digit c || in_set (codes "-._~") c || in_set (codes "!$&'()*+,;=") c

abbrev pub is_user_char : ℕ → Bool
is_user_char c = is_name_char c || c == b':'

abbrev pub is_pchar : ℕ → Bool
is_pchar c = is_name_char c || in_set (codes ":@") c

abbrev pub is_query_char : ℕ → Bool
is_query_char c = is_pchar c || in_set (codes "/?") c

abbrev pub is_scheme_char : ℕ → Bool
is_scheme_char c = is_alpha c || is_digit c || in_set (codes "+-.") c

module _ (x : X3) where
  same-Reads :
      (g : Grammar) (test test' : ℕ → Bool) (pairs : Bool)
      → ((c : ℕ) → test c ≡ test' c)
      → Reads x g test pairs
      → Reads x g test' pairs
  same-Reads g test test' pairs e r = record {
    on_char = λ c s a n. r.on_char c s a n ∙ rw (e c);
    on_pair = r.on_pair;
    on_end = r.on_end;
  }

  unreserved-Reads :
      Reads x Standard.unreserved (λ c. is_alpha c || is_digit c || in_set (codes "-._~") c) false
  unfolding Standard.unreserved ascii_class in_set is_alpha is_digit
  unreserved-Reads =
      or-Reads x (char_class standard alpha <|> char_class standard digit) (char_set (codes "-._~"))
        (λ c. is_alpha c || is_digit c) (in_set (codes "-._~")) false false
        (or-Reads x (char_class standard alpha) (char_class standard digit) is_alpha is_digit false
          false (class-Reads x standard alpha refl) (class-Reads x standard digit refl))
        (set-Reads x (codes "-._~") refl)

  pub name-Reads :
      Reads x
        (Standard.unreserved <|> Standard.pct_encoded <|> Standard.sub_delims)
        is_name_char
        true
  unfolding Standard.pct_encoded Standard.sub_delims in_set
  name-Reads =
      same-Reads (Standard.unreserved <|> Standard.pct_encoded <|> Standard.sub_delims) _
        is_name_char true (λ c. ground arith)
        (or-Reads x (Standard.unreserved <|> Standard.pct_encoded) Standard.sub_delims _ _ true
          false
          (or-Reads x Standard.unreserved Standard.pct_encoded _ _ false true unreserved-Reads
            (pct-Reads x standard))
          (set-Reads x (codes "!$&'()*+,;=") refl))

  pub pchar-Reads : Reads x Standard.pchar is_pchar true
  unfolding Standard.pchar in_set
  pchar-Reads =
      or-Reads x (Standard.unreserved <|> Standard.pct_encoded <|> Standard.sub_delims)
        (char_set (codes ":@")) _ _ true false name-Reads (set-Reads x (codes ":@") refl)
