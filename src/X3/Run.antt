-- ===== src/X3/Run.antt =====
-- A reference semantics: parsing expressions over a list of characters, greedy and ordered.
use foxy.Base.{
  ℕ, zero, suc, Bool, true, false, Option, none, some, ltb, ◌>>=◌, ◌or_else◌, Text, length,
}
use foxy.X3.Grammar.{
  Class, Encoding, Grammar, lit, no_case_lit, char_set, char_class, any_char, ◌>>◌, ◌<|>◌,
  ◌but_not◌, star, plus, opt, repeat, in_set, one, strip, strip_no_case,
}

abbrev pub Classes : Type 0
Classes = Encoding → Class → ℕ → Bool

-- Zero or more rounds, as long as each consumes something.
unfoldable pub many : ℕ → (Text → Option Text) → Text → Text
many zero f s = s
many (suc n) f s = elim (f s) [
  | none ↦ s
  | some r ↦ elim (ltb (length r) (length s)) [ true ↦ many n f r | false ↦ r ]
]

-- `lo` rounds that must match, and up to `extra` that may.
unfoldable pub rounds : ℕ → ℕ → (Text → Option Text) → Text → Option Text
rounds zero zero f s = some s
rounds zero (suc extra) f s = elim (f s) [ none ↦ some s | some r ↦ rounds zero extra f r ]
rounds (suc lo) extra f s = elim (f s) [ none ↦ none | some r ↦ rounds lo extra f r ]

-- What is left of the input after a match.
unfoldable pub run : Classes → Grammar → Text → Option Text
unfolding in_set one strip strip_no_case many rounds
run is (lit t) s = strip t s
run is (no_case_lit t) s = strip_no_case t s
run is (char_set def) s = one (in_set def) s
run is (char_class e k) s = one (is e k) s
run is any_char s = one (λ _. true) s
run is (p >> q) s = run is p s >>= run is q
run is (p <|> q) s = run is p s or_else run is q s
run is (p but_not q) s = elim (run is q s) [ none ↦ run is p s | some _ ↦ none ]
run is (star p) s = some (many (length s) (run is p) s)
run is (plus p) s = run is p s >>= λ r. some (many (length r) (run is p) r)
run is (opt p) s = run is p s or_else some s
run is (repeat lo extra p) s = rounds lo extra (run is p) s
