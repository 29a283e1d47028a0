-- ===== src/Uri/Compressed.antt =====
-- include/foxy/uri.hpp: the rules ip-v6-address and ip-literal on an address with two colons in it.
use foxy.Base.{
  ℕ, zero, suc, ◌+◌, ◌≤◌, ◌≡◌, ◌≢◌, refl, ◌∙◌, none, some, List, [], ◌∷◌, ◌++◌, arith, Text, codes,
  length, length-drop, drop, All, Bool, true, false, ◌&&◌, ◌==◌, if◌then◌else◌, ap, Bool-cases, inl,
  inr,
}
use foxy.X3.Grammar.{strip}
use foxy.X3.Run.{run}
use foxy.X3.Ascii.{IsAscii}
use foxy.X3.Progress.{is_safe}
use foxy.X3.Library.{X3, parse-run}
use foxy.Uri.Standard
use foxy.Uri.Literals.{IsGroup}
use foxy.Uri.Groups.{more, between_colons, between_colons-append}
use foxy.Uri.Gaps.{gapped}
use foxy.Uri.Counted.{
  zero-taken, one-taken, two-taken, three-taken, four-taken, five-taken, six-taken, seven-taken,
  misread,
}

-- One group in front of the two colons and five behind them.
abbrev pub is_misread : List Text → List Text → Bool
is_misread ks ms = length ks == 1 && length ms == 5

-- An address in brackets with two colons between the groups.
abbrev pub compressed_text : List Text → List Text → Text
compressed_text ks ms = b'[' ∷ gapped ks (between_colons ms (codes "]"))

module _ (x : X3) (ks ms : List Text) (r : Text) (hk : All IsGroup ks) (hm : All IsGroup ms)
    (a : All IsAscii r) where
  abbrev input : Text
  input = gapped ks (between_colons ms (b']' ∷ r))

  by_count :
      (m : ℕ)
      → length ms ≡ m
      → length ks + m ≤ 7
      → (m ≡ 5 → length ks ≢ 1)
      → run x.is_class Standard.ip_v6_address input ≡ some (b']' ∷ r)
  by_count zero e l n = zero-taken x ks ms r hk hm a e (omega arith)
  by_count (suc zero) e l n = one-taken x ks ms r hk hm a e (omega arith)
  by_count (suc (suc zero)) e l n = two-taken x ks ms r hk hm a e (omega arith)
  by_count (suc (suc (suc zero))) e l n = three-taken x ks ms r hk hm a e (omega arith)
  by_count (suc (suc (suc (suc zero)))) e l n = four-taken x ks ms r hk hm a e (omega arith)
  by_count (suc (suc (suc (suc (suc zero))))) e l n =
      five-taken x ks ms r hk hm a e (omega arith) (n refl)
  by_count (suc (suc (suc (suc (suc (suc zero)))))) e l n =
      six-taken x ks ms r hk hm a e (omega arith)
  by_count (suc (suc (suc (suc (suc (suc (suc zero))))))) e l n =
      seven-taken x ks ms r hk hm a e (omega arith)
  by_count (suc (suc (suc (suc (suc (suc (suc (suc m)))))))) e l n = absurd (omega arith)

  taken :
      length ks + length ms ≤ 7
      → is_misread ks ms ≡ false
      → run x.is_class Standard.ip_v6_address input ≡ some (b']' ∷ r)
  taken l e = by_count (length ms) refl l (λ m k. ground (arith, e))

  bracket_missed :
      (ns : List Text) (s : Text) → 1 ≤ length ns → strip (codes "]") (more ns s) ≡ none
  unfolding strip
  bracket_missed [] s l = absurd (omega arith)
  bracket_missed (n ∷ ns) s l = refl

  pub literal_taken :
      length ks + length ms ≤ 7
      → is_misread ks ms ≡ false
      → run x.is_class Standard.ip_literal (b'[' ∷ input) ≡ some r
  unfolding Standard.ip_literal run strip
  literal_taken l e = rw (taken l e) refl

  pub literal_missed :
      is_misread ks ms ≡ true → run x.is_class Standard.ip_literal (b'[' ∷ input) ≡ none
  unfolding Standard.ip_literal run strip
  literal_missed e =
      let five : length ms ≡ 5 = ground (arith, e) in
      rw (misread x ks ms r hk hm a (ground (arith, e)) (ground (arith, e)))
        (bracket_missed (drop 4 ms) (b']' ∷ r) (omega (arith, length-drop {0} 4 ms, five)))

compressed_text-append :
    (ks ms : List Text) (r : Text)
    → compressed_text ks ms ++ r ≡ b'[' ∷ gapped ks (between_colons ms (b']' ∷ r))
compressed_text-append ks ms r =
    ap (◌∷◌ b'[')
      (between_colons-append ks _ r ∙ ap (gapped ks) (between_colons-append ms (codes "]") r))

pub run-compressed :
    (x : X3) (ks ms : List Text) (r : Text)
    → All IsGroup ks
    → All IsGroup ms
    → length ks + length ms ≤ 7
    → is_misread ks ms ≡ false
    → All IsAscii r
    → run x.is_class Standard.ip_literal (compressed_text ks ms ++ r) ≡ some r
run-compressed x ks ms r hk hm l e a =
    rw (compressed_text-append ks ms r) (literal_taken x ks ms r hk hm a l e)

-- Of an address in brackets, of at most seven groups with two colons before, between or behind them,
-- the rule ip-literal takes the whole in front of an ASCII text; but nothing where one group stands
-- before the colons and five behind them.
pub ip_literal-compressed :
    (x : X3) (ks ms : List Text) (r : Text)
    → All IsGroup ks
    → All IsGroup ms
    → length ks + length ms ≤ 7
    → All IsAscii r
    → x.parse Standard.ip_literal (compressed_text ks ms ++ r)
      ≡ (if is_misread ks ms then none else some r)
unfolding is_safe Standard.ip_literal
ip_literal-compressed x ks ms r hk hm l a =
    parse-run x Standard.ip_literal (compressed_text ks ms ++ r) refl
    ∙ rw (compressed_text-append ks ms r) (elim (Bool-cases (is_misread ks ms)) [
      | inl e ↦ rw e (literal_missed x ks ms r hk hm a e)
      | inr e ↦ rw e (literal_taken x ks ms r hk hm a l e)
    ])
