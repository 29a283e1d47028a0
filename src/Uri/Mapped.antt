-- ===== src/Uri/Mapped.antt =====
-- include/foxy/uri.hpp: the rules ip-v6-address and ip-literal on an address with two colons in it and
-- an IPv4 address at its end.
use foxy.Base.{
  ℕ, zero, suc, ◌+◌, ◌≤◌, ◌≡◌, refl, ◌∙◌, none, some, List, [], ◌∷◌, ◌++◌, arith, inl, inr, Text,
  codes, length, All, ap, Bool, true, false, ◌&&◌, ◌||◌, ◌==◌, if◌then◌else◌, Bool-cases,
  append_assoc, All-append,
}
use foxy.X3.Grammar.{◌>>◌, exactly, strip, is_xdigit, is_digit}
use foxy.X3.Run.{run}
use foxy.X3.Progress.{is_safe}
use foxy.X3.Ascii.{IsAscii}
use foxy.X3.Library.{X3, parse-run}
use foxy.Uri.Standard
use foxy.Uri.Literals.{IsGroup}
use foxy.Uri.Literals.{IsHexDigit, group-IsAscii}
use foxy.Uri.Named.{IsAddress}
use foxy.Uri.Items.{Stops}
use foxy.Uri.Octets.Alternatives.{IsDigit}
use foxy.Uri.Octets.Canonical.{IsNumber, ip_v4_address-IsNumber}
use foxy.Uri.Groups.{h16_colon, between_colons-append}
use foxy.Uri.Gaps.{gapped, alternatives}
use foxy.Uri.Dotted.{dotted, dotted-all}
use foxy.Uri.Between.{
  zero-taken, one-taken, two-missed, three-taken, three-missed, four-taken, five-taken,
}

-- Two groups behind the two colons; or three, with one in front.
abbrev pub is_mapped_misread : List Text → List Text → Bool
is_mapped_misread ks ms = length ms == 2 || length ms == 3 && length ks == 1

-- An address in brackets with two colons in it and an IPv4 address at its end.
abbrev pub mapped_text : List Text → List Text → Text → Text
mapped_text ks ms v = b'[' ∷ gapped ks (dotted ms (v ++ codes "]"))

module _ (x : X3) (ks ms : List Text) (o rest e : Text) (hk : All IsGroup ks) (hm : All IsGroup ms)
    (octet : IsGroup o)
    (v4 : run x.is_class Standard.ip_v4_address (o ++ (b'.' ∷ rest)) ≡ some (b']' ∷ e))
    (a : All IsAscii (dotted ms (o ++ (b'.' ∷ rest)))) where
  abbrev input : Text
  input = gapped ks (dotted ms (o ++ (b'.' ∷ rest)))

  by_count :
      (m : ℕ)
      → length ms ≡ m
      → length ks + m ≤ 5
      → is_mapped_misread ks ms ≡ false
      → run x.is_class Standard.ip_v6_address input ≡ some (b']' ∷ e)
  by_count zero l k n = zero-taken x ks ms o rest e hk hm octet v4 a l (omega arith)
  by_count (suc zero) l k n = one-taken x ks ms o rest e hk hm octet v4 a l (omega arith)
  by_count (suc (suc zero)) l k n = ground (arith, l, n)
  by_count (suc (suc (suc zero))) l k n =
      three-taken x ks ms o rest e hk hm octet v4 a l (omega arith) (λ j. ground (arith, l, n))
  by_count (suc (suc (suc (suc zero)))) l k n =
      four-taken x ks ms o rest e hk hm octet v4 a l (omega arith)
  by_count (suc (suc (suc (suc (suc zero))))) l k n =
      five-taken x ks ms o rest e hk hm octet v4 a l (omega arith)
  by_count (suc (suc (suc (suc (suc (suc m)))))) l k n = absurd (omega arith)

  missed :
      length ks + length ms ≤ 5
      → is_mapped_misread ks ms ≡ true
      → run x.is_class Standard.ip_v6_address input ≡ some (b'.' ∷ rest)
  missed k n = elim (Bool-cases (length ms == 2)) [
    | inl two ↦
        two-missed x ks ms o rest e hk hm octet v4 a (ground (arith, two)) (ground (arith, two))
    | inr other ↦
        three-missed x ks ms o rest e hk hm octet v4 a (ground (arith, other, n))
          (ground (arith, other, n))
  ]

  pub literal_taken :
      length ks + length ms ≤ 5
      → is_mapped_misread ks ms ≡ false
      → run x.is_class Standard.ip_literal (b'[' ∷ input) ≡ some e
  unfolding Standard.ip_literal run strip
  literal_taken k n = rw (by_count (length ms) refl k n) refl

  pub literal_missed :
      length ks + length ms ≤ 5
      → is_mapped_misread ks ms ≡ true
      → run x.is_class Standard.ip_literal (b'[' ∷ input) ≡ none
  unfolding Standard.ip_literal run strip
  literal_missed k n = rw (missed k n) refl

digits-hex : (t : Text) → All IsDigit t → All IsHexDigit t
unfolding is_xdigit is_digit
digits-hex [] h = tt
digits-hex (c ∷ t) h = ((omega (arith, h.0), ground (arith, h.0)), digits-hex t h.1)

number-IsGroup : (t : Text) → IsNumber t → IsGroup t
number-IsGroup t h = record {
  digits = digits-hex t h.octet.digits;
  some_digit = h.octet.some_digit;
  few = omega (arith, h.octet.few);
}

dotted-append : (ms : List Text) (v r : Text) → dotted ms v ++ r ≡ dotted ms (v ++ r)
dotted-append [] v r = refl
dotted-append (g ∷ ms) v r = rw (append_assoc g (b':' ∷ dotted ms v) r, dotted-append ms v r) refl

pub dotted-IsAscii :
    (ms : List Text) (v : Text) → All IsGroup ms → All IsAscii v → All IsAscii (dotted ms v)
dotted-IsAscii [] v h k = k
dotted-IsAscii (g ∷ ms) v h k =
    All-append IsAscii g _ (group-IsAscii g h.0.digits) (omega arith, dotted-IsAscii ms v h.1 k)

number-IsAscii : (t : Text) → IsNumber t → All IsAscii t
number-IsAscii t h = group-IsAscii t (digits-hex t h.octet.digits)

pub address-IsAscii : (t : Text) → IsAddress t → All IsAscii t
address-IsAscii t (a, b, c, d, split, ha, hb, hc, hd) = rw split (
    All-append IsAscii a _ (number-IsAscii a ha) (
      omega arith,
      All-append IsAscii b _ (number-IsAscii b hb) (
        omega arith,
        All-append IsAscii c _ (number-IsAscii c hc) (omega arith, number-IsAscii d hd),
      ),
    ))

mapped_text-append :
    (ks ms : List Text) (v r : Text)
    → mapped_text ks ms v ++ r ≡ b'[' ∷ gapped ks (dotted ms (v ++ (b']' ∷ r)))
mapped_text-append ks ms v r = ap (◌∷◌ b'[') (
    between_colons-append ks _ r
    ∙ ap (gapped ks)
        (dotted-append ms (v ++ codes "]") r ∙ ap (dotted ms) (append_assoc v (codes "]") r)))

-- The bracket behind the IPv4 address is no digit of it.
bracket-Stops : (r : Text) → Stops is_digit (b']' ∷ r)
unfolding is_digit
bracket-Stops r = (omega arith, omega arith, refl)

pub run-mapped :
    (x : X3) (ks ms : List Text) (v r : Text)
    → All IsGroup ks
    → All IsGroup ms
    → IsAddress v
    → length ks + length ms ≤ 5
    → All IsAscii r
    → run x.is_class Standard.ip_literal (mapped_text ks ms v ++ r)
      ≡ (if is_mapped_misread ks ms then none else some r)
run-mapped x ks ms v r hk hm (a, b, c, d, split, ha, hb, hc, hd) l ascii =
    let rest : Text = b ++ (b'.' ∷ (c ++ (b'.' ∷ (d ++ (b']' ∷ r))))) in
    let there : v ++ (b']' ∷ r) ≡ a ++ (b'.' ∷ rest) =
      ap (λ s. s ++ (b']' ∷ r)) split ∙ simp append_assoc in
    let behind : All IsAscii (a ++ (b'.' ∷ rest)) = rw there at (
      All-append IsAscii v (b']' ∷ r) (address-IsAscii v (a, b, c, d, split, ha, hb, hc, hd))
        (omega arith, ascii)) in
    let v4 = ip_v4_address-IsNumber x a b c d (b']' ∷ r) ha hb hc hd (bracket-Stops r) in
    let octet = number-IsGroup a ha in
    let whole = dotted-IsAscii ms (a ++ (b'.' ∷ rest)) hm behind in
    rw (mapped_text-append ks ms v r ∙ ap (λ s. b'[' ∷ gapped ks (dotted ms s)) there)
      (elim (Bool-cases (is_mapped_misread ks ms)) [
        | inl e ↦ rw e (literal_missed x ks ms a rest r hk hm octet v4 whole l e)
        | inr e ↦ rw e (literal_taken x ks ms a rest r hk hm octet v4 whole l e)
      ])

-- Six groups and an IPv4 address, with a colon behind each group.
abbrev pub embedded_text : List Text → Text → Text
embedded_text gs v = b'[' ∷ dotted gs (v ++ codes "]")

embedded_v6 :
    (x : X3) (gs : List Text) (o rest e : Text)
    → All IsGroup gs
    → length gs ≡ 6
    → IsGroup o
    → run x.is_class Standard.ip_v4_address (o ++ (b'.' ∷ rest)) ≡ some (b']' ∷ e)
    → run x.is_class Standard.ip_literal (b'[' ∷ dotted gs (o ++ (b'.' ∷ rest))) ≡ some e
unfolding run Standard.ip_literal strip
embedded_v6 x gs o rest e h l octet v4 =
    let input : Text = dotted gs (o ++ (b'.' ∷ rest)) in
    let eight : run x.is_class (exactly 6 h16_colon >> Standard.ls32) input ≡ some (b']' ∷ e) =
      dotted-all x o rest e octet v4 6 gs l h in
    let taken : run x.is_class Standard.ip_v6_address input ≡ some (b']' ∷ e) =
      alternatives x input ∙ rw eight refl in
    rw taken refl

pub run-embedded :
    (x : X3) (gs : List Text) (v r : Text)
    → All IsGroup gs
    → length gs ≡ 6
    → IsAddress v
    → run x.is_class Standard.ip_literal (embedded_text gs v ++ r) ≡ some r
run-embedded x gs v r h l (a, b, c, d, split, ha, hb, hc, hd) =
    let rest : Text = b ++ (b'.' ∷ (c ++ (b'.' ∷ (d ++ (b']' ∷ r))))) in
    let v4 = ip_v4_address-IsNumber x a b c d (b']' ∷ r) ha hb hc hd (bracket-Stops r) in
    let there : embedded_text gs v ++ r ≡ b'[' ∷ dotted gs (a ++ (b'.' ∷ rest)) = ap (◌∷◌ b'[') (
      dotted-append gs (v ++ codes "]") r
      ∙ ap (dotted gs)
          (append_assoc v (codes "]") r ∙ ap (λ s. s ++ (b']' ∷ r)) split ∙ simp append_assoc)) in
    rw there (embedded_v6 x gs a rest r h l (number-IsGroup a ha) v4)

-- Of an address in brackets, of at most five groups with two colons before, between or behind them and
-- an IPv4 address at its end, the rule ip-literal takes the whole in front of an ASCII text; but nothing
-- where two groups stand between the colons and the IPv4 address, or three of them and one in front.
pub ip_literal-mapped :
    (x : X3) (ks ms : List Text) (v r : Text)
    → All IsGroup ks
    → All IsGroup ms
    → IsAddress v
    → length ks + length ms ≤ 5
    → All IsAscii r
    → x.parse Standard.ip_literal (mapped_text ks ms v ++ r)
      ≡ (if is_mapped_misread ks ms then none else some r)
unfolding is_safe Standard.ip_literal
ip_literal-mapped x ks ms v r hk hm h l ascii =
    parse-run x Standard.ip_literal (mapped_text ks ms v ++ r) refl
    ∙ run-mapped x ks ms v r hk hm h l ascii
