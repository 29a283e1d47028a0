-- ===== src/Uri/Octets/Canonical.antt =====
-- The numbers that the rule dec-octet takes whole.
use foxy.Base.{
  ℕ, ◌+◌, ◌*◌, ◌-◌, ◌≤◌, ◌≡◌, ◌≢◌, refl, ◌&&◌, some, [], ◌∷◌, ◌++◌, leb, Text, codes, arith,
}
use foxy.X3.Grammar.{standard, digit, lit, in_set, one, strip, is_digit, ascii_class}
use foxy.X3.Run.{rounds, run}
use foxy.X3.Library.{X3}
use foxy.X3.Ascii.{IsAscii}
use foxy.Uri.Standard.{dec_octet, ip_v4_address}
use foxy.Uri.Items.{Stops}
use foxy.Uri.Octets.Alternatives.{IsDigit, IsOctet}

-- A number below 256 with no zero in front.
abbrev pub IsLeading : Text → Type 0
IsLeading [] = Unit
IsLeading (c ∷ []) = Unit
IsLeading (c ∷ d ∷ t) = c ≢ b'0'

pub record IsNumber (t : Text) : Type 0 where
  pub octet : IsOctet t
  pub leading : IsLeading t

module _ (x : X3) where
  -- With the digit class settled for the characters at hand.
  digit-run : (c : ℕ) → IsAscii c → x.is_class standard digit c ≡ (leb b'0' c && leb c b'9')
  unfolding ascii_class is_digit
  digit-run c a = x.class_ascii standard digit c a

  dec_octet-one :
      (a : ℕ) (rest : Text)
      → IsDigit a
      → Stops is_digit rest
      → run x.is_class dec_octet (a ∷ rest) ≡ some rest
  unfolding dec_octet run rounds strip one in_set is_digit
  dec_octet-one a [] h stop = ground (arith, digit-run a (omega arith))
  dec_octet-one a (c ∷ s) h stop =
      ground (arith, digit-run a (omega arith), digit-run c stop.0, stop.2)

  dec_octet-two :
      (a b : ℕ) (rest : Text)
      → IsDigit a
      → IsDigit b
      → a ≢ b'0'
      → Stops is_digit rest
      → run x.is_class dec_octet (a ∷ b ∷ rest) ≡ some rest
  unfolding dec_octet run rounds strip one in_set is_digit
  dec_octet-two a b [] h k n stop =
      ground (arith, digit-run a (omega arith), digit-run b (omega arith))
  dec_octet-two a b (c ∷ s) h k n stop =
      ground
        (arith, digit-run a (omega arith), digit-run b (omega arith), digit-run c stop.0, stop.2)

  dec_octet-three :
      (a b c : ℕ) (rest : Text)
      → IsDigit a
      → IsDigit b
      → IsDigit c
      → a ≢ b'0'
      → (a - b'0') * 100 + (b - b'0') * 10 + (c - b'0') ≤ 255
      → run x.is_class dec_octet (a ∷ b ∷ c ∷ rest) ≡ some rest
  unfolding dec_octet run rounds strip one in_set
  dec_octet-three a b c rest h k l n small =
      ground
        (arith, digit-run a (omega arith), digit-run b (omega arith), digit-run c (omega arith))

  -- Such a number is taken whole, where no further digit follows.
  pub dec_octet-IsNumber :
      (t rest : Text)
      → IsNumber t
      → Stops is_digit rest
      → run x.is_class dec_octet (t ++ rest) ≡ some rest
  dec_octet-IsNumber [] rest h stop = absurd (omega (arith, h.octet.some_digit))
  dec_octet-IsNumber (a ∷ []) rest h stop = dec_octet-one a rest h.octet.digits.0 stop
  dec_octet-IsNumber (a ∷ b ∷ []) rest h stop =
      dec_octet-two a b rest h.octet.digits.0 h.octet.digits.1.0 h.leading stop
  dec_octet-IsNumber (a ∷ b ∷ c ∷ []) rest h stop =
      dec_octet-three a b c rest h.octet.digits.0 h.octet.digits.1.0 h.octet.digits.1.1.0 h.leading
        (omega (arith, h.octet.small))
  dec_octet-IsNumber (a ∷ b ∷ c ∷ d ∷ t) rest h stop = absurd (omega (arith, h.octet.few))

  dot-run : (s : Text) → run x.is_class (lit (codes ".")) (b'.' ∷ s) ≡ some s
  unfolding run strip
  dot-run s = refl

  dot-Stops : (s : Text) → Stops is_digit (b'.' ∷ s)
  unfolding is_digit
  dot-Stops s = (omega arith, omega arith, refl)

  -- The rule for an IPv4 address takes four such numbers with dots between them.
  pub ip_v4_address-IsNumber :
      (a b c d rest : Text)
      → IsNumber a
      → IsNumber b
      → IsNumber c
      → IsNumber d
      → Stops is_digit rest
      → run x.is_class ip_v4_address (a ++ (b'.' ∷ (b ++ (b'.' ∷ (c ++ (b'.' ∷ (d ++ rest)))))))
        ≡ some rest
  unfolding ip_v4_address run strip
  ip_v4_address-IsNumber a b c d rest ha hb hc hd stop =
      let after_c : Text = d ++ rest in
      let after_b : Text = c ++ (b'.' ∷ after_c) in
      let after_a : Text = b ++ (b'.' ∷ after_b) in
      rw (dec_octet-IsNumber a (b'.' ∷ after_a) ha (dot-Stops after_a)) (
        rw (dec_octet-IsNumber b (b'.' ∷ after_b) hb (dot-Stops after_b)) (
          rw (dec_octet-IsNumber c (b'.' ∷ after_c) hc (dot-Stops after_c))
            (dec_octet-IsNumber d rest hd stop)))
