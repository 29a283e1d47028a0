-- ===== src/Examples/IpParser/Listed.antt =====
-- The addresses that the example prints.
use foxy.Base.{
  ap, ℕ, zero, suc, ◌≤◌, ◌≡◌, refl, ◌∙◌, false, none, some, List, [], ◌∷◌, ◌++◌, append_assoc,
  append-nil, ◌>>=◌, Text, codes, length, length-append, All, arith,
}
use foxy.X3.Grammar.{lit, strip, is_digit}
use foxy.X3.Run.{run}
use foxy.X3.Progress.{is_safe}
use foxy.X3.Library.{X3}
use foxy.Uri.Raw.{raw}
use foxy.Uri.Standard
use foxy.Uri.Items.{Stops}
use foxy.Uri.Octets.Canonical.{ip_v4_address-IsNumber}
use foxy.Uri.Named.{IsAddress}
use foxy.ParseUri.Printed.{raw-append}
use foxy.Examples.IpParser.{address, listed, more_addrs, parse_addrs, with_arg, main}

-- Each further address behind its comma.
abbrev pub behind_commas : List Text → Text
behind_commas [] = []
behind_commas (a ∷ addrs) = b',' ∷ (a ++ behind_commas addrs)

module _ (x : X3) where
  run-address :
      (a rest : Text)
      → IsAddress a
      → Stops is_digit rest
      → run x.is_class address (a ++ rest) ≡ some rest
  unfolding address run
  run-address a rest (p, q, r, s, split, hp, hq, hr, hs) stop =
      let there : a ++ rest ≡ p ++ (b'.' ∷ (q ++ (b'.' ∷ (r ++ (b'.' ∷ (s ++ rest)))))) =
        ap (λ t. t ++ rest) split ∙ simp append_assoc in
      let first : run x.is_class Standard.ip_v4_address (a ++ rest) ≡ some rest =
        rw there (ip_v4_address-IsNumber x p q r s rest hp hq hr hs stop) in
      rw first

  raw-address :
      (a rest : Text)
      → IsAddress a
      → Stops is_digit rest
      → raw x address (a ++ rest) ≡ some (a, rest)
  unfolding address is_safe Standard.ip_v4_address Standard.ip_v6_address
  raw-address a rest h stop = raw-append x address a rest refl (run-address a rest h stop)

  comma-Stops :
      (addrs : List Text) (rest : Text)
      → Stops is_digit rest
      → Stops is_digit (behind_commas addrs ++ rest)
  unfolding is_digit
  comma-Stops [] rest h = h
  comma-Stops (a ∷ addrs) rest h = (omega arith, omega arith, refl)

  more_addrs-behind :
      (n : ℕ) (addrs before : List Text) (rest : Text)
      → All IsAddress addrs
      → Stops is_digit rest
      → (x.parse (lit (codes ",")) rest >>= raw x address) ≡ none
      → length addrs ≤ n
      → more_addrs x n before (behind_commas addrs ++ rest) ≡ (before ++ addrs, rest)
  unfolding more_addrs strip
  more_addrs-behind zero [] before rest h stop ended enough = rw append-nil
  more_addrs-behind (suc n) [] before rest h stop ended enough =
      rw (ended, more_addrs) (rw append-nil)
  more_addrs-behind zero (a ∷ addrs) before rest h stop ended enough = absurd (omega arith)
  more_addrs-behind (suc n) (a ∷ addrs) before rest h stop ended enough =
      let back : Text = behind_commas addrs ++ rest in
      let same : (b',' ∷ (a ++ behind_commas addrs)) ++ rest ≡ b',' ∷ (a ++ back) =
        simp append_assoc in
      let comma : x.parse (lit (codes ",")) (b',' ∷ (a ++ back)) ≡ some (a ++ back) =
        x.parse-lit (codes ",") (b',' ∷ (a ++ back)) in
      let taken : (x.parse (lit (codes ",")) (b',' ∷ (a ++ back)) >>= raw x address)
          ≡ some (a, back) =
        rw comma (raw-address a back h.0 (comma-Stops addrs rest stop)) in
      rw same (
        rw (taken, more_addrs)
          (more_addrs-behind n addrs (before ++ (a ∷ [])) rest h.1 stop ended (omega arith)
            ∙ rw (append_assoc before (a ∷ []) addrs)))

  behind_commas-length : (addrs : List Text) → length addrs ≤ length (behind_commas addrs)
  behind_commas-length [] = omega arith
  behind_commas-length (a ∷ addrs) =
      omega (arith, behind_commas-length addrs, length-append a (behind_commas addrs))

  parse_addrs-behind :
      (a : Text) (addrs : List Text) (rest : Text)
      → All IsAddress (a ∷ addrs)
      → Stops is_digit rest
      → (x.parse (lit (codes ",")) rest >>= raw x address) ≡ none
      → parse_addrs x (codes "--addresses=" ++ (a ++ (behind_commas addrs ++ rest)))
        ≡ some (a ∷ addrs, rest)
  unfolding parse_addrs strip
  parse_addrs-behind a addrs rest h stop ended =
      let back : Text = behind_commas addrs ++ rest in
      let enough : length addrs ≤ length back =
        omega (arith, behind_commas-length addrs, length-append (behind_commas addrs) rest) in
      rw (x.parse-lit (codes "--addresses=") (codes "--addresses=" ++ (a ++ back)), parse_addrs)
        (rw (raw-address a back h.0 (comma-Stops addrs rest stop))
          (ap some (more_addrs-behind (length back) addrs (a ∷ []) rest h.1 stop ended enough)))

  -- Of IPv4 addresses with commas between them the example lists all, and does not look at what
  -- follows, provided that nothing follows or what follows begins with an ASCII character that is
  -- neither a digit nor a percent sign, and not with a comma and a further address.
  pub main-listed :
      (a : Text) (addrs : List Text) (rest : Text)
      → All IsAddress (a ∷ addrs)
      → Stops is_digit rest
      → (x.parse (lit (codes ",")) rest >>= raw x address) ≡ none
      → main x ((codes "--addresses=" ++ (a ++ (behind_commas addrs ++ rest))) ∷ [])
        ≡ record { complained = false; ending = listed (a ∷ addrs) }
  unfolding main with_arg
  main-listed a addrs rest h stop ended =
      rw (parse_addrs-behind a addrs rest h stop ended, with_arg)
