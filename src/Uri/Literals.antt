-- ===== src/Uri/Literals.antt =====
-- include/foxy/uri.hpp: what the rule ip-literal takes of an IPv6 address with all its groups.
use foxy.Base.{
  ap, ℕ, zero, suc, ◌+◌, ◌≤◌, ◌≡◌, refl, sym, ◌∙◌, true, none, some, List, [], ◌∷◌, ◌++◌,
  append_assoc, arith, ◌⊎◌, inl, inr, Text, codes, length, All,
}
use foxy.X3.Grammar.{
  xdigit, standard, lit, ◌>>◌, exactly, one, strip, ascii_class, is_xdigit, is_digit,
}
use foxy.X3.Run.{rounds, run}
use foxy.X3.Ascii.{IsAscii}
use foxy.X3.Library.{X3}
use foxy.Uri.Standard
use foxy.Uri.Items.{Stops}

-- One to four hexadecimal digits.
abbrev pub IsHexDigit : ℕ → Type 0
IsHexDigit c = IsAscii c × (is_xdigit c ≡ true)

pub record IsGroup (t : Text) : Type 0 where
  pub digits : All IsHexDigit t
  pub some_digit : 1 ≤ length t
  pub few : length t ≤ 4

pub group-IsAscii : (t : Text) → All IsHexDigit t → All IsAscii t
group-IsAscii [] h = tt
group-IsAscii (c ∷ t) h = (h.0.0, group-IsAscii t h.1)

-- Groups with a colon behind each.
abbrev pub with_colons : List Text → Text
with_colons [] = []
with_colons (g ∷ gs) = g ++ (b':' ∷ with_colons gs)

-- Eight groups in brackets: six of them, and two more.
abbrev pub literal_text : List Text → Text → Text → Text
literal_text gs a b = b'[' ∷ (with_colons gs ++ (a ++ (b':' ∷ (b ++ codes "]"))))

module _ (x : X3) where
  is_hex : (c : ℕ) → IsHexDigit c → x.is_class standard xdigit c ≡ true
  unfolding ascii_class
  is_hex c h = x.class_ascii standard xdigit c h.0 ∙ h.1

  pub hex-none : (s : Text) → Stops is_xdigit s → one (x.is_class standard xdigit) s ≡ none
  unfolding one ascii_class
  hex-none [] h = refl
  hex-none (c ∷ s) h = rw (x.class_ascii standard xdigit c h.0 ∙ h.2)

  hex-some : (c : ℕ) (s : Text) → IsHexDigit c → one (x.is_class standard xdigit) (c ∷ s) ≡ some s
  unfolding one
  hex-some c s h = rw (is_hex c h)

  rounds-digits :
      (lo extra : ℕ) (t rest : Text)
      → All IsHexDigit t
      → lo ≤ length t
      → length t ≤ lo + extra
      → Stops is_xdigit rest
      → rounds lo extra (one (x.is_class standard xdigit)) (t ++ rest) ≡ some rest
  unfolding rounds
  rounds-digits zero zero [] rest h l m stop = refl
  rounds-digits zero (suc extra) [] rest h l m stop = rw (hex-none rest stop, rounds)
  rounds-digits (suc lo) extra [] rest h l m stop = absurd (omega arith)
  rounds-digits zero zero (c ∷ t) rest h l m stop = absurd (omega arith)
  rounds-digits zero (suc extra) (c ∷ t) rest h l m stop =
      rw (hex-some c (t ++ rest) h.0, rounds)
        (rounds-digits zero extra t rest h.1 (omega arith) (omega arith) stop)
  rounds-digits (suc lo) extra (c ∷ t) rest h l m stop =
      rw (hex-some c (t ++ rest) h.0, rounds)
        (rounds-digits lo extra t rest h.1 (omega arith) (omega arith) stop)

  pub run-h16 :
      (g rest : Text)
      → IsGroup g
      → Stops is_xdigit rest
      → run x.is_class Standard.h16 (g ++ rest) ≡ some rest
  unfolding Standard.h16 run
  run-h16 g rest h stop = rounds-digits 1 3 g rest h.digits h.some_digit (omega (arith, h.few)) stop

  mark-Stops : (c : ℕ) (s : Text) → (c ≡ b':') ⊎ (c ≡ b']') → Stops is_xdigit (c ∷ s)
  unfolding is_xdigit is_digit
  mark-Stops c s h = (omega arith, omega arith, ground arith)

  pub run-group :
      (g s : Text)
      → IsGroup g
      → run x.is_class (Standard.h16 >> lit (codes ":")) (g ++ (b':' ∷ s)) ≡ some s
  unfolding run strip
  run-group g s h = rw (run-h16 g (b':' ∷ s) h (mark-Stops b':' s (inl refl)))

  run-groups :
      (gs : List Text) (s : Text)
      → All IsGroup gs
      → rounds
          (length gs)
          0
          (run x.is_class (Standard.h16 >> lit (codes ":")))
          (with_colons gs ++ s)
        ≡ some s
  unfolding rounds
  run-groups [] s h = refl
  run-groups (g ∷ gs) s h =
      rw (append_assoc g (b':' ∷ with_colons gs) s)
        (rw (run-group g (with_colons gs ++ s) h.0, rounds) (run-groups gs s h.1))

  run-ls32 :
      (a b s : Text)
      → IsGroup a
      → IsGroup b
      → run x.is_class Standard.ls32 (a ++ (b':' ∷ (b ++ (b']' ∷ s)))) ≡ some (b']' ∷ s)
  unfolding Standard.ls32 run strip
  run-ls32 a b s ha hb =
      rw (run-group a (b ++ (b']' ∷ s)) ha)
        (rw (run-h16 b (b']' ∷ s) hb (mark-Stops b']' s (inr refl))))

  run-v6 :
      (gs : List Text) (a b s : Text)
      → length gs ≡ 6
      → All IsGroup gs
      → IsGroup a
      → IsGroup b
      → run x.is_class Standard.ip_v6_address (with_colons gs ++ (a ++ (b':' ∷ (b ++ (b']' ∷ s)))))
        ≡ some (b']' ∷ s)
  unfolding Standard.ip_v6_address run
  run-v6 gs a b s six h ha hb =
      let input : Text = with_colons gs ++ (a ++ (b':' ∷ (b ++ (b']' ∷ s)))) in
      let front : rounds 6 0 (run x.is_class (Standard.h16 >> lit (codes ":"))) input
          ≡ some (a ++ (b':' ∷ (b ++ (b']' ∷ s)))) =
        ap (λ n. rounds n 0 (run x.is_class (Standard.h16 >> lit (codes ":"))) input) (sym six)
        ∙ run-groups gs (a ++ (b':' ∷ (b ++ (b']' ∷ s)))) h in
      let first : run x.is_class (exactly 6 (Standard.h16 >> lit (codes ":")) >> Standard.ls32)
            input
          ≡ some (b']' ∷ s) =
        rw front (run-ls32 a b s ha hb) in
      rw first refl

  -- An address of eight groups in brackets is taken whole.
  pub run-literal :
      (gs : List Text) (a b rest : Text)
      → length gs ≡ 6
      → All IsGroup gs
      → IsGroup a
      → IsGroup b
      → run x.is_class Standard.ip_literal (literal_text gs a b ++ rest) ≡ some rest
  unfolding Standard.ip_literal run strip
  run-literal gs a b rest six h ha hb =
      let same : (with_colons gs ++ (a ++ (b':' ∷ (b ++ codes "]")))) ++ rest
          ≡ with_colons gs ++ (a ++ (b':' ∷ (b ++ (b']' ∷ rest)))) =
        simp append_assoc in
      rw same (rw (run-v6 gs a b rest six h ha hb) refl)
