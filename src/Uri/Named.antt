-- ===== src/Uri/Named.antt =====
-- include/foxy/uri.hpp: what the rules host and path-abempty take of a spelt part.
use foxy.Base.{
  ap, ℕ, ◌≡◌, ◌≢◌, refl, ◌∙◌, true, false, Option-cases, some, List, [], ◌∷◌, ◌++◌, append_assoc,
  arith, Text, codes, All, ◌==◌, none, inl, inr,
}
use foxy.X3.Grammar.{
  digit, standard, char_set, ◌>>◌, in_set, is_alpha, is_digit, ascii_class, one, strip,
}
use foxy.X3.Run.{run, rounds}
use foxy.X3.Library.{X3}
use foxy.X3.Pieces.{IsPiece, concat, star-concat}
use foxy.Pct.Decode.Meaning.{Item, spell}
use foxy.Uri.Standard
use foxy.Uri.Octets.Canonical.{IsNumber, ip_v4_address-IsNumber}
use foxy.Uri.Items.{Fits, Stops, star-spell}
use foxy.Uri.Characters.{is_pchar, pchar-Reads}
use foxy.Uri.Spelt.{NoDot, IsNamed}
use foxy.X3.Ascii.{IsAscii}
use foxy.Uri.Octets.Alternatives.{IsDigit, IsOctet, dec_octet-some}

-- Each segment with its slash.
abbrev pub segments : List (List Item) → List Text
segments [] = []
segments (is ∷ path) = (b'/' ∷ spell is) ∷ segments path

-- Four numbers below 256 with dots between them.
abbrev pub IsAddress : Text → Type 0
IsAddress s =
    (a b c d : Text) × (s ≡ a ++ (b'.' ∷ (b ++ (b'.' ∷ (c ++ (b'.' ∷ d))))))
    × IsNumber a
    × IsNumber b
    × IsNumber c
    × IsNumber d

-- A digit comes first.
number-front : (a s : Text) → IsNumber a → (c : ℕ) × (t : Text) × (a ++ s ≡ c ∷ t) × (c ≢ b'[')
number-front [] s h = absurd (omega (arith, h.octet.some_digit))
number-front (c ∷ a) s h = (c, a ++ s, refl, omega (arith, h.octet.digits.0))

pub not_digit : (c : ℕ) → IsDigit c → is_digit c ≡ false → ⊥
unfolding is_digit
not_digit c h e = ground arith

-- Behind some of the digits there is no dot either.
pub NoDot-behind : (t r : Text) → All IsDigit t → NoDot (t ++ r) → NoDot r
NoDot-behind [] r d h = h
NoDot-behind (c ∷ t) r d (a, inl (e, h)) = NoDot-behind t r d.1 h
NoDot-behind (c ∷ t) r d (a, inr (e, n)) = absurd (not_digit c d.0 e)

module _ (x : X3) where
  dec_octet-none :
      (c : ℕ) (s : Text)
      → IsAscii c
      → is_digit c ≡ false
      → run x.is_class Standard.dec_octet (c ∷ s) ≡ none
  unfolding Standard.dec_octet run rounds strip one in_set is_digit ascii_class
  dec_octet-none c s a h = rw (x.class_ascii standard digit c a ∙ h) (ground arith)

  dot-none : (r : Text) → NoDot r → strip (codes ".") r ≡ none
  unfolding strip is_digit
  dot-none [] h = refl
  dot-none (c ∷ r) (a, inl (e, h)) = ground arith
  dot-none (c ∷ r) (a, inr (e, n)) = ground arith

  behind_octet : (c : ℕ) (s t r : Text) → c ∷ s ≡ t ++ r → IsOctet t → NoDot s → NoDot r
  behind_octet c s [] r e o h = absurd (omega (arith, o.some_digit))
  behind_octet c s (d ∷ t) r e o h =
      let same : s ≡ t ++ r = cc in NoDot-behind t r o.digits.1 (rw same at h)

  pub ip_v4-none :
      (s : Text) → IsNamed s → All IsAscii s → run x.is_class Standard.ip_v4_address s ≡ none
  unfolding Standard.ip_v4_address run strip
  ip_v4-none [] h a = refl
  ip_v4-none (c ∷ s) (b, n, inl e) a = rw (dec_octet-none c s b e)
  ip_v4-none (c ∷ s) (b, n, inr (e, h)) a =
      elim (Option-cases (run x.is_class Standard.dec_octet (c ∷ s))) [
        | inl f ↦ rw f
        | inr (r, f) ↦
            let (t, split, octet) = dec_octet-some x (c ∷ s) r a f in
            rw f (rw (dot-none r (behind_octet c s t r split octet h)))
      ]

  pub literal-none :
      (c : ℕ) (s : Text) → c ≢ b'[' → run x.is_class Standard.ip_literal (c ∷ s) ≡ none
  unfolding Standard.ip_literal run strip
  literal-none c s h = ground arith

  pub run-host_address :
      (t rest : Text)
      → IsAddress t
      → Stops is_digit rest
      → run x.is_class Standard.host (t ++ rest) ≡ some rest
  unfolding Standard.host run
  run-host_address t rest (a, b, c, d, split, ha, hb, hc, hd) stop =
      let there : t ++ rest ≡ a ++ (b'.' ∷ (b ++ (b'.' ∷ (c ++ (b'.' ∷ (d ++ rest)))))) =
        ap (λ s. s ++ rest) split ∙ simp append_assoc in
      let (e, s, front, apart) =
        number-front a (b'.' ∷ (b ++ (b'.' ∷ (c ++ (b'.' ∷ (d ++ rest)))))) ha in
      let no_literal : run x.is_class Standard.ip_literal (t ++ rest) ≡ none =
        rw (there ∙ front) (literal-none e s apart) in
      let address : run x.is_class Standard.ip_v4_address (t ++ rest) ≡ some rest =
        rw there (ip_v4_address-IsNumber x a b c d rest ha hb hc hd stop) in
      rw no_literal (rw address)

  segment-IsPiece :
      (is : List Item)
      → All (Fits is_pchar true) is
      → IsPiece
          (run x.is_class (char_set (codes "/") >> Standard.segment))
          (Stops is_pchar)
          (b'/' ∷ spell is)
  unfolding Standard.segment in_set one run is_alpha is_digit
  segment-IsPiece is h = record {
    solid = omega arith;
    taken = λ rest stop. star-spell x Standard.pchar is_pchar true is rest (pchar-Reads x) h stop;
    may_follow = λ rest. (omega arith, omega arith, refl);
  }

  segments-IsPiece :
      (path : List (List Item))
      → All (All (Fits is_pchar true)) path
      → All
          (IsPiece (run x.is_class (char_set (codes "/") >> Standard.segment)) (Stops is_pchar))
          (segments path)
  segments-IsPiece [] h = tt
  segments-IsPiece (is ∷ path) h = (segment-IsPiece is h.0, segments-IsPiece path h.1)

  pub run-path_abempty :
      (path : List (List Item)) (rest : Text)
      → All (All (Fits is_pchar true)) path
      → Stops is_pchar rest
      → Stops (λ c. c == b'/') rest
      → run x.is_class Standard.path_abempty (concat (segments path) ++ rest) ≡ some rest
  unfolding Standard.path_abempty run one in_set
  run-path_abempty path rest h stop ended =
      star-concat x.is_class (char_set (codes "/") >> Standard.segment) (Stops is_pchar)
        (segments path) rest (segments-IsPiece path h) stop (slash-none rest ended)
    where
      slash-none :
          (s : Text)
          → Stops (λ c. c == b'/') s
          → run x.is_class (char_set (codes "/") >> Standard.segment) s ≡ none
      slash-none [] k = refl
      slash-none (c ∷ s) k = rw (k.2)
