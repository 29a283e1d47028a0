-- ===== src/Uri/Unaddressed.antt =====
-- include/foxy/uri.hpp: what the rule host takes of a registered name with no IPv4 address at its front.
use foxy.Base.{
  ℕ, ◌≡◌, refl, ◌∙◌, true, Option-cases, none, some, List, [], ◌∷◌, ◌++◌, append_assoc, All,
  All-append, arith, Text, ◌==◌, ◌⊎◌, inl, inr,
}
use foxy.X3.Grammar.{◌<|>◌, in_set, is_alpha, is_digit, strip}
use foxy.X3.Run.{run}
use foxy.X3.Progress.{is_safe}
use foxy.X3.Library.{X3, parse-run}
use foxy.X3.Ascii.{IsAscii}
use foxy.Pct.Decode.Meaning.{Item, plain, pair, spell}
use foxy.Uri.Standard
use foxy.Uri.Items.{Fits, Stops, star-spell}
use foxy.Uri.Characters.{is_name_char, name-Reads}
use foxy.Uri.Octets.Alternatives.{IsDigit, IsOctet}
use foxy.Uri.Octets.{ip_v4_address-IsOctet}
use foxy.Uri.Spelt.{NoDot, IsNamed}
use foxy.Uri.Named.{IsAddress, not_digit, NoDot-behind, literal-none, run-host_address}

-- Four numbers below 256 with dots between them do not stand at the front.
abbrev pub NoAddress : Text → Type 0
NoAddress t =
    (a b c d r : Text)
    → t ≡ a ++ (b'.' ∷ (b ++ (b'.' ∷ (c ++ (b'.' ∷ (d ++ r))))))
    → IsOctet a
    → IsOctet b
    → IsOctet c
    → IsOctet d
    → ⊥

dot_behind : (a s t : Text) → All IsDigit a → NoDot t → t ≡ a ++ (b'.' ∷ s) → ⊥
unfolding is_digit
dot_behind a s t h k e = dot_first s (NoDot-behind a (b'.' ∷ s) h (rw e at k))
  where
    dot_first : (s : Text) → NoDot (b'.' ∷ s) → ⊥
    dot_first s (b, inl (d, n)) = cc
    dot_first s (b, inr (d, n)) = n refl

digit_front :
    (m n : ℕ) (t a s : Text)
    → IsNamed (m ∷ t)
    → All IsDigit (n ∷ a)
    → m ∷ t ≡ n ∷ (a ++ (b'.' ∷ s))
    → ⊥
digit_front m n t a s (k, l, inl f) h e = let same : m ≡ n = cc in not_digit n h.0 (rw same at f)
digit_front m n t a s (k, l, inr (f, g)) h e =
    let rest : t ≡ a ++ (b'.' ∷ s) = cc in dot_behind a s t h.1 g rest

-- Such is a name that begins with no digits and a dot.
pub named-NoAddress : (t : Text) → IsNamed t → NoAddress t
named-NoAddress [] h [] b c d r e oa ob oc od = cc
named-NoAddress [] h (n ∷ a) b c d r e oa ob oc od = cc
named-NoAddress (m ∷ t) h [] b c d r e oa ob oc od = omega (arith, oa.some_digit)
named-NoAddress (m ∷ t) h (n ∷ a) b c d r e oa ob oc od = digit_front m n t a _ h oa.digits e

abbrev IsDotted : ℕ → Type 0
IsDotted c = IsDigit c ⊎ (c ≡ b'.')

digits-IsDotted : (t : Text) → All IsDigit t → All IsDotted t
digits-IsDotted [] h = tt
digits-IsDotted (c ∷ t) h = (inl h.0, digits-IsDotted t h.1)

octet-IsDotted : (t s : Text) → IsOctet t → All IsDotted s → All IsDotted (t ++ (b'.' ∷ s))
octet-IsDotted t s h k = All-append IsDotted t (b'.' ∷ s) (digits-IsDotted t h.digits) (inr refl, k)

no_dotted :
    (c : ℕ) (s : Text) → Stops is_digit (c ∷ s) → Stops (λ d. d == b'.') (c ∷ s) → IsDotted c → ⊥
unfolding is_digit
no_dotted c s h k (inl d) = ground (arith, h.2, d)
no_dotted c s h k (inr d) = ground (arith, k.2, d)

-- Digits and dots at the front of a text end before what stops them.
cut_front :
    (t rest p r : Text)
    → t ++ rest ≡ p ++ r
    → All IsDotted p
    → Stops is_digit rest
    → Stops (λ c. c == b'.') rest
    → (r' : Text) × (t ≡ p ++ r')
cut_front t rest [] r e h k l = (t, refl)
cut_front [] [] (c ∷ p) r e h k l = absurd (cc)
cut_front [] (d ∷ s) (c ∷ p) r e h k l =
    let same : d ≡ c = cc in absurd (no_dotted d s k l (rw same h.0))
cut_front (d ∷ t) rest (c ∷ p) r e h k l =
    let same : d ≡ c = cc in let (r', split) = cut_front t rest p r (cc) h.1 k l in (r', cc)

name_bracket : (c : ℕ) → is_name_char c ≡ true → c ≡ b'[' → ⊥
unfolding is_alpha is_digit in_set
name_bracket c e n = ground arith

module _ (x : X3) where
  name-literal :
      (is : List Item) (rest : Text)
      → All (Fits is_name_char true) is
      → Stops (λ c. c == b'[') rest
      → run x.is_class Standard.ip_literal (spell is ++ rest) ≡ none
  unfolding Standard.ip_literal run strip
  name-literal [] [] h k = refl
  name-literal [] (c ∷ s) h k = literal-none x c s (λ e. ground (arith, k.2))
  name-literal (plain c ∷ is) rest h k = literal-none x c (spell is ++ rest) (name_bracket c h.0.2)
  name-literal (pair a b ∷ is) rest h k =
      literal-none x b'%' (a ∷ b ∷ (spell is ++ rest)) (omega arith)

  no_address :
      (t rest : Text)
      → NoAddress t
      → All IsAscii (t ++ rest)
      → Stops is_digit rest
      → Stops (λ c. c == b'.') rest
      → run x.is_class Standard.ip_v4_address (t ++ rest) ≡ none
  unfolding is_safe Standard.ip_v4_address Standard.dec_octet
  no_address t rest none_there ascii k l =
      elim (Option-cases (run x.is_class Standard.ip_v4_address (t ++ rest))) [
        | inl f ↦ f
        | inr (r, f) ↦
            let (a, b, c, d, split, oa, ob, oc, od) =
              ip_v4_address-IsOctet x (t ++ rest) r ascii
                (parse-run x Standard.ip_v4_address (t ++ rest) refl ∙ f) in
            let p : Text = a ++ (b'.' ∷ (b ++ (b'.' ∷ (c ++ (b'.' ∷ d))))) in
            let same : t ++ rest ≡ p ++ r = split ∙ simp append_assoc in
            let dotted : All IsDotted p =
              octet-IsDotted a _ oa
                (octet-IsDotted b _ ob (octet-IsDotted c _ oc (digits-IsDotted d od.digits))) in
            let (r', front) = cut_front t rest p r same dotted k l in
            absurd (none_there a b c d r' (front ∙ simp append_assoc) oa ob oc od)
      ]

  -- A registered name with no address at its front, or an address, in front of what ends a host.
  pub run-host :
      (is : List Item) (rest : Text)
      → NoAddress (spell is) ⊎ IsAddress (spell is)
      → All IsAscii (spell is ++ rest)
      → All (Fits is_name_char true) is
      → Stops is_name_char rest
      → Stops is_digit rest
      → Stops (λ c. c == b'.') rest
      → Stops (λ c. c == b'[') rest
      → run x.is_class Standard.host (spell is ++ rest) ≡ some rest
  unfolding Standard.host Standard.reg_name run
  run-host is rest (inl none_there) ascii h stop nor dot bracket =
      rw (name-literal is rest h bracket) (
        rw (no_address (spell is) rest none_there ascii nor dot) (
          star-spell x (Standard.unreserved <|> Standard.pct_encoded <|> Standard.sub_delims)
            is_name_char true is rest (name-Reads x) h stop))
  run-host is rest (inr address) ascii h stop nor dot bracket =
      run-host_address x (spell is) rest address nor
