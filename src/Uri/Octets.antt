-- ===== src/Uri/Octets.antt =====
-- What the rule for an IPv4 address takes.
pub mod Alternatives
pub mod Canonical
use foxy.Base.{
  ℕ, ◌+◌, ◌-◌, ◌*◌, ◌≤◌, Bool, true, ◌≡◌, refl, sym, ◌∙◌, ap, ◌⊎◌, inl, inr, Option, none, some, [],
  ◌∷◌, ◌++◌, ◌or_else◌, >>=-eq-some, Text, codes, length, All, All-rest, arith, Bool-cases,
  Option-cases,
}
use foxy.X3.Grammar.{
  standard, digit, Grammar, lit, char_set, char_class, ◌>>◌, exactly, in_set, one, strip, is_digit,
  ascii_class,
}
use foxy.X3.Run.{rounds, run}
use foxy.X3.Progress.{is_safe}
use foxy.X3.Consumed.{strip-some, run-some}
use foxy.X3.Library.{X3, parse-run}
use foxy.X3.Ascii.{IsAscii}
use foxy.Uri.Standard.{dec_octet, ip_v4_address}
use foxy.Uri.Octets.Alternatives.{IsOctet, Takes, dec_octet-some}

module _ (x : X3) where
  -- A dot and an octet behind something else.
  next-IsOctet :
      (g : Grammar) (s r : Text)
      → All IsAscii s
      → run x.is_class (g >> lit (codes ".") >> dec_octet) s ≡ some r
      → (q : Text) × (run x.is_class g s ≡ some q) × (t : Text) × (q ≡ b'.' ∷ (t ++ r)) × IsOctet t
  unfolding run
  next-IsOctet g s r a e =
      let (p, front, octet) =
        >>=-eq-some (run x.is_class (g >> lit (codes ".")) s) (run x.is_class dec_octet) e in
      let (q, before, dot) = >>=-eq-some (run x.is_class g s) (strip (codes ".")) front in
      let there = strip-some (codes ".") q p dot in
      let (u, split) = run-some x.is_class g s q before in
      let (t, split', small) =
        dec_octet-some x p r
          ((All-rest IsAscii u (b'.' ∷ p) (rw (split ∙ ap (λ v. u ++ v) there) at a)).1) octet in
      (q, before, t, there ∙ ap (λ v. b'.' ∷ v) split', small)

  -- Of an ASCII text the rule for an IPv4 address takes four numbers below 256, of one to three
  -- digits each, with dots between them.
  pub ip_v4_address-IsOctet :
      (s r : Text)
      → All IsAscii s
      → x.parse ip_v4_address s ≡ some r
      → (a b c d : Text) × (s ≡ a ++ (b'.' ∷ (b ++ (b'.' ∷ (c ++ (b'.' ∷ (d ++ r)))))))
        × IsOctet a
        × IsOctet b
        × IsOctet c
        × IsOctet d
  unfolding ip_v4_address dec_octet is_safe
  ip_v4_address-IsOctet s r ascii e =
      let e' = sym (parse-run x ip_v4_address s refl) ∙ e in
      let (q₃, f₃, d, s₃, small_d) = next-IsOctet _ s r ascii e' in
      let (q₂, f₂, c, s₂, small_c) = next-IsOctet _ s q₃ ascii f₃ in
      let (q₁, f₁, b, s₁, small_b) = next-IsOctet _ s q₂ ascii f₂ in
      let (a, s₀, small_a) = dec_octet-some x s q₁ ascii f₁ in
      (
        a,
        b,
        c,
        d,
        s₀ ∙ ap (λ v. a ++ v) (s₁ ∙ ap (λ v. b'.' ∷ (b ++ v)) (s₂ ∙ ap (λ v. b'.' ∷ (c ++ v)) s₃)),
        small_a,
        small_b,
        small_c,
        small_d,
      )
