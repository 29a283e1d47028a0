-- ===== src/Uri/Dotted.antt =====
-- include/foxy/uri.hpp: what the alternatives of ip-v6-address take behind the two colons where an IPv4
-- address stands at the end. Its first number can be read as a group, and a dot follows it.
use foxy.Base.{
  ℕ, zero, suc, ◌≤◌, ◌≡◌, refl, none, some, List, [], ◌∷◌, ◌++◌, arith, inl, inr, Text, codes,
  length, All,
}
use foxy.X3.Grammar.{Grammar, lit, ◌>>◌, exactly, strip, is_xdigit, is_digit}
use foxy.X3.Run.{rounds, run}
use foxy.X3.Library.{X3}
use foxy.Uri.Standard
use foxy.Uri.Items.{Stops}
use foxy.Uri.Literals.{IsGroup, run-h16, run-group}
use foxy.Uri.Groups.{colon_h16, h16_colon, h16-group, groups}
use foxy.Uri.Gaps.{Meets}

-- Groups with a colon behind each, and the address.
abbrev pub dotted : List Text → Text → Text
dotted [] v = v
dotted (g ∷ gs) v = g ++ (b':' ∷ dotted gs v)

dot-Stops : (s : Text) → Stops is_xdigit (b'.' ∷ s)
unfolding is_xdigit is_digit
dot-Stops s = (omega arith, omega arith, refl)

module _ (x : X3) (o rest e : Text) (octet : IsGroup o)
    (v4 : run x.is_class Standard.ip_v4_address (o ++ (b'.' ∷ rest)) ≡ some (b']' ∷ e)) where
  abbrev address : Text
  address = o ++ (b'.' ∷ rest)

  h16-address : run x.is_class Standard.h16 address ≡ some (b'.' ∷ rest)
  h16-address = run-h16 x o (b'.' ∷ rest) octet (dot-Stops rest)

  h16_colon-address : run x.is_class h16_colon address ≡ none
  unfolding run strip
  h16_colon-address = rw h16-address refl

  pub ls32-address : run x.is_class Standard.ls32 address ≡ some (b']' ∷ e)
  unfolding Standard.ls32 run strip
  ls32-address = rw h16-address v4

  -- A group in front of the address is taken with its first number.
  ls32-before :
      (g : Text)
      → IsGroup g
      → run x.is_class Standard.ls32 (g ++ (b':' ∷ address)) ≡ some (b'.' ∷ rest)
  unfolding Standard.ls32 run
  ls32-before g h = rw (run-group x g address h) (rw h16-address refl)

  ls32-front :
      (g k : Text) (s : Text)
      → IsGroup g
      → IsGroup k
      → run x.is_class Standard.ls32 (g ++ (b':' ∷ (k ++ (b':' ∷ s)))) ≡ some (b':' ∷ s)
  unfolding Standard.ls32 run
  ls32-front g k s h i =
      rw (run-group x g (k ++ (b':' ∷ s)) h) (rw (h16-group x k (b':' ∷ s) i (inl refl)) refl)

  pub dotted-few :
      (n : ℕ) (ms : List Text)
      → suc (length ms) ≤ n
      → All IsGroup ms
      → groups x n (dotted ms address) ≡ none
  unfolding rounds run
  dotted-few zero ms l h = absurd (omega arith)
  dotted-few (suc n) [] l h = rw (h16_colon-address, rounds) refl
  dotted-few (suc n) (g ∷ ms) l h =
      rw (run-group x g (dotted ms address) h.0, rounds) (dotted-few n ms (omega arith) h.1)

  pub dotted-all :
      (n : ℕ) (ms : List Text)
      → length ms ≡ n
      → All IsGroup ms
      → groups x n (dotted ms address) ≡ some (b']' ∷ e)
  unfolding rounds run
  dotted-all zero [] l h = ls32-address
  dotted-all zero (g ∷ ms) l h = absurd (omega arith)
  dotted-all (suc n) [] l h = absurd (omega arith)
  dotted-all (suc n) (g ∷ ms) l h =
      rw (run-group x g (dotted ms address) h.0, rounds) (dotted-all n ms (omega arith) h.1)

  abbrev pub four : Grammar
  four = Standard.ls32 >> exactly 2 colon_h16

  pub four-few :
      (ms : List Text)
      → length ms ≤ 2
      → All IsGroup ms
      → run x.is_class four (dotted ms address) ≡ none
  unfolding run rounds strip
  four-few [] l h = rw ls32-address refl
  four-few (a ∷ []) l h = rw (ls32-before a h.0) refl
  four-few (a ∷ b ∷ []) l h = rw (ls32-front a b address h.0 h.1.0) (rw (h16-address, rounds) refl)
  four-few (a ∷ b ∷ c ∷ ms) l h = absurd (omega arith)

  -- Three groups and the first number are taken.
  pub four-misread :
      (ms : List Text)
      → length ms ≡ 3
      → All IsGroup ms
      → run x.is_class four (dotted ms address) ≡ some (b'.' ∷ rest)
  unfolding run rounds strip
  four-misread (a ∷ b ∷ c ∷ []) l h = rw (ls32-front a b (c ++ (b':' ∷ address)) h.0 h.1.0) (
      rw (h16-group x c (b':' ∷ address) h.1.1.0 (inl refl), rounds)
        (rw (h16-address, rounds) refl))
  four-misread [] l h = absurd (omega arith)
  four-misread (a ∷ []) l h = absurd (omega arith)
  four-misread (a ∷ b ∷ []) l h = absurd (omega arith)
  four-misread (a ∷ b ∷ c ∷ d ∷ ms) l h = absurd (omega arith)

  abbrev pub three : Grammar → Grammar
  three g = g >> Standard.h16 >> lit (codes ":") >> Standard.ls32

  pub three-none :
      (g : Grammar) (s : Text) (ms : List Text)
      → length ms ≡ 0
      → Meets (run x.is_class g s) (dotted ms address)
      → run x.is_class (three g) s ≡ none
  unfolding run strip
  three-none g s [] l (inl k) = rw k refl
  three-none g s [] l (inr k) = rw k (rw h16-address refl)
  three-none g s (a ∷ ms) l k = absurd (omega arith)

  pub three-some :
      (g : Grammar) (s : Text) (ms : List Text)
      → length ms ≡ 1
      → All IsGroup ms
      → run x.is_class g s ≡ some (dotted ms address)
      → run x.is_class (three g) s ≡ some (b']' ∷ e)
  unfolding run strip
  three-some g s (a ∷ []) l h k =
      rw k (rw (h16-group x a (b':' ∷ address) h.0 (inl refl)) ls32-address)
  three-some g s [] l h k = absurd (omega arith)
  three-some g s (a ∷ b ∷ ms) l h k = absurd (omega arith)

  -- Two groups and the first number are taken.
  pub three-misread :
      (g : Grammar) (s : Text) (ms : List Text)
      → length ms ≡ 2
      → All IsGroup ms
      → run x.is_class g s ≡ some (dotted ms address)
      → run x.is_class (three g) s ≡ some (b'.' ∷ rest)
  unfolding run strip
  three-misread g s (a ∷ b ∷ []) l h k =
      rw k
        (rw (h16-group x a (b':' ∷ (b ++ (b':' ∷ address))) h.0 (inl refl)) (ls32-before b h.1.0))
  three-misread g s [] l h k = absurd (omega arith)
  three-misread g s (a ∷ []) l h k = absurd (omega arith)
  three-misread g s (a ∷ b ∷ c ∷ ms) l h k = absurd (omega arith)
