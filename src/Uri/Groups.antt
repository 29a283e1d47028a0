-- ===== src/Uri/Groups.antt =====
-- include/foxy/uri.hpp: what the rules h16 and ls32 take of groups with colons between them.
use foxy.Base.{
  ℕ, zero, suc, ◌≤◌, ◌≡◌, refl, Option, none, some, List, [], ◌∷◌, ◌++◌, append_assoc, arith, ◌⊎◌,
  inl, inr, Text, codes, length, All, All-append, ◌>>=◌, Bool-cases,
}
use foxy.X3.Grammar.{Grammar, lit, ◌>>◌, strip, is_xdigit, is_digit}
use foxy.X3.Run.{rounds, run}
use foxy.X3.Ascii.{IsAscii}
use foxy.X3.Library.{X3}
use foxy.Uri.Standard
use foxy.Uri.Items.{Stops}
use foxy.Uri.Spelt.{NoDot, IsNamed}
use foxy.Uri.Named.{ip_v4-none}
use foxy.Uri.Literals.{IsHexDigit, IsGroup, group-IsAscii, hex-none, run-h16, run-group}

-- Groups, each with a colon in front, and what follows them.
abbrev pub more : List Text → Text → Text
more [] s = s
more (g ∷ gs) s = b':' ∷ (g ++ more gs s)

-- Groups with colons between them, and what follows them.
abbrev pub between_colons : List Text → Text → Text
between_colons [] s = s
between_colons (g ∷ gs) s = g ++ more gs s

-- A colon or a bracket comes first.
abbrev pub IsMark : Text → Type 0
IsMark [] = ⊥
IsMark (c ∷ s) = (c ≡ b':') ⊎ (c ≡ b']')

-- The end of the groups: a bracket, or two colons.
pub record IsEnd (s : Text) : Type 0 where
  pub ascii : All IsAscii s
  pub colons :
      (strip (codes ":") s ≡ none)
      ⊎ ((u : Text) × (strip (codes ":") s ≡ some u) × IsMark u × All IsAscii u)
  pub mark : IsMark s

abbrev pub colon_h16 : Grammar
colon_h16 = lit (codes ":") >> Standard.h16

abbrev pub h16_colon : Grammar
h16_colon = Standard.h16 >> lit (codes ":")

pub more-IsMark : (gs : List Text) (s : Text) → IsMark s → IsMark (more gs s)
more-IsMark [] s h = h
more-IsMark (g ∷ gs) s h = inl refl

pub more-IsAscii :
    (gs : List Text) (s : Text) → All IsGroup gs → All IsAscii s → All IsAscii (more gs s)
more-IsAscii [] s h a = a
more-IsAscii (g ∷ gs) s h a =
    (omega arith, All-append IsAscii g _ (group-IsAscii g h.0.digits) (more-IsAscii gs s h.1 a))

pub between_colons-IsAscii :
    (gs : List Text) (s : Text) → All IsGroup gs → All IsAscii s → All IsAscii (between_colons gs s)
between_colons-IsAscii [] s h a = a
between_colons-IsAscii (g ∷ gs) s h a =
    All-append IsAscii g _ (group-IsAscii g h.0.digits) (more-IsAscii gs s h.1 a)

pub more-append : (gs : List Text) (s r : Text) → more gs s ++ r ≡ more gs (s ++ r)
more-append [] s r = refl
more-append (g ∷ gs) s r = rw (append_assoc g (more gs s) r, more-append gs s r) refl

pub between_colons-append :
    (gs : List Text) (s r : Text) → between_colons gs s ++ r ≡ between_colons gs (s ++ r)
between_colons-append [] s r = refl
between_colons-append (g ∷ gs) s r = rw (append_assoc g (more gs s) r, more-append gs s r) refl

mark-Stops : (s : Text) → IsMark s → Stops is_xdigit s
unfolding is_xdigit is_digit
mark-Stops [] h = absurd h
mark-Stops (c ∷ s) h = (ground arith, ground arith, ground arith)

mark-NoDot : (s : Text) → IsMark s → NoDot s
unfolding is_digit
mark-NoDot [] h = absurd h
mark-NoDot (c ∷ s) h = (ground arith, inr (ground arith, ground arith))

mark-IsNamed : (s : Text) → IsMark s → IsNamed s
unfolding is_digit
mark-IsNamed [] h = absurd h
mark-IsNamed (c ∷ s) h = (ground arith, ground arith, inl (ground arith))

group-NoDot : (t s : Text) → All IsHexDigit t → IsMark s → NoDot (t ++ s)
unfolding is_xdigit is_digit
group-NoDot [] s h m = mark-NoDot s m
group-NoDot (c ∷ t) s h m = elim (Bool-cases (is_digit c)) [
  | inl e ↦ (h.0.0, inl (e, group-NoDot t s h.1 m))
  | inr e ↦ (h.0.0, inr (e, ground (arith, h.0.1)))
]

group-IsNamed : (t s : Text) → All IsHexDigit t → IsMark s → IsNamed (t ++ s)
unfolding is_xdigit is_digit
group-IsNamed [] s h m = mark-IsNamed s m
group-IsNamed (c ∷ t) s h m = elim (Bool-cases (is_digit c)) [
  | inl e ↦ (h.0.0, ground (arith, h.0.1), inr (e, group-NoDot t s h.1 m))
  | inr e ↦ (h.0.0, ground (arith, h.0.1), inl e)
]

module _ (x : X3) where
  pub h16-mark : (s : Text) → IsMark s → run x.is_class Standard.h16 s ≡ none
  unfolding Standard.h16 run rounds
  h16-mark s m = rw (hex-none x s (mark-Stops s m), rounds) refl

  pub h16-group :
      (g s : Text) → IsGroup g → IsMark s → run x.is_class Standard.h16 (g ++ s) ≡ some s
  h16-group g s h m = run-h16 x g s h (mark-Stops s m)

  pub h16_colon-mark : (s : Text) → IsMark s → run x.is_class h16_colon s ≡ none
  unfolding run
  h16_colon-mark s m = rw (h16-mark s m) refl

  ls32-mark : (s : Text) → IsMark s → All IsAscii s → run x.is_class Standard.ls32 s ≡ none
  unfolding Standard.ls32 run
  ls32-mark s m a = rw (h16-mark s m) (ip_v4-none x s (mark-IsNamed s m) a)

  ls32-group : (g s : Text) → IsGroup g → IsEnd s → run x.is_class Standard.ls32 (g ++ s) ≡ none
  unfolding Standard.ls32 run
  ls32-group g s h e =
      let address : run x.is_class Standard.ip_v4_address (g ++ s) ≡ none =
        ip_v4-none x (g ++ s) (group-IsNamed g s h.digits e.mark)
          (All-append IsAscii g s (group-IsAscii g h.digits) e.ascii) in
      elim e.colons [
        | inl c ↦ rw (h16-group g s h e.mark) (rw c address)
        | inr (u, c, m, a) ↦ rw (h16-group g s h e.mark) (rw c (rw (h16-mark u m) address))
      ]

  pub ls32-groups :
      (a b : Text) (gs : List Text) (s : Text)
      → IsGroup a
      → IsGroup b
      → IsMark s
      → run x.is_class Standard.ls32 (a ++ (b':' ∷ (b ++ more gs s))) ≡ some (more gs s)
  unfolding Standard.ls32 run
  ls32-groups a b gs s ha hb m =
      rw (run-group x a (b ++ more gs s) ha)
        (rw (h16-group b (more gs s) hb (more-IsMark gs s m)) refl)

  -- As many rounds as there are groups before the last two, and the last two.
  abbrev pub groups : ℕ → Text → Option Text
  groups n s = rounds n 0 (run x.is_class h16_colon) s >>= run x.is_class Standard.ls32

  groups-mark : (n : ℕ) (s : Text) → IsMark s → All IsAscii s → groups n s ≡ none
  unfolding rounds
  groups-mark zero s m a = ls32-mark s m a
  groups-mark (suc n) s m a = rw (h16_colon-mark s m, rounds) refl

  h16_colon-end :
      (g s : Text)
      → IsGroup g
      → IsEnd s
      → (run x.is_class h16_colon (g ++ s) ≡ none)
        ⊎ ((u : Text) × (run x.is_class h16_colon (g ++ s) ≡ some u) × IsMark u × All IsAscii u)
  unfolding run
  h16_colon-end g s h e = elim e.colons [
    | inl c ↦ inl (rw (h16-group g s h e.mark) c)
    | inr (u, c, m, a) ↦ inr (u, rw (h16-group g s h e.mark) c, m, a)
  ]

  pub groups-few :
      (n : ℕ) (gs : List Text) (s : Text)
      → length gs ≤ suc n
      → All IsGroup gs
      → IsEnd s
      → groups n (between_colons gs s) ≡ none
  unfolding rounds run
  groups-few n [] s l h e = groups-mark n s e.mark e.ascii
  groups-few zero (g ∷ []) s l h e = ls32-group g s h.0 e
  groups-few (suc n) (g ∷ []) s l h e = elim (h16_colon-end g s h.0 e) [
    | inl c ↦ rw (c, rounds) refl
    | inr (u, c, m, a) ↦ rw (c, rounds) (groups-mark n u m a)
  ]
  groups-few zero (g ∷ k ∷ gs) s l h e = absurd (omega arith)
  groups-few (suc n) (g ∷ k ∷ gs) s l h e =
      rw (run-group x g (k ++ more gs s) h.0, rounds) (groups-few n (k ∷ gs) s (omega arith) h.1 e)

  pub groups-all :
      (n : ℕ) (gs : List Text) (s : Text)
      → length gs ≡ suc (suc n)
      → All IsGroup gs
      → IsMark s
      → groups n (between_colons gs s) ≡ some s
  unfolding rounds run
  groups-all n [] s l h m = absurd (omega arith)
  groups-all n (g ∷ []) s l h m = absurd (omega arith)
  groups-all zero (g ∷ k ∷ []) s l h m = ls32-groups g k [] s h.0 h.1.0 m
  groups-all zero (g ∷ k ∷ j ∷ gs) s l h m = absurd (omega arith)
  groups-all (suc n) (g ∷ k ∷ gs) s l h m =
      rw (run-group x g (k ++ more gs s) h.0, rounds) (groups-all n (k ∷ gs) s (omega arith) h.1 m)
