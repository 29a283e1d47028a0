-- ===== src/X3/Pieces.antt =====
-- What a kleene star takes of a text that is made of pieces.
use foxy.Base.{
  ℕ, zero, suc, ◌+◌, ◌≤◌, ◌<◌, ◌≡◌, refl, ◌∙◌, ap, true, Option, none, some, List, [], ◌∷◌, ◌++◌,
  append_assoc, arith, ltb, Text, length, length-append, All,
}
use foxy.X3.Grammar.{Grammar, star}
use foxy.X3.Run.{Classes, many, run}

abbrev pub concat : List Text → Text
concat [] = []
concat (t ∷ ts) = t ++ concat ts

module _ (f : Text → Option Text) (Follow : Text → Type 0) where
  -- A piece that `f` takes off where what follows is fit to follow, as what it starts is.
  pub record IsPiece (t : Text) : Type 0 where
    pub solid : 1 ≤ length t
    pub taken : (rest : Text) → Follow rest → f (t ++ rest) ≡ some rest
    pub may_follow : (rest : Text) → Follow (t ++ rest)

  follows :
      (pieces : List Text) (rest : Text)
      → All IsPiece pieces
      → Follow rest
      → Follow (concat pieces ++ rest)
  follows [] rest h k = k
  follows (t ∷ ts) rest h k =
      rw (append_assoc t (concat ts) rest) (h.0.may_follow (concat ts ++ rest))

  many-step :
      (n : ℕ) (s r : Text) → f s ≡ some r → length r < length s → many (suc n) f s ≡ many n f r
  unfolding many
  many-step n s r e less =
      let l : ltb (length r) (length s) ≡ true = ground (arith, less) in rw (e, many) (rw l refl)

  many-stop : (n : ℕ) (s : Text) → f s ≡ none → many n f s ≡ s
  unfolding many
  many-stop zero s e = refl
  many-stop (suc n) s e = rw (e, many) refl

  pub many-concat :
      (pieces : List Text) (n : ℕ) (rest : Text)
      → All IsPiece pieces
      → Follow rest
      → f rest ≡ none
      → length (concat pieces ++ rest) ≤ n
      → many n f (concat pieces ++ rest) ≡ rest
  many-concat [] n rest h k stop l = many-stop n rest stop
  many-concat (t ∷ ts) zero rest h k stop l =
      absurd
        (omega (arith, h.0.solid, length-append (t ++ concat ts) rest, length-append t (concat ts)))
  many-concat (t ∷ ts) (suc n) rest h k stop l =
      let back = concat ts ++ rest in
      let same : (t ++ concat ts) ++ rest ≡ t ++ back = append_assoc t (concat ts) rest in
      let long : length (t ++ back) ≡ length t + length back = length-append t back in
      let l' : length (t ++ back) ≤ suc n = rw same at l in
      let taken = h.0.taken back (follows ts rest h.1 k) in
      rw same (
        many-step n (t ++ back) back taken (omega (arith, long, h.0.solid))
        ∙ many-concat ts n rest h.1 k stop (omega (arith, long, l', h.0.solid)))

-- The star takes all pieces and stops behind the last one.
pub star-concat :
    (is : Classes) (p : Grammar) (Follow : Text → Type 0) (pieces : List Text) (rest : Text)
    → All (IsPiece (run is p) Follow) pieces
    → Follow rest
    → run is p rest ≡ none
    → run is (star p) (concat pieces ++ rest) ≡ some rest
unfolding run
star-concat is p Follow pieces rest h k stop = ap some (
    many-concat (run is p) Follow pieces (length (concat pieces ++ rest)) rest h k stop
      (omega arith))
