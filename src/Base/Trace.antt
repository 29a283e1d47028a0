-- ===== src/Base/Trace.antt =====
-- Runs as lists of actions, the last one first, in which each action may follow the one before it.
use mathlib.Core.List.{List, [], ◌∷◌}

pub data Ordered {ℓ} {A : Type ℓ} (start : A) (Follows : A → A → Type ℓ) : List A → Type ℓ where
  first : Ordered start Follows (start ∷ [])
  then_ :
      {a b : A} {t : List A}
      → Follows a b
      → Ordered start Follows (a ∷ t)
      → Ordered start Follows (b ∷ a ∷ t)
