-- ===== src/Fields/Reference.antt =====
-- One concrete Boost.Beast, for runs of the code that uses it.
use mathlib.Core.List.Perm
use foxy.Base.{==_iff, ◌≡◌, refl, true, [], ◌∷◌, Text}
use foxy.UriParts.{equal}
use foxy.Fields.{Beast}

-- Names compared as they are, one token to a value, insertion in front.
pub equal_refl : (t : Text) → equal t t ≡ true
unfolding equal
equal_refl [] = refl
equal_refl (c ∷ t) = rw (equal_refl t, (==_iff c c).1 refl)

abbrev pub beast_reference : Beast
beast_reference = record {
  same_name = equal;
  token_list = λ t. t ∷ [];
  insert = λ f fs. f ∷ fs;
  insert-perm = λ f fs. Perm.refl (f ∷ fs);
  same_name_refl = equal_refl;
}
