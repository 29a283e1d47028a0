-- ===== src/Fields.antt =====
-- include/foxy/detail/export_connect_fields.hpp and has_token.hpp: the header fields that a proxy
-- keeps to itself, over what they use of Boost.Beast.
pub mod ForHop
pub mod Exported
pub mod Via
pub mod Reference
use mathlib.Core.List.{Perm}
use foxy.Base.{
  ℕ, Bool, true, false, not, ◌||◌, ◌≡◌, Option, none, some, List, [], ◌∷◌, ◌++◌, if◌then◌else◌,
  Text, codes,
}
use foxy.X3.Grammar.{Grammar, lit, any_char, star, no_case, ◌>>◌, ◌but_not◌}
use foxy.X3.Library.{X3}
use foxy.UriParts.{equal}

pub record Field : Type 0 where
  pub name : Text
  pub value : Text

abbrev pub Fields : Type 0
Fields = List Field

-- Boost.Beast: the comparison of field names, which ignores case, the tokens of a list value, and
-- insertion behind the fields of the same name.
pub record Beast : Type 0 where
  pub same_name : Text → Text → Bool
  pub token_list : Text → List Text
  pub insert : Field → Fields → Fields
  pub insert-perm : (f : Field) (fs : Fields) → Perm (insert f fs) (f ∷ fs)
  pub same_name_refl : (n : Text) → same_name n n ≡ true

abbrev pub connection : Text
connection = codes "Connection"

-- hop_by_hops: the names that the eleven enumerators stand for.
abbrev pub hop_by_hops : List Text
hop_by_hops =
    connection
    ∷ codes "Keep-Alive"
    ∷ codes "Proxy-Authenticate"
    ∷ codes "Proxy-Authentication-Info"
    ∷ codes "Proxy-Authorization"
    ∷ codes "Proxy-Connection"
    ∷ codes "Proxy-Features"
    ∷ codes "Proxy-Instruction"
    ∷ codes "TE"
    ∷ codes "Trailer"
    ∷ codes "Transfer-Encoding"
    ∷ []

module _ (b : Beast) where
  -- range::find over the enumerators.
  unfoldable pub names_field : List Text → Text → Bool
  names_field [] name = false
  names_field (n ∷ ns) name = b.same_name name n || names_field ns name

  -- The tokens of every Connection field. Sorting them and dropping repeats does not change which
  -- tokens there are, and the tokens are only searched.
  unfoldable pub connect_opts : Fields → List Text
  connect_opts [] = []
  connect_opts (f ∷ fs) =
      let rest = connect_opts fs in
      if b.same_name f.name connection then b.token_list f.value ++ rest else rest

  -- The loop over the options compares the strings as they are.
  unfoldable pub names_option : List Text → Text → Bool
  unfolding equal
  names_option [] name = false
  names_option (o ∷ opts) name = equal name o || names_option opts name

  unfoldable pub is_connect_opt : List Text → Field → Bool
  unfolding names_field names_option
  is_connect_opt opts f = names_field hop_by_hops f.name || names_option opts f.name

  -- The loop that moves fields from `src` to `dst`: what is left of both.
  unfoldable pub move_fields : List Text → Fields → Fields → Fields × Fields
  unfolding is_connect_opt
  move_fields opts [] dst = ([], dst)
  move_fields opts (f ∷ src) dst = elim (is_connect_opt opts f) [
    | true ↦ move_fields opts src (b.insert f dst)
    | false ↦ (f ∷ (move_fields opts src dst).0, (move_fields opts src dst).1)
  ]

  unfoldable pub export_connect_fields : Fields → Fields → Fields × Fields
  unfolding connect_opts move_fields
  export_connect_fields src dst = move_fields (connect_opts src) src dst

-- no_case[*(char_ - "1.1 foxy") >> lit("1.1 foxy") >> *char_].
unfoldable pub foxy_via : Grammar
unfolding no_case
foxy_via =
    no_case
      (star (any_char but_not lit (codes "1.1 foxy")) >> lit (codes "1.1 foxy") >> star any_char)

unfoldable pub has_foxy_via : Beast → X3 → Fields → Bool
unfolding foxy_via
has_foxy_via b x [] = false
has_foxy_via b x (f ∷ fs) =
    let rest = has_foxy_via b x fs in
    if b.same_name f.name (codes "Via")
    then elim (x.parse foxy_via f.value) [ some r ↦ true | none ↦ rest ]
    else rest
