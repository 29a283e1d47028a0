-- ===== src/Pct/Decode/Errors.antt =====
-- include/foxy/error.hpp: the error category of foxy, and the overload of pct_decode that throws.
use foxy.Base.{
  ℕ, Bool, true, false, ◌&&◌, Option, none, some, ap, ◌≡◌, refl, Text, codes, ◌==◌, if◌then◌else◌,
  arith,
}
use foxy.X3.Library.{X3}
use foxy.Pct.Decode.{Error, unexpected_pct, pct_decode_impl, pct_decode, report}

-- Foxy's category, which there is once, and the others.
pub data Category : Type 0 where
  foxy_error_category : Category
  other_category : ℕ → Category

-- boost::system::error_code and error_condition; the int as the word that holds it.
pub record SystemCode : Type 0 where
  pub value : ℕ
  pub category : Category

unfoldable pub is_foxy : Category → Bool
is_foxy foxy_error_category = true
is_foxy (other_category n) = false

unfoldable pub value_of : Error → ℕ
value_of unexpected_pct = 1

unfoldable pub make_error_code : Error → SystemCode
unfolding value_of
make_error_code ev = record { value = value_of ev; category = foxy_error_category }

abbrev pub category_name : Text
category_name = codes "foxy"

unfoldable pub message : ℕ → Text
unfolding value_of
message ev =
    if ev == value_of unexpected_pct
    then codes "consecutive percent sign detected"
    else codes "foxy default error"

unfoldable pub default_error_condition : ℕ → SystemCode
default_error_condition ev = record { value = ev; category = foxy_error_category }

-- Both overloads of equivalent ask for the value and for this category.
unfoldable pub equivalent : ℕ → SystemCode → Bool
unfolding is_foxy
equivalent ev e = e.value == ev && is_foxy e.category

-- The overload of pct_decode without an error code: what has been written, and what is thrown.
unfoldable pub pct_decode_throws : X3 → Text → Text → Text × Option SystemCode
unfolding pct_decode_impl make_error_code
pct_decode_throws x str sink =
    let (out, full_match) = pct_decode_impl x str sink in
    (out, if full_match then none else some (make_error_code unexpected_pct))

-- What is thrown for what the other overload reports.
abbrev pub thrown : Option Error → Option SystemCode
thrown none = none
thrown (some e) = some (make_error_code e)

thrown_if :
    (b : Bool)
    → (if b then none else some (make_error_code unexpected_pct))
      ≡ thrown (if b then none else some unexpected_pct)
thrown_if true = refl
thrown_if false = refl

-- Both overloads of pct_decode write the same bytes, and the one throws exactly when the other
-- reports an error; what is thrown is equivalent, in foxy's category, to the value 1 and to no other.
pub pct_decode_throws-pct_decode :
    (x : X3) (str sink : Text) (ev : ℕ) (e : Error)
    → (pct_decode_throws x str sink ≡ ((pct_decode x str sink).0, thrown (pct_decode x str sink).1))
      × (equivalent ev (make_error_code e) ≡ (1 == ev))
      × (equivalent ev (default_error_condition ev) ≡ true)
unfolding pct_decode_throws pct_decode report equivalent default_error_condition make_error_code
    value_of is_foxy pct_decode_impl
pct_decode_throws-pct_decode x str sink ev unexpected_pct = (
  ap (λ o. ((pct_decode_impl x str sink).0, o)) (thrown_if (pct_decode_impl x str sink).1),
  ground arith,
  ground arith,
)
