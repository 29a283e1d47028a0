-- ===== src/Examples/IpParser.antt =====
-- examples/uri_combinators/ip_parser.cpp: a list of addresses on the command line.
pub mod Listed
use foxy.Base.{
  ℕ, zero, suc, Bool, true, false, Option, none, some, List, [], ◌∷◌, ◌++◌, ◌>>=◌, Text, codes,
  length,
}
use foxy.X3.Grammar.{Grammar, lit, ◌<|>◌}
use foxy.X3.Library.{X3}
use foxy.Uri.Raw.{raw}
use foxy.Uri.Standard

unfoldable pub address : Grammar
address = Standard.ip_v4_address <|> Standard.ip_v6_address

-- How main ends: reading the argument that is not there is undefined; `invalid` shows where the
-- parser stopped, `listed` the addresses.
pub data Ending : Type 0 where
  undefined : Ending
  invalid : Text → Ending
  listed : List Text → Ending

-- Whether the number of arguments was complained of, which does not end main.
pub record Run : Type 0 where
  pub complained : Bool
  pub ending : Ending

module _ (x : X3) where
  -- The rest of `raw[address] % ","`: a comma with no address behind it is left.
  unfoldable pub more_addrs : ℕ → List Text → Text → List Text × Text
  unfolding raw
  more_addrs zero ip_addrs s = (ip_addrs, s)
  more_addrs (suc rounds) ip_addrs s = elim (x.parse (lit (codes ",")) s >>= raw x address) [
    | none ↦ (ip_addrs, s)
    | some (ip_addr, rest) ↦ more_addrs rounds (ip_addrs ++ (ip_addr ∷ [])) rest
  ]

  -- x3::parse(begin, end, grammar, ip_addrs), and where begin is left.
  unfoldable pub parse_addrs : Text → Option (List Text × Text)
  unfolding more_addrs raw
  parse_addrs arg = do
    s ← x.parse (lit (codes "--addresses=")) arg
    (ip_addr, rest) ← raw x address s
    some (more_addrs (length rest) (ip_addr ∷ []) rest)

  -- A failed parse leaves begin where it was.
  unfoldable pub with_arg : Text → Ending
  unfolding parse_addrs
  with_arg arg = elim (parse_addrs arg) [
    | none ↦ invalid arg
    | some (ip_addrs, rest) ↦ listed ip_addrs
  ]

  -- The arguments behind the program's name.
  unfoldable pub main : List Text → Run
  unfolding with_arg
  main [] = record { complained = true; ending = undefined }
  main (arg ∷ []) = record { complained = false; ending = with_arg arg }
  main (arg ∷ other ∷ args) = record { complained = true; ending = with_arg arg }
