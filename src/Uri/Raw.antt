-- ===== src/Uri/Raw.antt =====
-- include/foxy/uri.hpp: the directive foxy::uri::raw, which hands out the matched part of the input.
use foxy.Base.{◌-◌, Option, none, some, ◌>>=◌, Text, length, take}
use foxy.X3.Grammar.{Grammar}
use foxy.X3.Library.{X3}

-- The view {saved, first - saved}: what lies between two positions of one input.
unfoldable pub view : Text → Text → Text
view saved first = take (length saved - length first) saved

-- raw_directive::parse: the attribute, and where the input goes on. No skipper is ever in use.
unfoldable pub raw : X3 → Grammar → Text → Option (Text × Text)
unfolding view
raw x g s = do first ← x.parse g s; some (view s first, first)

-- x3::parse(iter, end, before >> raw[g] >> after, attr).
unfoldable pub parse_raw : X3 → Grammar → Grammar → Grammar → Text → Option (Text × Text)
unfolding raw
parse_raw x before g after s = do
  s' ← x.parse before s
  (attr, s'') ← raw x g s'
  rest ← x.parse after s''
  some (attr, rest)

-- x3::parse(iter, end, -(before >> raw[g]), attr): a failure leaves the attribute as it was.
unfoldable pub parse_opt_raw : X3 → Grammar → Grammar → Text → Text → Text × Text
unfolding raw
parse_opt_raw x before g attr s = elim (x.parse before s >>= raw x g) [
  | none ↦ (attr, s)
  | some r ↦ r
]
