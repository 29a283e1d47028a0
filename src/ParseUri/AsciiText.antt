-- ===== src/ParseUri/AsciiText.antt =====
-- What is written for a URI is an ASCII text.
use foxy.Base.{
  ℕ, Bool, true, Option, none, some, List, [], ◌∷◌, ◌++◌, Text, codes, All, All-append, arith,
}
use foxy.X3.Ascii.{IsAscii}
use foxy.X3.Pieces.{concat}
use foxy.Pct.Decode.Meaning.{Item, plain, pair, spell}
use foxy.Uri.Items.{Fits}
use foxy.Uri.Spelt.{IsPlain}
use foxy.Uri.Literals.{IsGroup, group-IsAscii, with_colons}
use foxy.Uri.Groups.{between_colons-IsAscii}
use foxy.Uri.Dotted.{dotted}
use foxy.Uri.Mapped.{dotted-IsAscii, address-IsAscii}
use foxy.Uri.Named.{segments, IsAddress}
use foxy.ParseUri.Written.{
  Written, Host, name, literal, compressed, mapped, embedded, host_text, IsHost, marked, port_text,
  user_text, tail_text, print, IsScheme, AllFit, IsPort, IsUri,
}

module _ (test : ℕ → Bool) where
  spell-IsAscii : (is : List Item) → All (Fits test true) is → All IsAscii (spell is)
  spell-IsAscii [] h = tt
  spell-IsAscii (plain c ∷ is) h = (h.0.0, spell-IsAscii is h.1)
  spell-IsAscii (pair a b ∷ is) h = (omega arith, (h.0.0, (h.0.1, spell-IsAscii is h.1)))

  plain-IsAscii : (t : Text) → All (IsPlain test) t → All IsAscii t
  plain-IsAscii [] h = tt
  plain-IsAscii (c ∷ t) h = (h.0.0, plain-IsAscii t h.1)

  user_text-IsAscii : (o : Option (List Item)) → AllFit test o → All IsAscii (user_text o)
  user_text-IsAscii none h = tt
  user_text-IsAscii (some is) h =
      All-append IsAscii (spell is) (codes "@") (spell-IsAscii is h) (omega arith)

  marked-IsAscii :
      (mark : ℕ) (o : Option (List Item))
      → IsAscii mark
      → AllFit test o
      → All IsAscii (marked mark o)
  marked-IsAscii mark none a h = tt
  marked-IsAscii mark (some is) a h = (a, spell-IsAscii is h)

  segments-IsAscii :
      (path : List (List Item))
      → All (All (Fits test true)) path
      → All IsAscii (concat (segments path))
  segments-IsAscii [] h = tt
  segments-IsAscii (is ∷ path) h =
      All-append IsAscii (b'/' ∷ spell is) (concat (segments path))
        (omega arith, spell-IsAscii is h.0) (segments-IsAscii path h.1)

scheme-IsAscii : (t : Text) → IsScheme t → All IsAscii t
scheme-IsAscii [] h = tt
scheme-IsAscii (c ∷ t) h = (h.0, plain-IsAscii _ t h.2)

with_colons-IsAscii : (gs : List Text) → All IsGroup gs → All IsAscii (with_colons gs)
with_colons-IsAscii [] h = tt
with_colons-IsAscii (g ∷ gs) h =
    All-append IsAscii g (b':' ∷ with_colons gs) (group-IsAscii g h.0.digits)
      (omega arith, with_colons-IsAscii gs h.1)

closed_address :
    (gs : List Text) (v : Text)
    → All IsGroup gs
    → IsAddress v
    → All IsAscii (dotted gs (v ++ codes "]"))
closed_address gs v h k =
    dotted-IsAscii gs _ h (All-append IsAscii v (codes "]") (address-IsAscii v k) (omega arith))

pub host_text-IsAscii : (host : Host) → IsHost host → All IsAscii (host_text host)
host_text-IsAscii (name is) h = spell-IsAscii _ is h.0
host_text-IsAscii (literal gs a b) h = (
  omega arith,
  All-append IsAscii (with_colons gs) _ (with_colons-IsAscii gs h.1) (
      All-append IsAscii a _ (group-IsAscii a h.2.digits)
        (omega arith, All-append IsAscii b (codes "]") (group-IsAscii b h.3.digits) (omega arith))),
)
host_text-IsAscii (compressed ks ms) h = (
  omega arith,
  between_colons-IsAscii ks _ h.0
      (omega arith, (omega arith, between_colons-IsAscii ms (codes "]") h.1 (omega arith))),
)
host_text-IsAscii (mapped ks ms v) h = (
  omega arith,
  between_colons-IsAscii ks _ h.0 (omega arith, (omega arith, closed_address ms v h.1 h.2)),
)
host_text-IsAscii (embedded gs v) h = (omega arith, closed_address gs v h.0 h.2)

port_text-IsAscii : (o : Option Text) → IsPort o → All IsAscii (port_text o)
port_text-IsAscii none h = tt
port_text-IsAscii (some t) h = (omega arith, plain-IsAscii _ t h)

pub tail_text-IsAscii : (u : Written) → IsUri u → All IsAscii (tail_text u)
tail_text-IsAscii u h = All-append IsAscii (port_text u.port) _ (port_text-IsAscii u.port h.port) (
    All-append IsAscii (concat (segments u.path)) _ (segments-IsAscii _ u.path h.path) (
      All-append IsAscii (marked b'?' u.query) (marked b'#' u.fragment)
        (marked-IsAscii _ b'?' u.query (omega arith) h.query)
        (marked-IsAscii _ b'#' u.fragment (omega arith) h.fragment)))

pub print-IsAscii : (u : Written) → IsUri u → All IsAscii (print u)
print-IsAscii u h = All-append IsAscii u.scheme _ (scheme-IsAscii u.scheme h.scheme) (
    All-append IsAscii (codes "://") _ (omega arith) (
      All-append IsAscii (user_text u.user) _ (user_text-IsAscii _ u.user h.user) (
        All-append IsAscii (host_text u.host) (tail_text u) (host_text-IsAscii u.host h.host)
          (tail_text-IsAscii u h))))
