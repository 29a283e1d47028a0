-- ===== src/Examples/Search/Target.antt =====
-- The target of the search request, as the parser and the decoder of foxy read it.
use foxy.Base.{
  ap, ℕ, ◌≡◌, ◌≢◌, refl, sym, ◌∙◌, none, some, inl, List, [], ◌∷◌, ◌++◌, append-nil, map, Text,
  codes, All, arith,
}
use foxy.X3.Grammar.{is_alpha, is_digit, in_set}
use foxy.X3.Library.{X3}
use foxy.Utf8.{Utf, Karma, utf8_encode_range}
use foxy.Utf8.CodePoint.{IsScalar, code_points-utf8_encode}
use foxy.Pct.Encode.{query_special, encode_query}
use foxy.Pct.Decode.{pct_decode}
use foxy.Pct.Decode.Meaning.{Item, plain}
use foxy.Pct.RoundTrip.{
  IsText, IsText-IsCodePoint, text_items, encode_loop-spell, pct_decode-encode,
}
use foxy.UriParts.{UriParts, no_parts}
use foxy.Uri.Unaddressed.{named-NoAddress}
use foxy.ParseUri.{parse_complete}
use foxy.ParseUri.Written.{Written, name, print, parts, IsUri}
use foxy.ParseUri.RoundTrip.{parse_complete-print}
use foxy.ParseUri.Carried.{encode_query-spell, text_items-Fits}
use foxy.Examples.Search.{google, search_target}

-- A scalar value that is no percent sign.
abbrev pub IsLetter : ℕ → Type 0
IsLetter c = IsScalar c × (c ≢ b'%')

abbrev site : List Item → Written
site query = record {
  scheme = codes "https";
  user = none;
  host = name (map plain google);
  port = none;
  path = map plain (codes "webhp") ∷ [];
  query = some query;
  fragment = none;
}

module _ (t : Utf) (k : Karma) (x : X3) where
  IsLetter-IsScalar : (s : Text) → All IsLetter s → All IsScalar s
  IsLetter-IsScalar [] h = tt
  IsLetter-IsScalar (c ∷ s) h = (h.0.0, IsLetter-IsScalar s h.1)

  IsLetter-IsText : (s : Text) → All IsLetter s → All (IsText t k x) s
  IsLetter-IsText [] h = tt
  IsLetter-IsText (c ∷ s) h = ((h.0.0.0, h.0.1), IsLetter-IsText s h.1)

  search_target-encode :
      (s : Text)
      → All IsLetter s
      → search_target t k (utf8_encode_range t s []) ≡ codes "/webhp?" ++ encode_query t k s []
  unfolding search_target encode_query
  search_target-encode s h =
      let points = IsText-IsCodePoint t k x s (IsLetter-IsText s h) in
      ap (λ p. encode_query t k p (codes "/webhp?"))
        (code_points-utf8_encode t s (IsLetter-IsScalar s h))
      ∙ encode_loop-spell t k query_special s (codes "/webhp?") points
      ∙ ap (λ q. codes "/webhp?" ++ q) (sym (encode_loop-spell t k query_special s [] points))

  site-print :
      (s : Text)
      → All IsLetter s
      → print (site (text_items t k query_special s))
        ≡ codes "https://www.google.com/webhp?" ++ encode_query t k s []
  site-print s h = rw (encode_query-spell t k x s (IsLetter-IsText s h)) (rw append-nil refl)

  site-IsUri : (s : Text) → All IsLetter s → IsUri (site (text_items t k query_special s))
  unfolding is_alpha is_digit in_set
  site-IsUri s h = record {
    scheme = ground arith;
    user = tt;
    host = (ground arith, inl (named-NoAddress google (omega arith, omega arith, inl refl)));
    port = tt;
    path = ground arith;
    query = text_items-Fits t k x s (IsLetter-IsText s h);
    fragment = tt;
  }

  -- A body in UTF-8 with no percent sign is what the search asks for: behind the name of the site the
  -- target parses, to the path "/webhp", no fragment and a query that decodes to the body.
  pub search_target-decode :
      (s : Text)
      → All IsLetter s
      → (p : UriParts) × (parse_complete x
            (codes "https://www.google.com" ++ search_target t k (utf8_encode_range t s []))
            no_parts
          ≡ some p)
        × (p.host ≡ google)
        × (p.path ≡ codes "/webhp")
        × (p.fragment ≡ [])
        × (pct_decode x p.query [] ≡ (utf8_encode_range t s [], none))
  search_target-decode s h =
      let items = text_items t k query_special s in
      let text = IsLetter-IsText s h in
      let whole = parse_complete-print x (site items) (site-IsUri s h) in
      let same =
        site-print s h
        ∙ ap (λ q. codes "https://www.google.com" ++ q) (sym (search_target-encode s h)) in
      (
        parts (site items),
        rw same at whole,
        refl,
        refl,
        refl,
        rw (← encode_query-spell t k x s text) (pct_decode-encode t k x s text).1,
      )
