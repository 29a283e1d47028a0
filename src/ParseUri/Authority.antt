-- ===== src/ParseUri/Authority.antt =====
-- src/parse_uri.cpp on an authority with a port, the form in which a CONNECT request names its target.
use foxy.Base.{
  ap, ℕ, ◌<◌, ◌≡◌, refl, ◌∙◌, true, false, Option, none, some, List, [], ◌∷◌, ◌++◌, Text, codes,
  All, arith, inl, inr, ◌⊎◌, ◌==◌,
}
use foxy.X3.Grammar.{alpha, standard, ◌>>◌, lit, strip, one, ascii_class, is_alpha, is_digit}
use foxy.X3.Run.{run}
use foxy.X3.Library.{X3, parse-run}
use foxy.Pct.Decode.Meaning.{Item, spell}
use foxy.UriParts.{UriParts, no_parts}
use foxy.Uri.Raw.{raw, view, parse_raw}
use foxy.Uri.Standard
use foxy.Uri.Items.{Stops}
use foxy.ParseUri.{
  standard_rules, userinfo_at, at_end, hier_by, finish, complete_by, parse_by, parse_uri,
  parse_complete, parse_authority,
}
use foxy.ParseUri.Safe.{standard-AreSafe}
use foxy.ParseUri.Printed.{parse_opt_raw-none}
use foxy.ParseUri.Written.{
  Written, Host, name, literal, compressed, mapped, embedded, host_text, IsHost, user_text,
  port_text, tail_text, authority_text, parts, IsPort, IsUri,
}
use foxy.X3.Pieces.{concat}
use foxy.Uri.Named.{segments}
use foxy.ParseUri.Tails.{end_text}
use foxy.ParseUri.RoundTrip.{parse_authority-print}
use foxy.ParseUri.Colon.{IsApart, name-IsApart, scheme_raw}

module _ (x : X3) where
  -- What a digit begins is no hier-part, and no end of a URI either.
  hier_by-digit :
      (p : UriParts) (d : ℕ) (s : Text)
      → is_digit d ≡ true
      → (path : Text) × (hier_by x standard_rules p (d ∷ s)
          ≡ some (record p { path = path }, d ∷ s))
  unfolding hier_by parse_raw raw strip is_digit
  hier_by-digit p d s e =
      let no_slash : strip (codes "//") (d ∷ s) ≡ none = ground arith in
      let no_host : x.parse (lit (codes "//") >> userinfo_at x standard_rules) (d ∷ s) ≡ none =
        x.parse->> (lit (codes "//")) (userinfo_at x standard_rules) (d ∷ s)
        ∙ rw (x.parse-lit (codes "//") (d ∷ s) ∙ no_slash) in
      let no_authority : parse_raw x (lit (codes "//") >> userinfo_at x standard_rules)
            Standard.host (lit []) (d ∷ s)
          ≡ none =
        rw (no_host, parse_raw) in
      (
        view (d ∷ s) (d ∷ s),
        rw (no_authority, hier_by) (rw (standard-AreSafe.matches_nothing x (d ∷ s))),
      )

  digit-Stops :
      (d mark : ℕ) (s : Text)
      → is_digit d ≡ true
      → mark < b'0' ⊎ b'9' < mark
      → Stops (λ c. c == mark) (d ∷ s)
  unfolding is_digit
  digit-Stops d mark s e h = (ground arith, ground arith, ground arith)

  finish-digit :
      (p : UriParts) (d : ℕ) (s : Text)
      → is_digit d ≡ true
      → finish x standard_rules p (d ∷ s) ≡ none
  unfolding finish at_end
  finish-digit p d s e =
      let q =
        parse_opt_raw-none x b'?' Standard.query p.query (d ∷ s)
          (digit-Stops d b'?' s e (inr (omega arith))) in
      let f =
        parse_opt_raw-none x b'#' Standard.fragment p.fragment (d ∷ s)
          (digit-Stops d b'#' s e (inl (omega arith))) in
      rw q (rw f refl)

  complete_by-port :
      (p s : Text) (d : ℕ)
      → All IsApart p
      → is_digit d ≡ true
      → complete_by x standard_rules no_parts (p ++ (b':' ∷ (d ∷ s))) ≡ none
  unfolding complete_by
  complete_by-port p s d h e = elim (scheme_raw x p (d ∷ s) h) [
    | inl none_found ↦ rw (none_found, complete_by)
    | inr (attr, found) ↦
        let (path, next) = hier_by-digit (record no_parts { scheme = attr }) d s e in
        rw (found, complete_by)
          (rw next (finish-digit (record no_parts { scheme = attr; path = path }) d s e))
  ]

  -- A bracket begins no scheme.
  complete_by-bracket : (s : Text) → complete_by x standard_rules no_parts (b'[' ∷ s) ≡ none
  unfolding complete_by parse_raw raw strip Standard.scheme run one ascii_class is_alpha
  complete_by-bracket s =
      let no_letter : x.is_class standard alpha b'[' ≡ false =
        x.class_ascii standard alpha b'[' (omega arith) in
      let no_scheme : x.parse Standard.scheme (b'[' ∷ s) ≡ none =
        parse-run x Standard.scheme (b'[' ∷ s) standard-AreSafe.scheme ∙ rw no_letter in
      let nothing : parse_raw x (lit []) Standard.scheme (lit (codes ":")) (b'[' ∷ s) ≡ none =
        rw (x.parse-lit [] (b'[' ∷ s), parse_raw) (rw no_scheme) in
      rw (nothing, complete_by)

  complete_by-host :
      (host : Host) (d : ℕ) (s : Text)
      → IsHost host
      → is_digit d ≡ true
      → complete_by x standard_rules no_parts (host_text host ++ (b':' ∷ (d ∷ s))) ≡ none
  complete_by-host (name is) d s h e = complete_by-port (spell is) s d (name-IsApart is h.0) e
  complete_by-host (literal gs a b) d s h e = complete_by-bracket _
  complete_by-host (compressed ks ms) d s h e = complete_by-bracket _
  complete_by-host (mapped ks ms v) d s h e = complete_by-bracket _
  complete_by-host (embedded gs v) d s h e = complete_by-bracket _

  -- An authority of a host and a port, with no user information and at least one digit, and what
  -- follows it, is refused by parse_complete, and parse_authority and parse_uri hand out its parts.
  pub parse_uri-authority :
      (u : Written) (d : ℕ) (t : Text)
      → IsUri u
      → u.user ≡ none
      → u.port ≡ some (d ∷ t)
      → (parse_complete x (authority_text u) no_parts ≡ none)
        × (parse_authority x (authority_text u) no_parts ≡ some (record (parts u) { scheme = [] }))
        × (parse_uri x (authority_text u) ≡ record (parts u) { scheme = [] })
  unfolding parse_uri parse_by parse_complete parse_authority
  parse_uri-authority u d t h no_user port =
      let back : Text = concat (segments u.path) ++ end_text u in
      let at_port : authority_text u ≡ host_text u.host ++ (b':' ∷ (d ∷ (t ++ back))) =
        ap (λ (o : Option (List Item)). user_text o ++ (host_text u.host ++ tail_text u)) no_user
        ∙ ap (λ (o : Option Text). host_text u.host ++ (port_text o ++ back)) port in
      let is_port : IsPort (some (d ∷ t)) = rw port at h.port in
      let fails : parse_complete x (authority_text u) no_parts ≡ none =
        ap (λ s. complete_by x standard_rules no_parts s) at_port
        ∙ complete_by-host u.host d (t ++ back) h.host is_port.0.2 in
      let found = parse_authority-print x u h in (fails, found, rw (fails, parse_by) (rw found))
