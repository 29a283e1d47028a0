-- ===== src/ParseUri/RoundTrip.antt =====
-- src/parse_uri.cpp: parsing what is written for a URI gives its parts back.
use foxy.Base.{
  All, All-append, All-rest, ◌≡◌, refl, ◌∙◌, some, [], ◌∷◌, ◌++◌, Text, codes, arith, ◌==◌,
}
use foxy.X3.Grammar.{Grammar, lit, ◌>>◌, strip, is_alpha, is_digit, in_set}
use foxy.X3.Run.{run}
use foxy.X3.Library.{X3}
use foxy.X3.Pieces.{concat}
use foxy.UriParts.{UriParts, no_parts}
use foxy.Uri.Raw.{raw, parse_raw}
use foxy.Uri.Standard
use foxy.Uri.Spelt.{run-scheme}
use foxy.Uri.Literals.{run-literal}
use foxy.Uri.Compressed.{run-compressed, compressed_text}
use foxy.Uri.Mapped.{run-mapped, mapped_text, run-embedded}
use foxy.Uri.Named.{segments}
use foxy.Uri.Unaddressed.{run-host}
use foxy.Uri.Characters.{is_name_char}
use foxy.ParseUri.{
  standard_rules, userinfo_at, hier_by, complete_by, authority_by, parse_complete, parse_authority,
}
use foxy.ParseUri.Safe.{standard-AreSafe}
use foxy.ParseUri.Written.{
  Written, Host, name, literal, compressed, mapped, embedded, host_text, IsHost, digits, user_text,
  tail_text, authority_text, print, parts, IsScheme, IsUri,
}
use foxy.ParseUri.Tails.{end_text, tail-Stops, after_host-tail}
use foxy.ParseUri.Printed.{raw-append, finish-marked}
use foxy.X3.Ascii.{IsAscii}
use foxy.ParseUri.AsciiText.{host_text-IsAscii, tail_text-IsAscii}
use foxy.ParseUri.UserInfo.{userinfo_at-user}

module _ (x : X3) where
  run-host_text :
      (host : Host) (u : Written)
      → IsHost host
      → All IsAscii (host_text host ++ tail_text u)
      → run x.is_class Standard.host (host_text host ++ tail_text u) ≡ some (tail_text u)
  unfolding Standard.host run is_alpha is_digit in_set
  run-host_text (name is) u h a =
      run-host x is (tail_text u) h.1 a h.0 (tail-Stops is_name_char u refl refl refl refl)
        (tail-Stops is_digit u refl refl refl refl)
        (tail-Stops (λ c. c == b'.') u refl refl refl refl)
        (tail-Stops (λ c. c == b'[') u refl refl refl refl)
  run-host_text (literal gs a b) u h ascii =
      rw (run-literal x gs a b (tail_text u) h.0 h.1 h.2 h.3) refl
  run-host_text (compressed ks ms) u h ascii =
      rw
        (run-compressed x ks ms (tail_text u) h.0 h.1 h.2 h.3
          (All-rest IsAscii (compressed_text ks ms) (tail_text u) ascii))
        refl
  run-host_text (mapped ks ms v) u h ascii =
      let taken =
        run-mapped x ks ms v (tail_text u) h.0 h.1 h.2 h.3
          (All-rest IsAscii (mapped_text ks ms v) (tail_text u) ascii) in
      rw taken (rw (h.4) refl)
  run-host_text (embedded gs v) u h ascii = rw (run-embedded x gs v (tail_text u) h.0 h.1 h.2) refl

  host_raw :
      (before : Grammar) (u : Written) (s : Text)
      → IsUri u
      → x.parse before s ≡ some (host_text u.host ++ tail_text u)
      → parse_raw x before Standard.host (lit []) s ≡ some (host_text u.host, tail_text u)
  unfolding parse_raw strip
  host_raw before u s h e =
      let taken : raw x Standard.host (host_text u.host ++ tail_text u)
          ≡ some (host_text u.host, tail_text u) =
        raw-append x Standard.host (host_text u.host) (tail_text u) standard-AreSafe.host (
          run-host_text u.host u h.host (
            All-append IsAscii (host_text u.host) (tail_text u) (host_text-IsAscii u.host h.host)
              (tail_text-IsAscii u h))) in
      rw (e, parse_raw) (rw taken (rw (x.parse-lit [] (tail_text u))))

  hier_by-written :
      (p : UriParts) (u : Written)
      → IsUri u
      → p.port ≡ []
      → hier_by x standard_rules p
          (codes "//" ++ (user_text u.user ++ (host_text u.host ++ tail_text u)))
        ≡ some (
          record p {
            host = host_text u.host;
            port = digits u.port;
            path = concat (segments u.path);
          },
          end_text u,
        )
  unfolding hier_by strip
  hier_by-written p u h none_yet =
      let rest : Text = user_text u.user ++ (host_text u.host ++ tail_text u) in
      let before : x.parse (lit (codes "//") >> userinfo_at x standard_rules) (codes "//" ++ rest)
          ≡ some (host_text u.host ++ tail_text u) =
        x.parse->> (lit (codes "//")) (userinfo_at x standard_rules) (codes "//" ++ rest)
        ∙ rw (x.parse-lit (codes "//") (codes "//" ++ rest))
            (userinfo_at-user x u.user u h.user h) in
      rw
        (
          host_raw (lit (codes "//") >> userinfo_at x standard_rules) u (codes "//" ++ rest) h
              before,
          hier_by,
        )
        (after_host-tail x (record p { host = host_text u.host }) u h none_yet)

  scheme_raw :
      (scheme rest : Text)
      → IsScheme scheme
      → parse_raw x (lit []) Standard.scheme (lit (codes ":")) (scheme ++ (b':' ∷ rest))
        ≡ some (scheme, rest)
  unfolding parse_raw is_alpha is_digit in_set strip
  scheme_raw [] rest h = elim h [ ]
  scheme_raw (c ∷ t) rest h =
      let taken : raw x Standard.scheme (c ∷ (t ++ (b':' ∷ rest))) ≡ some (c ∷ t, b':' ∷ rest) =
        raw-append x Standard.scheme (c ∷ t) (b':' ∷ rest) standard-AreSafe.scheme
          (run-scheme x c t (b':' ∷ rest) h.0 h.1 h.2 (omega arith, omega arith, refl)) in
      rw (x.parse-lit [] (c ∷ (t ++ (b':' ∷ rest))), parse_raw)
        (rw taken (rw (x.parse-lit (codes ":") (b':' ∷ rest))))

  -- What is written for a URI with an authority is parsed, and its parts are given back.
  pub parse_complete-print :
      (u : Written) → IsUri u → parse_complete x (print u) no_parts ≡ some (parts u)
  unfolding parse_complete complete_by
  parse_complete-print u h =
      rw
        (
          scheme_raw u.scheme
              (codes "//" ++ (user_text u.user ++ (host_text u.host ++ tail_text u))) h.scheme,
          complete_by,
        )
        (rw (hier_by-written (record no_parts { scheme = u.scheme }) u h refl) (
          finish-marked x
            (record no_parts {
              scheme = u.scheme;
              host = host_text u.host;
              port = digits u.port;
              path = concat (segments u.path);
            })
            u.query u.fragment refl refl h.query h.fragment))

  -- The same for what follows the scheme and "//", which is an authority with what it leads to.
  pub parse_authority-print :
      (u : Written)
      → IsUri u
      → parse_authority x (authority_text u) no_parts ≡ some (record (parts u) { scheme = [] })
  unfolding parse_authority authority_by
  parse_authority-print u h =
      rw
        (
          host_raw (userinfo_at x standard_rules) u (authority_text u) h
              (userinfo_at-user x u.user u h.user h),
          authority_by,
        )
        (rw (after_host-tail x (record no_parts { host = host_text u.host }) u h refl) (
          finish-marked x
            (record no_parts {
              host = host_text u.host;
              port = digits u.port;
              path = concat (segments u.path);
            })
            u.query u.fragment refl refl h.query h.fragment))
