-- ===== src/ParseUri/Tails.antt =====
-- The parser on what is written behind the host of a URI.
use foxy.Base.{
  ℕ, ◌≡◌, refl, Bool, false, Option, none, some, [], ◌++◌, append-nil, Text, codes, arith, ◌==◌,
}
use foxy.X3.Grammar.{lit, is_alpha, is_digit, in_set}
use foxy.X3.Library.{X3}
use foxy.X3.Pieces.{concat}
use foxy.UriParts.{UriParts}
use foxy.Uri.Raw.{raw, parse_opt_raw}
use foxy.Uri.Standard
use foxy.Uri.Items.{Stops}
use foxy.Uri.Spelt.{run-port}
use foxy.Uri.Named.{segments, run-path_abempty}
use foxy.Uri.Characters.{is_pchar}
use foxy.ParseUri.{standard_rules, after_host}
use foxy.ParseUri.Safe.{standard-AreSafe}
use foxy.ParseUri.Written.{Written, digits, marked, port_text, tail_text, IsPort, IsUri}
use foxy.ParseUri.Printed.{
  raw-append, parse_opt_raw-some, parse_opt_raw-none, marked-Stops, segments-Stops, port-Stops,
}

abbrev pub end_text : Written → Text
end_text u = marked b'?' u.query ++ marked b'#' u.fragment

-- What follows the path stops every rule that refuses both marks; likewise further to the front.
module _ (test : ℕ → Bool) (u : Written) where
  end-Stops : test b'?' ≡ false → test b'#' ≡ false → Stops test (end_text u)
  end-Stops asks names =
      marked-Stops test (marked b'#' u.fragment)
        (rw append-nil at
          (marked-Stops test [] tt b'#' u.fragment (omega arith) (omega arith) names))
        b'?' u.query (omega arith) (omega arith) asks

  pub path-Stops :
      test b'?' ≡ false
      → test b'#' ≡ false
      → test b'/' ≡ false
      → Stops test (concat (segments u.path) ++ end_text u)
  path-Stops asks names slash = segments-Stops test (end_text u) (end-Stops asks names) u.path slash

  pub tail-Stops :
      test b'?' ≡ false
      → test b'#' ≡ false
      → test b'/' ≡ false
      → test b':' ≡ false
      → Stops test (tail_text u)
  tail-Stops asks names slash colon =
      port-Stops test (concat (segments u.path) ++ end_text u) (path-Stops asks names slash) u.port
        colon

module _ (x : X3) where
  parse_opt_raw-port :
      (port : Option Text) (rest : Text)
      → IsPort port
      → Stops is_digit rest
      → Stops (λ c. c == b':') rest
      → parse_opt_raw x (lit (codes ":")) Standard.port [] (port_text port ++ rest)
        ≡ (digits port, rest)
  parse_opt_raw-port none rest h stop apart = parse_opt_raw-none x b':' Standard.port [] rest apart
  parse_opt_raw-port (some t) rest h stop apart =
      parse_opt_raw-some x b':' Standard.port [] t rest standard-AreSafe.port
        (run-port x t rest h stop)

  pub after_host-tail :
      (p : UriParts) (u : Written)
      → IsUri u
      → p.port ≡ []
      → after_host x standard_rules p (tail_text u)
        ≡ some (record p { port = digits u.port; path = concat (segments u.path) }, end_text u)
  unfolding after_host is_digit is_alpha in_set
  after_host-tail p u h none_yet =
      let back : Text = concat (segments u.path) ++ end_text u in
      let q : parse_opt_raw x (lit (codes ":")) Standard.port p.port (tail_text u)
          ≡ (digits u.port, back) =
        rw none_yet (
          parse_opt_raw-port u.port back h.port (path-Stops is_digit u refl refl refl)
            (path-Stops (λ c. c == b':') u refl refl refl)) in
      let m : raw x Standard.path_abempty back ≡ some (concat (segments u.path), end_text u) =
        raw-append x Standard.path_abempty (concat (segments u.path)) (end_text u)
          standard-AreSafe.path_abempty
          (run-path_abempty x u.path (end_text u) h.path (end-Stops is_pchar u refl refl)
            (end-Stops (λ c. c == b'/') u refl refl)) in
      rw q (rw m refl)
