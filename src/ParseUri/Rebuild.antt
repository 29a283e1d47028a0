-- ===== src/ParseUri/Rebuild.antt =====
-- The parts that a successful parse hands out, put together again, give the input.
use foxy.Base.{ap, ◌≡◌, sym, ◌∙◌, some, [], ◌∷◌, ◌++◌, Text, codes, ◌>>=◌, >>=-eq-some}
use foxy.X3.Grammar.{lit}
use foxy.X3.Library.{X3}
use foxy.Uri.Raw.{parse_raw}
use foxy.Uri.Parts.{Part, parse-lit-some, parse_raw-some}
use foxy.UriParts.{UriParts, no_parts}
use foxy.ParseUri.{Rules, finish, hier_by, complete_by}
use foxy.ParseUri.Safe.{AreSafe}
use foxy.ParseUri.Pieces.{finish-some, Hier, hier_by-some, complete_join}

module _ (x : X3) (r : Rules) (safe : AreSafe r) where
  Hier-same :
      (h q : UriParts) (hier : Text)
      → q.host ≡ h.host
      → q.port ≡ h.port
      → q.path ≡ h.path
      → Hier x r safe h hier
      → Hier x r safe q hier
  Hier-same h q hier a b c k = rw (a, b, c) k

  -- What the parts of a complete reference say of the text that was parsed.
  abbrev pub Rebuilds : Text → UriParts → Type 0
  Rebuilds uri q =
      (hier asked named : Text) × (uri ≡ q.scheme ++ (b':' ∷ (hier ++ (asked ++ named))))
      × Hier x r safe q hier
      × Part x b'?' [] q.query asked
      × Part x b'#' [] q.fragment named

  pub complete_by-Rebuilds :
      (uri : Text) (q : UriParts) → complete_by x r no_parts uri ≡ some q → Rebuilds uri q
  unfolding complete_by
  complete_by-Rebuilds uri q e =
      let (m, matched, e') =
        >>=-eq-some (parse_raw x (lit []) r.scheme (lit (codes ":")) uri)
          (λ m. hier_by x r (record no_parts { scheme = m.0 }) m.1 >>= λ (parts', iter).
            finish x r parts' iter)
          e in
      let (h, middle, e'') =
        >>=-eq-some (hier_by x r (record no_parts { scheme = m.0 }) m.1) (λ h. finish x r h.0 h.1)
          e' in
      let (s', s'', started, split, ended) =
        parse_raw-some x (lit []) r.scheme (lit (codes ":")) uri m safe.scheme matched in
      let (hier, split', is_hier, given) = hier_by-some x r safe m.0 m.1 h.1 h.0 middle in
      let (asked, named, split'', marked, marked', given') = finish-some x r safe h.0 h.1 q e'' in
      let scheme_is : m.0 ≡ q.scheme = sym (ap (λ u. u.scheme) given' ∙ ap (λ u. u.scheme) given) in
      (
        hier,
        asked,
        named,
        complete_join uri s' s'' m.1 h.1 m.0 q.scheme hier asked named
            (parse-lit-some x [] uri s' started) split (parse-lit-some x (codes ":") s'' m.1 ended)
            split' split'' scheme_is,
        Hier-same h.0 q hier (ap (λ u. u.host) given') (ap (λ u. u.port) given')
            (ap (λ u. u.path) given') is_hier,
        rw (ap (λ u. u.query) given) at marked,
        rw (ap (λ u. u.fragment) given) at marked',
      )
