-- ===== src/ParseUri/Pieces.antt =====
-- What each step of a successful parse takes off the input.
use foxy.Base.{
  ap, ◌≡◌, refl, sym, ◌∙◌, Option, some, [], ◌∷◌, ◌++◌, append_assoc, append-nil, Text, codes,
  Option-cases, ◌⊎◌, inl, inr, ◌>>=◌, >>=-eq-some, arith,
}
use foxy.X3.Grammar.{lit, ◌>>◌}
use foxy.X3.Library.{X3}
use foxy.X3.Consumed.{take-append}
use foxy.Uri.Raw.{view, raw, parse_raw, parse_opt_raw}
use foxy.Uri.Parts.{Part, parse-some, parse-lit-some, raw-some, parse_raw-some, parse_opt_raw-Part}
use foxy.UriParts.{UriParts, no_parts}
use foxy.ParseUri.{Rules, userinfo_at, at_end, after_host, finish, hier_by}
use foxy.ParseUri.Safe.{AreSafe}

at_end-some : (p : UriParts) (s : Text) {q : UriParts} → at_end p s ≡ some q → (s ≡ []) × (q ≡ p)
unfolding at_end
at_end-some p [] e = (refl, ground arith)
at_end-some p (c ∷ s) e = cc

hier_join :
    (s s' s'' t before host port path rest : Text)
    → s ≡ codes "//" ++ (before ++ s')
    → s' ≡ host ++ s''
    → s'' ≡ t
    → t ≡ port ++ (path ++ rest)
    → s ≡ (codes "//" ++ (before ++ (host ++ (port ++ path)))) ++ rest
hier_join s s' s'' t before host port path rest front split same back =
    rw (front, split, same, back) (simp append_assoc)

pub complete_join :
    (uri s' s'' t u scheme scheme' hier asked named : Text)
    → uri ≡ s'
    → s' ≡ scheme ++ s''
    → s'' ≡ b':' ∷ t
    → t ≡ hier ++ u
    → u ≡ asked ++ named
    → scheme ≡ scheme'
    → uri ≡ scheme' ++ (b':' ∷ (hier ++ (asked ++ named)))
complete_join uri s' s'' t u scheme scheme' hier asked named a b c d e f = rw (a, b, c, d, e, f)

module _ (x : X3) (r : Rules) (safe : AreSafe r) where
  after_host-parts :
      (parts q : UriParts) (p m : Text × Text) (part s rest : Text)
      → s ≡ part ++ p.1
      → p.1 ≡ m.0 ++ m.1
      → Part x b':' parts.port p.0 part
      → ◌≡◌ {A = Option (UriParts × Text)}
          (some (record parts { port = p.0; path = m.0 }, m.1))
          (some (q, rest))
      → (s ≡ part ++ (q.path ++ rest))
        × Part x b':' parts.port q.port part
        × (q ≡ record parts { port = q.port; path = q.path })
  after_host-parts parts q p m part s rest split left marked given = ground arith

  finish-parts :
      (parts q : UriParts) (m f : Text × Text) (asked named s : Text)
      → s ≡ asked ++ m.1
      → m.1 ≡ named ++ f.1
      → f.1 ≡ []
      → Part x b'?' parts.query m.0 asked
      → Part x b'#' parts.fragment f.0 named
      → q ≡ record parts { query = m.0; fragment = f.0 }
      → (s ≡ asked ++ named)
        × Part x b'?' parts.query q.query asked
        × Part x b'#' parts.fragment q.fragment named
        × (q ≡ record parts { query = q.query; fragment = q.fragment })
  finish-parts parts q m f asked named s split split' ended marked marked' given =
      ground (arith, append-nil named)

  pub after_host-some :
      (parts : UriParts) (s rest : Text) (q : UriParts)
      → after_host x r parts s ≡ some (q, rest)
      → (part : Text) × (s ≡ part ++ (q.path ++ rest))
        × Part x b':' parts.port q.port part
        × (q ≡ record parts { port = q.port; path = q.path })
  unfolding after_host
  after_host-some parts s rest q e =
      let p = parse_opt_raw x (lit (codes ":")) r.port parts.port s in
      let (m, matched, given) =
        >>=-eq-some (raw x r.path_abempty p.1)
          (λ m. some (record parts { port = p.0; path = m.0 }, m.1)) e in
      let (part, split, marked) = parse_opt_raw-Part x b':' r.port parts.port s safe.port in
      let left = raw-some x r.path_abempty p.1 m safe.path_abempty matched in
      let d = after_host-parts parts q p m part s rest split left marked given in
      (part, d.0, d.1, d.2)

  pub finish-some :
      (parts : UriParts) (s : Text) (q : UriParts)
      → finish x r parts s ≡ some q
      → (asked : Text) × (named : Text) × (s ≡ asked ++ named)
        × Part x b'?' parts.query q.query asked
        × Part x b'#' parts.fragment q.fragment named
        × (q ≡ record parts { query = q.query; fragment = q.fragment })
  unfolding finish
  finish-some parts s q e =
      let m = parse_opt_raw x (lit (codes "?")) r.query parts.query s in
      let f = parse_opt_raw x (lit (codes "#")) r.fragment parts.fragment m.1 in
      let (asked, split, marked) = parse_opt_raw-Part x b'?' r.query parts.query s safe.query in
      let (named, split', marked') =
        parse_opt_raw-Part x b'#' r.fragment parts.fragment m.1 safe.fragment in
      let (ended, given) = at_end-some (record parts { query = m.0; fragment = f.0 }) f.1 e in
      let d = finish-parts parts q m f asked named s split split' ended marked marked' given in
      (asked, named, d.0, d.1, d.2, d.3)

  -- What stands between "//" and the host.
  abbrev pub UserInfo : Text → Type 0
  UserInfo before = (before ≡ []) ⊎ ((user : Text) × (before ≡ user ++ codes "@"))

  userinfo_at-some :
      (s rest : Text)
      → x.parse (userinfo_at x r) s ≡ some rest
      → (before : Text) × (s ≡ before ++ rest) × UserInfo before
  userinfo_at-some s rest e =
      let body = r.userinfo >> lit (codes "@") in
      elim (Option-cases (x.parse body s)) [
        | inl f ↦ ([], ground (arith, x.parse-opt body s, f, e), inl refl)
        | inr (s', f) ↦
            let (t, named, marked) =
              >>=-eq-some (x.parse r.userinfo s) (x.parse (lit (codes "@")))
                (sym (x.parse->> r.userinfo (lit (codes "@")) s) ∙ f) in
            let (user, split) = parse-some x r.userinfo s t safe.userinfo named in
            let rest_is : s' ≡ rest = ground (arith, x.parse-opt body s, f, e) in
            (
              user ++ codes "@",
              split
                  ∙ ap (◌++◌ user)
                      (parse-lit-some x (codes "@") t s' marked ∙ ap (◌∷◌ b'@') rest_is)
                  ∙ sym (append_assoc user (codes "@") rest),
              inr (user, refl),
            )
      ]

  pub path_empty-some : (s : Text) (m : Text × Text) → raw x r.path_empty s ≡ some m → m ≡ ([], s)
  unfolding raw view
  path_empty-some s m e = ground (arith, rw (safe.matches_nothing x s) at e, take-append [] s)

  -- The hier-part that the parts stand for: "//", user information, host, port and path; or nothing.
  abbrev pub Hier : UriParts → Text → Type 0
  Hier q hier =
      ((before port : Text) × (hier ≡ codes "//" ++ (before ++ (q.host ++ (port ++ q.path))))
        × UserInfo before
        × Part x b':' [] q.port port)
      ⊎ ((hier ≡ []) × (q.host ≡ []) × (q.port ≡ []) × (q.path ≡ []))

  -- The statement about the middle of the input, for both ways through it.
  abbrev pub HierGives : Text → Text → UriParts → Text → Type 0
  HierGives scheme s q rest =
      (hier : Text) × (s ≡ hier ++ rest)
      × Hier q hier
      × (q ≡ record no_parts { scheme = scheme; host = q.host; port = q.port; path = q.path })

  hier_empty :
      (scheme s rest : Text) (q : UriParts)
      → ◌>>=◌ {B = UriParts × Text}
          (raw x r.path_empty s)
          (λ (path, iter). some (record no_parts { scheme = scheme; path = path }, iter))
        ≡ some (q, rest)
      → HierGives scheme s q rest
  hier_empty scheme s rest q e =
      let (m, matched, given) =
        >>=-eq-some (raw x r.path_empty s)
          (λ m. some (record no_parts { scheme = scheme; path = m.0 }, m.1)) e in
      let nothing = path_empty-some s m matched in
      ([], ground arith, inr (refl, ground arith, ground arith, ground arith), ground arith)

  hier_before :
      (s s' : Text)
      → x.parse (lit (codes "//") >> userinfo_at x r) s ≡ some s'
      → (before : Text) × (s ≡ codes "//" ++ (before ++ s')) × UserInfo before
  hier_before s s' e =
      let (t, slashes, started) =
        >>=-eq-some (x.parse (lit (codes "//")) s) (x.parse (userinfo_at x r))
          (sym (x.parse->> (lit (codes "//")) (userinfo_at x r) s) ∙ e) in
      let (before, split, user) = userinfo_at-some t s' started in
      (before, parse-lit-some x (codes "//") s t slashes ∙ ap (◌++◌ (codes "//")) split, user)

  hier_host :
      (scheme s rest : Text) (m : Text × Text) (q : UriParts)
      → parse_raw x (lit (codes "//") >> userinfo_at x r) r.host (lit []) s ≡ some m
      → after_host x r (record no_parts { scheme = scheme; host = m.0 }) m.1 ≡ some (q, rest)
      → HierGives scheme s q rest
  hier_host scheme s rest m q f e =
      let (s', s'', started, split, ended) =
        parse_raw-some x (lit (codes "//") >> userinfo_at x r) r.host (lit []) s m safe.host f in
      let (before, front, user) = hier_before s s' started in
      let (port, back, marked, given) =
        after_host-some (record no_parts { scheme = scheme; host = m.0 }) m.1 rest q e in
      let same = parse-lit-some x [] s'' m.1 ended in
      let host_is : m.0 ≡ q.host = ap (λ u. u.host) (sym given) in
      (
        codes "//" ++ (before ++ (q.host ++ (port ++ q.path))),
        hier_join s s' s'' m.1 before q.host port q.path rest front
            (split ∙ ap (λ h. h ++ s'') host_is) same back,
        inl (before, port, refl, user, marked),
        ground (arith, given),
      )

  pub hier_by-some :
      (scheme s rest : Text) (q : UriParts)
      → hier_by x r (record no_parts { scheme = scheme }) s ≡ some (q, rest)
      → HierGives scheme s q rest
  unfolding hier_by
  hier_by-some scheme s rest q e =
      elim (Option-cases (parse_raw x (lit (codes "//") >> userinfo_at x r) r.host (lit []) s)) [
        | inl f ↦ hier_empty scheme s rest q (rw (f, hier_by) at e)
        | inr (m, f) ↦ hier_host scheme s rest m q f (rw (f, hier_by) at e)
      ]
