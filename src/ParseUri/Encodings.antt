-- ===== src/ParseUri/Encodings.antt =====
-- The overloads of parse_uri for char and for char32_t on the same ASCII text.
use foxy.Base.{
  ap, ◌≡◌, refl, sym, ◌∙◌, some, [], ◌++◌, Text, codes, Option-cases, inl, inr, ◌>>=◌, All,
  All-rest,
}
use foxy.X3.Grammar.{Grammar, lit, opt, ◌>>◌}
use foxy.X3.Library.{X3}
use foxy.X3.Progress.{is_safe}
use foxy.X3.Ascii.{IsAscii, plainly}
use foxy.Uri.Raw.{raw, parse_raw, parse_opt_raw}
use foxy.ParseUri.Safe.{AreSafe, standard-AreSafe, unicode-AreSafe}
use foxy.ParseUri.Pieces.{after_host-some, hier_by-some}
use foxy.Uri.Standard
use foxy.Uri.Unicode
use foxy.UriParts.{UriParts, no_parts}
use foxy.ParseUri.{
  Rules, standard_rules, unicode_rules, userinfo_at, at_end, after_host, finish, hier_by,
  complete_by, authority_by, parse_by, parse_uri, parse_uri_u32, parse_complete, parse_complete_u32,
  parse_authority, parse_authority_u32,
}
use foxy.Uri.Alike.{
  Alike, >>=-agree, raw-agree, parse_raw-agree, parse_raw-IsAscii, parse_opt_raw-agree,
  parse_opt_raw-IsAscii,
}

-- Rules that differ in the encoding only.
pub record AreAlike (r r' : Rules) : Type 0 where
  pub scheme : Alike r.scheme r'.scheme
  pub userinfo : Alike r.userinfo r'.userinfo
  pub host : Alike r.host r'.host
  pub port : Alike r.port r'.port
  pub path_abempty : Alike r.path_abempty r'.path_abempty
  pub path_empty : Alike r.path_empty r'.path_empty
  pub query : Alike r.query r'.query
  pub fragment : Alike r.fragment r'.fragment

opt_marked :
    (g h : Grammar) → Alike g h → Alike (opt (g >> lit (codes "@"))) (opt (h >> lit (codes "@")))
unfolding is_safe plainly
opt_marked g h k = record {
  safe = rw k.safe;
  safe' = rw k.safe';
  plain = ap (λ p. opt (p >> plainly (lit (codes "@")))) k.plain;
}

after_slashes : (g h : Grammar) → Alike g h → Alike (lit (codes "//") >> g) (lit (codes "//") >> h)
unfolding is_safe plainly
after_slashes g h k = record {
  safe = k.safe;
  safe' = k.safe';
  plain = ap (λ p. plainly (lit (codes "//")) >> p) k.plain;
}

lit-Alike : (t : Text) → Alike (lit t) (lit t)
unfolding is_safe
lit-Alike t = record { safe = refl; safe' = refl; plain = refl }

module _ (x : X3) (r r' : Rules) (alike : AreAlike r r') (safe : AreSafe r) where
  after_host-agree :
      (parts : UriParts) (s : Text)
      → All IsAscii s
      → after_host x r parts s ≡ after_host x r' parts s
  unfolding after_host is_safe
  after_host-agree parts s a =
      let p = parse_opt_raw x (lit (codes ":")) r.port parts.port s in
      ap (λ o. o >>= λ m. some (record parts { port = p.0; path = m.0 }, m.1))
        (raw-agree x r.path_abempty r'.path_abempty p.1 alike.path_abempty
          (parse_opt_raw-IsAscii x (lit (codes ":")) r.port parts.port s refl alike.port.safe a))
      ∙ ap
          (λ (p : Text × Text).
            raw x r'.path_abempty p.1 >>= λ m. some (record parts { port = p.0; path = m.0 }, m.1))
          (parse_opt_raw-agree x (lit (codes ":")) r.port r'.port parts.port s refl alike.port a)

  finish-agree :
      (parts : UriParts) (s : Text) → All IsAscii s → finish x r parts s ≡ finish x r' parts s
  unfolding finish is_safe
  finish-agree parts s a =
      let q = parse_opt_raw x (lit (codes "?")) r.query parts.query s in
      ap (λ (f : Text × Text). at_end (record parts { query = q.0; fragment = f.0 }) f.1)
        (parse_opt_raw-agree x (lit (codes "#")) r.fragment r'.fragment parts.fragment q.1 refl
          alike.fragment
          (parse_opt_raw-IsAscii x (lit (codes "?")) r.query parts.query s refl alike.query.safe a))
      ∙ ap
          (λ (q : Text × Text).
            let f = parse_opt_raw x (lit (codes "#")) r'.fragment parts.fragment q.1 in
            at_end (record parts { query = q.0; fragment = f.0 }) f.1)
          (parse_opt_raw-agree x (lit (codes "?")) r.query r'.query parts.query s refl alike.query
            a)

  host_agree :
      (s : Text)
      → All IsAscii s
      → parse_raw x (lit (codes "//") >> userinfo_at x r) r.host (lit []) s
        ≡ parse_raw x (lit (codes "//") >> userinfo_at x r') r'.host (lit []) s
  host_agree s a =
      parse_raw-agree x (lit (codes "//") >> userinfo_at x r) (lit (codes "//") >> userinfo_at x r')
        r.host r'.host (lit []) s
        (after_slashes (userinfo_at x r) (userinfo_at x r')
          (opt_marked r.userinfo r'.userinfo alike.userinfo))
        alike.host a

  hier_by-agree :
      (parts : UriParts) (s : Text) → All IsAscii s → hier_by x r parts s ≡ hier_by x r' parts s
  unfolding hier_by is_safe
  hier_by-agree parts s a =
      elim (Option-cases (parse_raw x (lit (codes "//") >> userinfo_at x r) r.host (lit []) s)) [
        | inl e ↦
            rw (e, hier_by)
              (rw (sym (host_agree s a) ∙ e, hier_by)
                (ap (λ o. o >>= λ m. some (record parts { path = m.0 }, m.1))
                  (raw-agree x r.path_empty r'.path_empty s alike.path_empty a)))
        | inr (m, e) ↦
            rw (e, hier_by)
              (rw (sym (host_agree s a) ∙ e, hier_by)
                (after_host-agree (record parts { host = m.0 }) m.1
                  (parse_raw-IsAscii x (lit (codes "//") >> userinfo_at x r) r.host (lit []) s m
                    (rw safe.userinfo) safe.host refl a e)))
      ]

  complete_by-agree :
      (uri : Text) → All IsAscii uri → complete_by x r no_parts uri ≡ complete_by x r' no_parts uri
  unfolding complete_by is_safe
  complete_by-agree uri a =
      >>=-agree (parse_raw x (lit []) r.scheme (lit (codes ":")) uri)
        (parse_raw x (lit []) r'.scheme (lit (codes ":")) uri) _ _
        (parse_raw-agree x (lit []) (lit []) r.scheme r'.scheme (lit (codes ":")) uri (lit-Alike [])
          alike.scheme a)
        (λ m e.
          let b =
            parse_raw-IsAscii x (lit []) r.scheme (lit (codes ":")) uri m refl safe.scheme refl a
              e in
          >>=-agree (hier_by x r (record no_parts { scheme = m.0 }) m.1)
            (hier_by x r' (record no_parts { scheme = m.0 }) m.1) _ _
            (hier_by-agree (record no_parts { scheme = m.0 }) m.1 b)
            (λ h f.
              let (hier, split, is_hier, given) = hier_by-some x r safe m.0 m.1 h.1 h.0 f in
              finish-agree h.0 h.1 (All-rest IsAscii hier h.1 (rw split at b))))

  authority_by-agree :
      (uri : Text)
      → All IsAscii uri
      → authority_by x r no_parts uri ≡ authority_by x r' no_parts uri
  unfolding authority_by is_safe
  authority_by-agree uri a =
      >>=-agree (parse_raw x (userinfo_at x r) r.host (lit []) uri)
        (parse_raw x (userinfo_at x r') r'.host (lit []) uri) _ _
        (parse_raw-agree x (userinfo_at x r) (userinfo_at x r') r.host r'.host (lit []) uri
          (opt_marked r.userinfo r'.userinfo alike.userinfo) alike.host a)
        (λ m e.
          let b =
            parse_raw-IsAscii x (userinfo_at x r) r.host (lit []) uri m (rw safe.userinfo) safe.host
              refl a e in
          >>=-agree (after_host x r (record no_parts { host = m.0 }) m.1)
            (after_host x r' (record no_parts { host = m.0 }) m.1) _ _
            (after_host-agree (record no_parts { host = m.0 }) m.1 b)
            (λ h f.
              let (part, split, marked, given) =
                after_host-some x r safe (record no_parts { host = m.0 }) m.1 h.1 h.0 f in
              finish-agree h.0 h.1 (
                All-rest IsAscii h.0.path h.1
                  (All-rest IsAscii part (h.0.path ++ h.1) (rw split at b)))))

standard-AreAlike : AreAlike standard_rules unicode_rules
unfolding plainly Standard.scheme Standard.userinfo Standard.host Standard.port
    Standard.path_abempty Standard.path_empty Standard.query Standard.fragment Unicode.scheme
    Unicode.userinfo Unicode.host Unicode.port Unicode.path_abempty Unicode.path_empty Unicode.query
    Unicode.fragment
standard-AreAlike = record {
  scheme = record { safe = standard-AreSafe.scheme; safe' = unicode-AreSafe.scheme; plain = refl };
  userinfo = record {
    safe = standard-AreSafe.userinfo;
    safe' = unicode-AreSafe.userinfo;
    plain = refl;
  };
  host = record { safe = standard-AreSafe.host; safe' = unicode-AreSafe.host; plain = refl };
  port = record { safe = standard-AreSafe.port; safe' = unicode-AreSafe.port; plain = refl };
  path_abempty = record {
    safe = standard-AreSafe.path_abempty;
    safe' = unicode-AreSafe.path_abempty;
    plain = refl;
  };
  path_empty = record {
    safe = standard-AreSafe.path_empty;
    safe' = unicode-AreSafe.path_empty;
    plain = refl;
  };
  query = record { safe = standard-AreSafe.query; safe' = unicode-AreSafe.query; plain = refl };
  fragment = record {
    safe = standard-AreSafe.fragment;
    safe' = unicode-AreSafe.fragment;
    plain = refl;
  };
}

-- On an ASCII text the overloads for char and for char32_t of parse_uri, parse_complete and
-- parse_authority hand out the same parts.
pub parse_uri-agree :
    (x : X3) (uri : Text)
    → All IsAscii uri
    → (parse_complete x uri no_parts ≡ parse_complete_u32 x uri no_parts)
      × (parse_authority x uri no_parts ≡ parse_authority_u32 x uri no_parts)
      × (parse_uri x uri ≡ parse_uri_u32 x uri)
unfolding parse_complete parse_complete_u32 parse_authority parse_authority_u32 parse_uri
    parse_uri_u32
parse_uri-agree x uri a =
    let c =
      complete_by-agree x standard_rules unicode_rules standard-AreAlike standard-AreSafe uri a in
    let d =
      authority_by-agree x standard_rules unicode_rules standard-AreAlike standard-AreSafe uri a in
    (c, d, rw (c, parse_by) (rw d))
