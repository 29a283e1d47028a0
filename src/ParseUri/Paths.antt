-- ===== src/ParseUri/Paths.antt =====
-- The path of parsed parts is empty or begins with a slash.
use foxy.Base.{
  ◌≡◌, refl, sym, ◌∙◌, ap, true, some, [], ◌∷◌, ◌++◌, Text, codes, length, length-append,
  Option-cases, Bool-cases, ◌⊎◌, inl, inr, ◌>>=◌, >>=-eq-some, arith, ◌==◌,
}
use foxy.X3.Grammar.{Grammar, lit, char_set, star, ◌>>◌, one, in_set}
use foxy.X3.Run.{Classes, run, many}
use foxy.X3.Progress.{is_safe}
use foxy.X3.Library.{X3, parse-run}
use foxy.Uri.Raw.{view, raw, parse_raw, parse_opt_raw}
use foxy.Uri.Parts.{raw-some}
use foxy.Uri.Standard
use foxy.ParseUri.Safe.{standard-AreSafe}
use foxy.ParseUri.Pieces.{path_empty-some}
use foxy.UriParts.{UriParts, no_parts}
use foxy.ParseUri.{
  standard_rules, userinfo_at, at_end, after_host, finish, hier_by, complete_by, authority_by,
  parse_by, parse_uri,
}

abbrev pub IsRooted : Text → Type 0
IsRooted t = (t ≡ []) ⊎ ((rest : Text) × (t ≡ b'/' ∷ rest))

-- A loop over pieces that begin with a slash goes on only where the input has one.
slashes-run :
    (is : Classes) (g : Grammar) (s r : Text)
    → run is (star (char_set (codes "/") >> g)) s ≡ some r
    → IsRooted s ⊎ (r ≡ s)
unfolding run many one in_set
slashes-run is g [] r e = inl (inl refl)
slashes-run is g (c ∷ s) r e = elim (Bool-cases (c == b'/')) [
  | inl slash ↦ inl (inr (s, ground arith))
  | inr plain ↦ inr (ground arith)
]

prefix-IsRooted : (p r s : Text) → s ≡ p ++ r → IsRooted s → IsRooted p
prefix-IsRooted [] r s e h = inl refl
prefix-IsRooted (c ∷ p) r s e h = ground arith

cut-nil : (p r : Text) → r ≡ p ++ r → p ≡ []
cut-nil [] r e = refl
cut-nil (c ∷ p) r e = absurd (omega (arith, ap length e, length-append (c ∷ p) r))

path_abempty-is_safe : is_safe Standard.path_abempty ≡ true
unfolding is_safe Standard.path_abempty
path_abempty-is_safe = refl

path_abempty-run :
    (x : X3) (s : Text)
    → x.parse Standard.path_abempty s
      ≡ run x.is_class (star (char_set (codes "/") >> Standard.segment)) s
unfolding Standard.path_abempty
path_abempty-run x s = parse-run x Standard.path_abempty s path_abempty-is_safe

raw-IsRooted :
    (x : X3) (s : Text) (m : Text × Text) → raw x Standard.path_abempty s ≡ some m → IsRooted m.0
unfolding raw
raw-IsRooted x s m e =
    let (r, parsed, given) =
      >>=-eq-some (x.parse Standard.path_abempty s) (λ first. some (view s first, first)) e in
    let split = raw-some x Standard.path_abempty s m path_abempty-is_safe e in
    let same : m.1 ≡ r = ground (arith, given) in
    let matched = sym (path_abempty-run x s) ∙ parsed in
    elim (slashes-run x.is_class Standard.segment s r matched) [
      | inl rooted ↦ prefix-IsRooted m.0 m.1 s split rooted
      | inr all ↦ inl (cut-nil m.0 m.1 (same ∙ all ∙ split))
    ]

after_host-IsRooted :
    (x : X3) (parts : UriParts) (s : Text) (m : UriParts × Text)
    → after_host x standard_rules parts s ≡ some m
    → IsRooted m.0.path
unfolding after_host
after_host-IsRooted x parts s m e =
    let p = parse_opt_raw x (lit (codes ":")) Standard.port parts.port s in
    let (n, matched, given) =
      >>=-eq-some (raw x Standard.path_abempty p.1)
        (λ n. some (record parts { port = p.0; path = n.0 }, n.1)) e in
    let rooted = raw-IsRooted x p.1 n matched in
    let same : n.0 ≡ m.0.path = ground (arith, given) in rw same at rooted

at_end-path : (p : UriParts) (s : Text) {q : UriParts} → at_end p s ≡ some q → q.path ≡ p.path
unfolding at_end
at_end-path p [] e = ground arith
at_end-path p (c ∷ s) e = cc

finish-path :
    (x : X3) (parts : UriParts) (s : Text) (q : UriParts)
    → finish x standard_rules parts s ≡ some q
    → q.path ≡ parts.path
unfolding finish
finish-path x parts s q e = at_end-path _ _ e

authority-IsRooted :
    (x : X3) (uri : Text) (q : UriParts)
    → authority_by x standard_rules no_parts uri ≡ some q
    → IsRooted q.path
unfolding authority_by
authority-IsRooted x uri q e =
    let (m, matched, e') =
      >>=-eq-some (parse_raw x (userinfo_at x standard_rules) Standard.host (lit []) uri)
        (λ m. after_host x standard_rules (record no_parts { host = m.0 }) m.1 >>= λ h.
          finish x standard_rules h.0 h.1)
        e in
    let (h, middle, e'') =
      >>=-eq-some (after_host x standard_rules (record no_parts { host = m.0 }) m.1)
        (λ h. finish x standard_rules h.0 h.1) e' in
    let rooted = after_host-IsRooted x (record no_parts { host = m.0 }) m.1 h middle in
    rw (finish-path x h.0 h.1 q e'') rooted

hier-IsRooted :
    (x : X3) (scheme s : Text) (h : UriParts × Text)
    → hier_by x standard_rules (record no_parts { scheme = scheme }) s ≡ some h
    → IsRooted h.0.path
unfolding hier_by
hier-IsRooted x scheme s h e =
    elim (Option-cases
      (parse_raw x (lit (codes "//") >> userinfo_at x standard_rules) Standard.host (lit []) s)) [
        | inl f ↦
            let (m, matched, given) =
              >>=-eq-some (raw x Standard.path_empty s)
                (λ m. some (record no_parts { scheme = scheme; path = m.0 }, m.1))
                (rw (f, hier_by) at e) in
            let nothing = path_empty-some x standard_rules standard-AreSafe s m matched in
            inl (ground (arith, nothing, given))
        | inr (m, f) ↦
            after_host-IsRooted x (record no_parts { scheme = scheme; host = m.0 }) m.1 h
              (rw (f, hier_by) at e)
      ]

complete-IsRooted :
    (x : X3) (uri : Text) (q : UriParts)
    → complete_by x standard_rules no_parts uri ≡ some q
    → IsRooted q.path
unfolding complete_by
complete-IsRooted x uri q e =
    let (m, matched, e') =
      >>=-eq-some (parse_raw x (lit []) Standard.scheme (lit (codes ":")) uri)
        (λ m. hier_by x standard_rules (record no_parts { scheme = m.0 }) m.1 >>= λ h.
          finish x standard_rules h.0 h.1)
        e in
    let (h, middle, e'') =
      >>=-eq-some (hier_by x standard_rules (record no_parts { scheme = m.0 }) m.1)
        (λ h. finish x standard_rules h.0 h.1) e' in
    rw (finish-path x h.0 h.1 q e'') (hier-IsRooted x m.0 m.1 h middle)

-- Whatever the text, the path that parse_uri hands out is empty or begins with a slash.
pub parse_uri-IsRooted : (x : X3) (uri : Text) → IsRooted (parse_uri x uri).path
unfolding parse_uri
parse_uri-IsRooted x uri = elim (Option-cases (complete_by x standard_rules no_parts uri)) [
  | inr (q, e) ↦ rw (e, parse_by) (complete-IsRooted x uri q e)
  | inl e ↦ elim (Option-cases (authority_by x standard_rules no_parts uri)) [
    | inr (q, f) ↦ rw (e, parse_by) (rw f (authority-IsRooted x uri q f))
    | inl f ↦ rw (e, parse_by) (rw f (inl refl))
  ]
]
