-- ===== src/ParseUri/UserInfo.antt =====
-- The parser on user information, and where there is none.
use foxy.Base.{
  ap, ℕ, ◌≡◌, refl, sym, ◌∙◌, true, Option, none, some, List, [], ◌∷◌, ◌++◌, append_assoc, Text,
  codes, All, All-append, map, arith, ◌==◌, ◌or_else◌,
}
use foxy.X3.Grammar.{lit, ◌>>◌, strip, is_alpha, is_digit, in_set}
use foxy.X3.Library.{X3, parse-run}
use foxy.X3.Pieces.{concat}
use foxy.Pct.Decode.Meaning.{Item, plain, pair, spell_item, spell}
use foxy.Uri.Standard
use foxy.Uri.Items.{Fits, Stops}
use foxy.Uri.Spelt.{IsPlain, run-userinfo, spell-plain}
use foxy.Uri.Literals.{literal_text}
use foxy.Uri.Compressed.{compressed_text}
use foxy.Uri.Mapped.{mapped_text, embedded_text}
use foxy.Uri.Named.{segments}
use foxy.Uri.Characters.{is_name_char, is_user_char}
use foxy.ParseUri.{standard_rules, userinfo_at}
use foxy.ParseUri.Safe.{standard-AreSafe}
use foxy.ParseUri.Written.{
  Written, Host, name, literal, compressed, mapped, embedded, host_text, IsHost, port_text,
  user_text, tail_text, AllFit, IsPort, IsUri,
}
use foxy.ParseUri.Tails.{end_text, path-Stops}

spell-append : (is js : List Item) → spell (is ++ js) ≡ spell is ++ spell js
spell-append [] js = refl
spell-append (i ∷ is) js =
    ap (◌++◌ (spell_item i)) (spell-append is js)
    ∙ sym (append_assoc (spell_item i) (spell is) (spell js))

-- What user information takes of a port, its colon included.
abbrev port_items : Option Text → List Item
port_items none = []
port_items (some t) = plain b':' ∷ map plain t

spell-port_items : (port : Option Text) → spell (port_items port) ≡ port_text port
spell-port_items none = refl
spell-port_items (some t) = ap (◌∷◌ b':') (spell-plain t)

name-Fits : (is : List Item) → All (Fits is_name_char true) is → All (Fits is_user_char true) is
name-Fits [] h = tt
name-Fits (plain c ∷ is) h = ((h.0.0, h.0.1, rw h.0.2), name-Fits is h.1)
name-Fits (pair a b ∷ is) h = (h.0, name-Fits is h.1)

digit-Fits : (t : Text) → All (IsPlain is_digit) t → All (Fits is_user_char true) (map plain t)
digit-Fits [] h = tt
digit-Fits (c ∷ t) h = ((h.0.0, h.0.1, ground (arith, h.0.2)), digit-Fits t h.1)

port-Fits : (port : Option Text) → IsPort port → All (Fits is_user_char true) (port_items port)
unfolding is_alpha is_digit in_set
port-Fits none h = tt
port-Fits (some t) h = ((omega arith, omega arith, refl), digit-Fits t h)

module _ (x : X3) where
  userinfo_at-run :
      (s : Text)
      → x.parse (userinfo_at x standard_rules) s
        ≡ (x.parse (Standard.userinfo >> lit (codes "@")) s or_else some s)
  userinfo_at-run s = x.parse-opt (Standard.userinfo >> lit (codes "@")) s

  userinfo-rest :
      (is : List Item) (rest : Text)
      → All (Fits is_user_char true) is
      → Stops is_user_char rest
      → x.parse (Standard.userinfo >> lit (codes "@")) (spell is ++ rest) ≡ strip (codes "@") rest
  userinfo-rest is rest h stop =
      x.parse->> Standard.userinfo (lit (codes "@")) (spell is ++ rest)
      ∙ rw
          (parse-run x Standard.userinfo (spell is ++ rest) standard-AreSafe.userinfo
            ∙ run-userinfo x is rest h stop)
          (x.parse-lit (codes "@") rest)

  strip-other : (c : ℕ) (s : Text) → Stops (λ d. d == c) s → strip (c ∷ []) s ≡ none
  unfolding strip
  strip-other c [] h = refl
  strip-other c (d ∷ s) h = rw h.2

  no_user :
      (host : Host) (u : Written)
      → IsHost host
      → IsPort u.port
      → x.parse (userinfo_at x standard_rules) (host_text host ++ tail_text u)
        ≡ some (host_text host ++ tail_text u)
  unfolding is_alpha is_digit in_set strip
  no_user (literal gs a b) u h k =
      let rest : Text = literal_text gs a b ++ tail_text u in
      userinfo_at-run rest ∙ rw (userinfo-rest [] rest tt (omega arith, omega arith, refl))
  no_user (compressed ks ms) u h k =
      let rest : Text = compressed_text ks ms ++ tail_text u in
      userinfo_at-run rest ∙ rw (userinfo-rest [] rest tt (omega arith, omega arith, refl))
  no_user (mapped ks ms v) u h k =
      let rest : Text = mapped_text ks ms v ++ tail_text u in
      userinfo_at-run rest ∙ rw (userinfo-rest [] rest tt (omega arith, omega arith, refl))
  no_user (embedded gs v) u h k =
      let rest : Text = embedded_text gs v ++ tail_text u in
      userinfo_at-run rest ∙ rw (userinfo-rest [] rest tt (omega arith, omega arith, refl))
  no_user (name host) u h k =
      let back : Text = concat (segments u.path) ++ end_text u in
      let is : List Item = host ++ port_items u.port in
      let same : spell is ++ back ≡ spell host ++ tail_text u =
        ap (λ t. t ++ back)
          (spell-append host (port_items u.port) ∙ ap (◌++◌ (spell host)) (spell-port_items u.port))
        ∙ append_assoc (spell host) (port_text u.port) back in
      let fits : All (Fits is_user_char true) is =
        All-append (Fits is_user_char true) host (port_items u.port) (name-Fits host h.0)
          (port-Fits u.port k) in
      let fails : x.parse (Standard.userinfo >> lit (codes "@")) (spell is ++ back) ≡ none =
        userinfo-rest is back fits (path-Stops is_user_char u refl refl refl)
        ∙ strip-other b'@' back (path-Stops (λ d. d == b'@') u refl refl refl) in
      let fails' : x.parse (Standard.userinfo >> lit (codes "@")) (spell host ++ tail_text u)
          ≡ none =
        rw same at fails in
      userinfo_at-run (spell host ++ tail_text u) ∙ rw fails'

  -- User information is skipped with its mark; where there is none, the rule takes nothing.
  pub userinfo_at-user :
      (user : Option (List Item)) (u : Written)
      → AllFit is_user_char user
      → IsUri u
      → x.parse (userinfo_at x standard_rules) (user_text user ++ (host_text u.host ++ tail_text u))
        ≡ some (host_text u.host ++ tail_text u)
  unfolding is_alpha is_digit in_set strip
  userinfo_at-user (some is) u k h =
      let rest : Text = host_text u.host ++ tail_text u in
      rw (append_assoc (spell is) (codes "@") rest) (
        userinfo_at-run (spell is ++ (b'@' ∷ rest))
        ∙ rw (userinfo-rest is (b'@' ∷ rest) k (omega arith, omega arith, refl)))
  userinfo_at-user none u k h = no_user u.host u h.host h.port
