-- ===== src/ParseUri/Printed.antt =====
-- The parser on the text that is written for a URI.
use foxy.Base.{
  ap, ℕ, ◌≡◌, ◌≢◌, refl, ◌∙◌, Bool, true, false, Option, none, some, List, [], ◌∷◌, ◌++◌,
  append-nil, Text, codes, arith, ◌==◌,
}
use foxy.X3.Grammar.{Grammar, lit, strip, is_alpha, is_digit, in_set}
use foxy.X3.Run.{run}
use foxy.X3.Progress.{is_safe}
use foxy.X3.Consumed.{take-append}
use foxy.X3.Library.{X3, parse-run}
use foxy.X3.Ascii.{IsAscii}
use foxy.X3.Pieces.{concat}
use foxy.Pct.Decode.Meaning.{Item, spell}
use foxy.UriParts.{UriParts}
use foxy.Uri.Raw.{view, raw, parse_opt_raw}
use foxy.Uri.Standard
use foxy.Uri.Items.{Stops}
use foxy.Uri.Spelt.{run-query, run-fragment}
use foxy.Uri.Named.{segments}
use foxy.Uri.Characters.{is_query_char}
use foxy.ParseUri.{standard_rules, at_end, finish}
use foxy.ParseUri.Safe.{standard-AreSafe}
use foxy.ParseUri.Written.{shown, marked, port_text, AllFit}

-- What a part of the text ends with does not begin with a character that the test accepts.
module _ (test : ℕ → Bool) (rest : Text) (stop : Stops test rest) where
  pub marked-Stops :
      (mark : ℕ) (o : Option (List Item))
      → IsAscii mark
      → mark ≢ b'%'
      → test mark ≡ false
      → Stops test (marked mark o ++ rest)
  marked-Stops mark none a n e = stop
  marked-Stops mark (some is) a n e = (a, n, e)

  pub segments-Stops :
      (path : List (List Item)) → test b'/' ≡ false → Stops test (concat (segments path) ++ rest)
  segments-Stops [] e = stop
  segments-Stops (is ∷ path) e = (omega arith, omega arith, e)

  pub port-Stops : (port : Option Text) → test b':' ≡ false → Stops test (port_text port ++ rest)
  port-Stops none e = stop
  port-Stops (some t) e = (omega arith, omega arith, e)

module _ (x : X3) where
  -- raw hands out what the rule has taken off the input.
  pub raw-append :
      (g : Grammar) (t rest : Text)
      → is_safe g ≡ true
      → run x.is_class g (t ++ rest) ≡ some rest
      → raw x g (t ++ rest) ≡ some (t, rest)
  unfolding raw view
  raw-append g t rest safe e =
      rw (parse-run x g (t ++ rest) safe ∙ e) (ap (λ v. some (v, rest)) (take-append t rest))

  pub parse_opt_raw-some :
      (mark : ℕ) (g : Grammar) (old t rest : Text)
      → is_safe g ≡ true
      → run x.is_class g (t ++ rest) ≡ some rest
      → parse_opt_raw x (lit (mark ∷ [])) g old (mark ∷ (t ++ rest)) ≡ (t, rest)
  unfolding parse_opt_raw strip
  parse_opt_raw-some mark g old t rest safe e =
      let lead : x.parse (lit (mark ∷ [])) (mark ∷ (t ++ rest)) ≡ some (t ++ rest) =
        x.parse-lit (mark ∷ []) (mark ∷ (t ++ rest)) ∙ ground arith in
      rw (lead, parse_opt_raw) (rw (raw-append g t rest safe e, parse_opt_raw))

  pub parse_opt_raw-none :
      (mark : ℕ) (g : Grammar) (old s : Text)
      → Stops (λ c. c == mark) s
      → parse_opt_raw x (lit (mark ∷ [])) g old s ≡ (old, s)
  unfolding parse_opt_raw strip
  parse_opt_raw-none mark g old [] h = rw (x.parse-lit (mark ∷ []) [], parse_opt_raw)
  parse_opt_raw-none mark g old (c ∷ s) h =
      let lead : x.parse (lit (mark ∷ [])) (c ∷ s) ≡ none =
        x.parse-lit (mark ∷ []) (c ∷ s) ∙ rw (h.2) in
      rw (lead, parse_opt_raw)

  parse_opt_raw-marked :
      (mark : ℕ) (g : Grammar) (o : Option (List Item)) (rest : Text)
      → is_safe g ≡ true
      → ((is : List Item) → o ≡ some is → run x.is_class g (spell is ++ rest) ≡ some rest)
      → Stops (λ c. c == mark) rest
      → parse_opt_raw x (lit (mark ∷ [])) g [] (marked mark o ++ rest) ≡ (shown o, rest)
  parse_opt_raw-marked mark g none rest safe fit stop = parse_opt_raw-none mark g [] rest stop
  parse_opt_raw-marked mark g (some is) rest safe fit stop =
      parse_opt_raw-some mark g [] (spell is) rest safe (fit is refl)

  query_fit :
      (o : Option (List Item)) (rest : Text)
      → AllFit is_query_char o
      → Stops is_query_char rest
      → (is : List Item) → o ≡ some is
      → run x.is_class Standard.query (spell is ++ rest) ≡ some rest
  query_fit none rest h stop is e = cc
  query_fit (some js) rest h stop is e =
      let same : js ≡ is = cc in rw same at (run-query x js rest h stop)

  fragment_fit :
      (o : Option (List Item)) (rest : Text)
      → AllFit is_query_char o
      → Stops is_query_char rest
      → (is : List Item) → o ≡ some is
      → run x.is_class Standard.fragment (spell is ++ rest) ≡ some rest
  fragment_fit none rest h stop is e = cc
  fragment_fit (some js) rest h stop is e =
      let same : js ≡ is = cc in rw same at (run-fragment x js rest h stop)

  pub finish-marked :
      (p : UriParts) (asked named : Option (List Item))
      → p.query ≡ []
      → p.fragment ≡ []
      → AllFit is_query_char asked
      → AllFit is_query_char named
      → finish x standard_rules p (marked b'?' asked ++ marked b'#' named)
        ≡ some (record p { query = shown asked; fragment = shown named })
  unfolding finish at_end is_alpha is_digit in_set
  finish-marked p asked named none_yet nor_yet h k =
      let behind : Text = marked b'#' named in
      let q : parse_opt_raw x (lit (codes "?")) Standard.query p.query (marked b'?' asked ++ behind)
          ≡ (shown asked, behind) =
        rw none_yet (
          parse_opt_raw-marked b'?' Standard.query asked behind standard-AreSafe.query
            (query_fit asked behind h (
              rw append-nil at
                (marked-Stops is_query_char [] tt b'#' named (omega arith) (omega arith) refl)))
            (rw append-nil at
              (marked-Stops (λ c. c == b'?') [] tt b'#' named (omega arith) (omega arith) refl))) in
      let f : parse_opt_raw x (lit (codes "#")) Standard.fragment p.fragment behind
          ≡ (shown named, []) =
        rw nor_yet (
          rw append-nil at (
            parse_opt_raw-marked b'#' Standard.fragment named [] standard-AreSafe.fragment
              (fragment_fit named [] k tt) tt)) in
      rw q (rw f refl)
