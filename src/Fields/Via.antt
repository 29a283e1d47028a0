-- ===== src/Fields/Via.antt =====
-- What has_foxy_via finds.
use foxy.Base.{
  ℕ, zero, suc, ◌≤◌, ◌≡◌, refl, sym, ◌∙◌, ap, Bool, true, false, ◌||◌, ◌&&◌, Option, none, some, [],
  ◌∷◌, ◌==◌, ltb, ◌>>=◌, Text, codes, length, Option-cases, inl, inr, arith,
}
use foxy.X3.Grammar.{any_char, no_case_lit, ◌but_not◌, no_case, one, strip_no_case, to_lower}
use foxy.X3.Run.{many, run}
use foxy.X3.Progress.{is_safe}
use foxy.X3.Library.{X3, parse-run}
use foxy.Fields.{Fields, Beast, foxy_via, has_foxy_via}

-- Whether a text begins like another, but for the case of letters.
abbrev pub begins : Text → Text → Bool
begins [] s = true
begins (t ∷ ts) [] = false
begins (t ∷ ts) (c ∷ s) = (to_lower c == to_lower t) && begins ts s

-- Whether it stands somewhere.
abbrev pub occurs : Text → Text → Bool
occurs t [] = begins t []
occurs t (c ∷ s) = begins t (c ∷ s) || occurs t s

abbrev pub foxy_token : Text
foxy_token = codes "1.1 foxy"

-- Whether some Via field holds foxy's token.
abbrev pub names_foxy : Beast → Fields → Bool
names_foxy b [] = false
names_foxy b (f ∷ fs) =
    (b.same_name f.name (codes "Via") && occurs foxy_token f.value) || names_foxy b fs

matches : Option Text → Bool
matches none = false
matches (some r) = true

strip_no_case-begins : (t s : Text) → matches (strip_no_case t s) ≡ begins t s
unfolding strip_no_case matches
strip_no_case-begins [] s = refl
strip_no_case-begins (t ∷ ts) [] = refl
strip_no_case-begins (t ∷ ts) (c ∷ s) = ground (arith, strip_no_case-begins ts s)

matches_then : (o : Option Text) (f : Text → Text) → matches (o >>= λ r. some (f r)) ≡ matches o
unfolding matches
matches_then none f = refl
matches_then (some r) f = refl

module _ (x : X3) where
  skip : Text → Option Text
  skip s = run x.is_class (any_char but_not no_case_lit foxy_token) s

  skip-none : (s : Text) → strip_no_case foxy_token s ≡ none → skip s ≡ one (λ _. true) s
  unfolding skip run
  skip-none s e = rw e

  skip-some : (s r : Text) → strip_no_case foxy_token s ≡ some r → skip s ≡ none
  unfolding skip run
  skip-some s r e = rw e

  begins-none : (s : Text) → strip_no_case foxy_token s ≡ none → begins foxy_token s ≡ false
  unfolding matches
  begins-none s e = rw e at (sym (strip_no_case-begins foxy_token s))

  begins-some : (s r : Text) → strip_no_case foxy_token s ≡ some r → begins foxy_token s ≡ true
  unfolding matches
  begins-some s r e = rw e at (sym (strip_no_case-begins foxy_token s))

  skips :
      (n : ℕ) (s : Text)
      → length s ≤ n
      → matches (strip_no_case foxy_token (many n skip s)) ≡ occurs foxy_token s
  unfolding many one matches strip_no_case
  skips zero [] h = refl
  skips zero (c ∷ s) h = absurd (omega arith)
  skips (suc n) [] h = rw (skip-none [] refl, many)
  skips (suc n) (c ∷ s) h = elim (Option-cases (strip_no_case foxy_token (c ∷ s))) [
    | inl e ↦
        let f : skip (c ∷ s) ≡ some s = skip-none (c ∷ s) e in
        let less : ltb (length s) (suc (length s)) ≡ true = ground arith in
        rw (f, many)
          (rw less (
            skips n s (omega arith)
            ∙ sym (ap (λ o. o || occurs foxy_token s) (begins-none (c ∷ s) e))))
    | inr (r, e) ↦
        let f : skip (c ∷ s) ≡ none = skip-some (c ∷ s) r e in
        rw (f, many)
          (ap matches e ∙ sym (ap (λ o. o || occurs foxy_token s) (begins-some (c ∷ s) r e)))
  ]

  foxy_via-occurs : (s : Text) → matches (x.parse foxy_via s) ≡ occurs foxy_token s
  unfolding foxy_via is_safe run no_case skip
  foxy_via-occurs s =
      ap matches (parse-run x foxy_via s refl)
      ∙ matches_then (strip_no_case foxy_token (many (length s) skip s))
          (λ r. many (length r) (run x.is_class any_char) r)
      ∙ skips (length s) s (omega arith)

  -- has_foxy_via finds foxy's token, in whatever case it is written, exactly when it stands somewhere
  -- in the value of a Via field.
  pub has_foxy_via-names_foxy :
      (b : Beast) (fields : Fields) → has_foxy_via b x fields ≡ names_foxy b fields
  unfolding has_foxy_via matches
  has_foxy_via-names_foxy b [] = refl
  has_foxy_via-names_foxy b (f ∷ fs) = elim (Option-cases (x.parse foxy_via f.value)) [
    | inl e ↦
        let o : occurs foxy_token f.value ≡ false = rw e at (sym (foxy_via-occurs f.value)) in
        rw (e, has_foxy_via) (ground (arith, o, has_foxy_via-names_foxy b fs))
    | inr (r, e) ↦
        let o : occurs foxy_token f.value ≡ true = rw e at (sym (foxy_via-occurs f.value)) in
        rw (e, has_foxy_via) (ground (arith, o, has_foxy_via-names_foxy b fs))
  ]
