-- ===== src/Uri/Parts.antt =====
-- What a successful call of x3::parse with foxy::uri::raw says of the input.
use foxy.Base.{
  ap, ℕ, ◌≡◌, refl, sym, ◌∙◌, true, some, [], ◌∷◌, ◌++◌, Text, Option-cases, ◌⊎◌, inl, inr, ◌>>=◌,
  >>=-eq-some, arith,
}
use foxy.X3.Grammar.{Grammar, lit}
use foxy.X3.Library.{X3, parse-run}
use foxy.X3.Progress.{is_safe}
use foxy.X3.Consumed.{run-some, strip-some, take-append}
use foxy.Uri.Raw.{view, raw, parse_raw, parse_opt_raw}

module _ (x : X3) where
  pub parse-some :
      (g : Grammar) (s r : Text)
      → is_safe g ≡ true
      → x.parse g s ≡ some r
      → (p : Text) × (s ≡ p ++ r)
  parse-some g s r safe e = run-some x.is_class g s r (sym (parse-run x g s safe) ∙ e)

  pub parse-lit-some : (t s r : Text) → x.parse (lit t) s ≡ some r → s ≡ t ++ r
  parse-lit-some t s r e = strip-some t s r (sym (x.parse-lit t s) ∙ e)

  -- The attribute is what was taken off the input.
  pub raw-some :
      (g : Grammar) (s : Text) (m : Text × Text)
      → is_safe g ≡ true
      → raw x g s ≡ some m
      → s ≡ m.0 ++ m.1
  unfolding raw view
  raw-some g s m safe e =
      let (r, parsed, given) = >>=-eq-some (x.parse g s) (λ first. some (view s first, first)) e in
      let (p, split) = parse-some g s r safe parsed in
      let shown : view s r ≡ p = ap (λ w. view w r) split ∙ take-append p r in
      ground (arith, shown, split, given)

  -- A part behind its mark, or neither, and then the old value.
  abbrev pub Part : ℕ → Text → Text → Text → Type 0
  Part mark old v part = (part ≡ mark ∷ v) ⊎ ((part ≡ []) × (v ≡ old))

  pub parse_opt_raw-Part :
      (mark : ℕ) (g : Grammar) (old s : Text)
      → is_safe g ≡ true
      → (part : Text) × (s ≡ part ++ (parse_opt_raw x (lit (mark ∷ [])) g old s).1)
        × Part mark old (parse_opt_raw x (lit (mark ∷ [])) g old s).0 part
  unfolding parse_opt_raw
  parse_opt_raw-Part mark g old s safe =
      elim (Option-cases (x.parse (lit (mark ∷ [])) s >>= raw x g)) [
        | inl e ↦ rw (e, parse_opt_raw) ([], refl, inr (refl, refl))
        | inr (m, e) ↦
            let (s', marked, matched) = >>=-eq-some (x.parse (lit (mark ∷ [])) s) (raw x g) e in
            rw (e, parse_opt_raw)
              (
                mark ∷ m.0,
                parse-lit-some (mark ∷ []) s s' marked
                    ∙ ap (◌∷◌ mark) (raw-some g s' m safe matched),
                inl refl,
              )
      ]

  pub parse_raw-some :
      (before g after : Grammar) (s : Text) (m : Text × Text)
      → is_safe g ≡ true
      → parse_raw x before g after s ≡ some m
      → (s' s'' : Text) × (x.parse before s ≡ some s')
        × (s' ≡ m.0 ++ s'')
        × (x.parse after s'' ≡ some m.1)
  unfolding parse_raw
  parse_raw-some before g after s m safe e =
      let (s', started, e') =
        >>=-eq-some (x.parse before s)
          (λ s'. raw x g s' >>= λ (attr, s''). x.parse after s'' >>= λ rest. some (attr, rest)) e in
      let (n, matched, e'') =
        >>=-eq-some (raw x g s') (λ n. x.parse after n.1 >>= λ rest. some (n.0, rest)) e' in
      let (rest, ended, given) = >>=-eq-some (x.parse after n.1) (λ rest. some (n.0, rest)) e'' in
      let same : some (n.0, rest) ≡ some m = given in
      (
        s',
        n.1,
        started,
        ground (arith, raw-some g s' n safe matched, same),
        ground (arith, ended, same),
      )
