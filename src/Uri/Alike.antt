-- ===== src/Uri/Alike.antt =====
-- foxy::uri::raw over rules that differ in the encoding only, on ASCII texts.
use foxy.Base.{
  ap, ◌≡◌, refl, sym, ◌∙◌, true, Option, none, some, Text, Option-cases, inl, inr, ◌>>=◌,
  >>=-eq-some, All, All-rest,
}
use foxy.X3.Grammar.{Grammar}
use foxy.X3.Library.{X3}
use foxy.X3.Progress.{is_safe}
use foxy.X3.Ascii.{IsAscii, plainly, parse-agree}
use foxy.Uri.Raw.{view, raw, parse_raw, parse_opt_raw}
use foxy.Uri.Parts.{parse-some, raw-some, parse_raw-some}

-- Two grammars that X3 can run and that differ in the encoding only.
pub record Alike (g h : Grammar) : Type 0 where
  pub safe : is_safe g ≡ true
  pub safe' : is_safe h ≡ true
  pub plain : plainly g ≡ plainly h

-- A chain whose parts agree.
pub >>=-agree {ℓ κ} :
    {A : Type ℓ} {B : Type κ} (m m' : Option A) (f f' : A → Option B)
    → m ≡ m'
    → ((a : A) → m ≡ some a → f a ≡ f' a)
    → (m >>= f) ≡ (m' >>= f')
>>=-agree m m' f f' e k = elim (Option-cases m) [
  | inl n ↦ rw n (rw (sym e ∙ n))
  | inr (a, s) ↦ rw s (rw (sym e ∙ s) (k a s))
]

module _ (x : X3) where
  pub raw-agree : (g h : Grammar) (s : Text) → Alike g h → All IsAscii s → raw x g s ≡ raw x h s
  unfolding raw
  raw-agree g h s k a =
      ap (λ o. o >>= λ first. some (view s first, first))
        (parse-agree x g h s k.safe k.safe' k.plain a)

  parse-IsAscii :
      (g : Grammar) (s r : Text)
      → is_safe g ≡ true
      → All IsAscii s
      → x.parse g s ≡ some r
      → All IsAscii r
  parse-IsAscii g s r safe a e =
      let (p, split) = parse-some x g s r safe e in All-rest IsAscii p r (rw split at a)

  raw-IsAscii :
      (g : Grammar) (s : Text) (m : Text × Text)
      → is_safe g ≡ true
      → All IsAscii s
      → raw x g s ≡ some m
      → All IsAscii m.1
  raw-IsAscii g s m safe a e =
      let split = raw-some x g s m safe e in All-rest IsAscii m.0 m.1 (rw split at a)

  pub parse_raw-agree :
      (before before' g h after : Grammar) (s : Text)
      → Alike before before'
      → Alike g h
      → All IsAscii s
      → parse_raw x before g after s ≡ parse_raw x before' h after s
  unfolding parse_raw
  parse_raw-agree before before' g h after s b k a =
      >>=-agree (x.parse before s) (x.parse before' s) _ _
        (parse-agree x before before' s b.safe b.safe' b.plain a)
        (λ s' e.
          ap (λ o. o >>= λ (attr, s''). x.parse after s'' >>= λ rest. some (attr, rest))
            (raw-agree g h s' k (parse-IsAscii before s s' b.safe a e)))

  pub parse_raw-IsAscii :
      (before g after : Grammar) (s : Text) (m : Text × Text)
      → is_safe before ≡ true
      → is_safe g ≡ true
      → is_safe after ≡ true
      → All IsAscii s
      → parse_raw x before g after s ≡ some m
      → All IsAscii m.1
  parse_raw-IsAscii before g after s m sb sg sa a e =
      let (s', s'', started, split, ended) = parse_raw-some x before g after s m sg e in
      parse-IsAscii after s'' m.1 sa
        (All-rest IsAscii m.0 s'' (rw split at (parse-IsAscii before s s' sb a started))) ended

  pub parse_opt_raw-agree :
      (before g h : Grammar) (attr s : Text)
      → is_safe before ≡ true
      → Alike g h
      → All IsAscii s
      → parse_opt_raw x before g attr s ≡ parse_opt_raw x before h attr s
  unfolding parse_opt_raw
  parse_opt_raw-agree before g h attr s sb k a =
      ap (λ (o : Option (Text × Text)). elim o [ none ↦ (attr, s) | some r ↦ r ])
        (>>=-agree (x.parse before s) (x.parse before s) (raw x g) (raw x h) refl
          (λ s' e. raw-agree g h s' k (parse-IsAscii before s s' sb a e)))

  pub parse_opt_raw-IsAscii :
      (before g : Grammar) (attr s : Text)
      → is_safe before ≡ true
      → is_safe g ≡ true
      → All IsAscii s
      → All IsAscii (parse_opt_raw x before g attr s).1
  unfolding parse_opt_raw
  parse_opt_raw-IsAscii before g attr s sb sg a =
      elim (Option-cases (x.parse before s >>= raw x g)) [
        | inl e ↦ rw (e, parse_opt_raw) a
        | inr (m, e) ↦
            let (s', marked, matched) = >>=-eq-some (x.parse before s) (raw x g) e in
            rw (e, parse_opt_raw)
              (raw-IsAscii g s' m sg (parse-IsAscii before s s' sb a marked) matched)
      ]
