-- ===== src/Fields/ForHop.antt =====
-- Which fields are for one hop only, by the lists that say so.
use mathlib.Core.Logic.{⊎_map}
use foxy.Base.{
  ◌==◌, ==_iff, &&_parts, Bool, true, ◌||◌, ◌≡◌, refl, sym, ◌⊎◌, inl, inr, ◌↔◌, List, [], ◌∷◌, ◌++◌,
  Text, Bool-cases, arith,
}
use foxy.UriParts.{equal}
use foxy.Fields.{
  Field, Fields, Beast, connection, hop_by_hops, names_field, names_option, connect_opts,
  is_connect_opt,
}

-- Some entry has the property.
abbrev pub Any {ℓ} : {A : Type ℓ} → (A → Type 0) → List A → Type 0
Any P [] = ⊥
Any P (x ∷ xs) = P x ⊎ Any P xs

-- A field that has the name of a hop-by-hop field, or whose name is spelled as a token of some
-- Connection field of `src`.
abbrev pub IsForHop : Beast → Fields → Field → Type 0
IsForHop b src f =
    Any (λ n. b.same_name f.name n ≡ true) hop_by_hops
    ⊎ Any
        (λ (g : Field).
          (b.same_name g.name connection ≡ true)
          × Any (λ token. token ≡ f.name) (b.token_list g.value))
        src

Any-append_split {ℓ} :
    {A : Type ℓ} (P : A → Type 0) (s t : List A) → Any P (s ++ t) → Any P s ⊎ Any P t
Any-append_split P [] t a = inr a
Any-append_split P (x ∷ s) t (inl p) = inl (inl p)
Any-append_split P (x ∷ s) t (inr a) = ⊎_map inr (λ r. r) (Any-append_split P s t a)

Any-append_join {ℓ} :
    {A : Type ℓ} (P : A → Type 0) (s t : List A) → Any P s ⊎ Any P t → Any P (s ++ t)
Any-append_join P [] t (inl a) = absurd a
Any-append_join P [] t (inr a) = a
Any-append_join P (x ∷ s) t (inl (inl p)) = inl p
Any-append_join P (x ∷ s) t (inl (inr a)) = inr (Any-append_join P s t (inl a))
Any-append_join P (x ∷ s) t (inr a) = inr (Any-append_join P s t (inr a))

or_true : (a b : Bool) → ((a || b) ≡ true) ↔ ((a ≡ true) ⊎ (b ≡ true))
or_true a b = ground arith

equal_self : (s : Text) → equal s s ≡ true
unfolding equal
equal_self [] = refl
equal_self (c ∷ s) = rw ((==_iff c c).1 refl, equal_self s) refl

equal→eq : (s t : Text) → equal s t ≡ true → s ≡ t
unfolding equal
equal→eq [] [] h = refl
equal→eq [] (d ∷ t) h = cc
equal→eq (c ∷ s) [] h = cc
equal→eq (c ∷ s) (d ∷ t) h =
    let (same, rest) = &&_parts (c == d) (equal s t) h in
    rw ((==_iff c d).0 same, equal→eq s t rest) refl

equal_iff : (s t : Text) → (equal s t ≡ true) ↔ (s ≡ t)
equal_iff s t = (equal→eq s t, λ e. rw (← e) (equal_self s))

module _ (b : Beast) where
  names_field-Any :
      (ns : List Text) (name : Text)
      → (names_field b ns name ≡ true) ↔ Any (λ n. b.same_name name n ≡ true) ns
  unfolding names_field
  names_field-Any [] name = (λ h. cc, λ h. absurd h)
  names_field-Any (n ∷ ns) name =
      let split = or_true (b.same_name name n) (names_field b ns name) in
      let (to, back) = names_field-Any ns name in
      (λ h. ⊎_map (λ e. e) to (split.0 h), λ h. split.1 (⊎_map (λ e. e) back h))

  names_option-Any :
      (opts : List Text) (name : Text)
      → (names_option b opts name ≡ true) ↔ Any (λ token. token ≡ name) opts
  unfolding names_option
  names_option-Any [] name = (λ h. cc, λ h. absurd h)
  names_option-Any (o ∷ opts) name =
      let split = or_true (equal name o) (names_option b opts name) in
      let same = equal_iff name o in
      let (to, back) = names_option-Any opts name in
      (
        λ h. ⊎_map (λ e. sym (same.0 e)) to (split.0 h),
        λ h. split.1 (⊎_map (λ e. same.1 (sym e)) back h),
      )

  connect_opts-Any :
      (P : Text → Type 0) (fs : Fields)
      → Any P (connect_opts b fs)
        ↔ Any
            (λ (g : Field). (b.same_name g.name connection ≡ true) × Any P (b.token_list g.value))
            fs
  unfolding connect_opts
  connect_opts-Any P [] = (λ h. h, λ h. h)
  connect_opts-Any P (g ∷ fs) = elim (Bool-cases (b.same_name g.name connection)) [
    | inl e ↦
        let (to, back) = connect_opts-Any P fs in
        (
          λ h.
              ⊎_map (λ a. (e, a)) to
                (Any-append_split P (b.token_list g.value) (connect_opts b fs) (rw e at h)),
          λ h.
              rw (e, connect_opts)
                (Any-append_join P (b.token_list g.value) (connect_opts b fs)
                  (⊎_map (λ p. p.1) back h)),
        )
    | inr e ↦
        let (to, back) = connect_opts-Any P fs in
        (
          λ h. inr (to (rw e at h)),
          λ h. elim h [ inl p ↦ absurd (cc (e, p.0)) | inr a ↦ rw (e, connect_opts) (back a) ],
        )
  ]

  -- The test of the code, on the options of `src`, says which fields are for one hop only.
  pub is_connect_opt-IsForHop :
      (src : Fields) (f : Field)
      → (is_connect_opt b (connect_opts b src) f ≡ true) ↔ IsForHop b src f
  unfolding is_connect_opt
  is_connect_opt-IsForHop src f =
      let split =
        or_true (names_field b hop_by_hops f.name) (names_option b (connect_opts b src) f.name) in
      let names = names_field-Any hop_by_hops f.name in
      let spelled = names_option-Any (connect_opts b src) f.name in
      let options = connect_opts-Any (λ token. token ≡ f.name) src in
      (
        λ h. ⊎_map names.0 (λ o. options.0 (spelled.0 o)) (split.0 h),
        λ h. split.1 (⊎_map names.1 (λ o. spelled.1 (options.1 o)) h),
      )
