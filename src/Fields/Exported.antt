-- ===== src/Fields/Exported.antt =====
-- Which fields a proxy keeps to itself.
use mathlib.Core.List.{Perm, perm_middle}
use mathlib.Core.List.Perm
use foxy.Base.{
  Bool, true, not, ◌↔◌, ◌≡◌, refl, ap, List, [], ◌∷◌, ◌++◌, if◌then◌else◌, Text, Bool-cases, inl,
  inr,
}
use foxy.Fields.{
  Field, Fields, Beast, is_connect_opt, connect_opts, move_fields, export_connect_fields,
}
use foxy.Fields.ForHop.{IsForHop, is_connect_opt-IsForHop}

-- The fields of which a test holds, in order.
abbrev pub keep : (Field → Bool) → Fields → Fields
keep test [] = []
keep test (f ∷ fs) = if test f then f ∷ keep test fs else keep test fs

module _ (b : Beast) where
  move_fields-left :
      (opts : List Text) (src dst : Fields)
      → (move_fields b opts src dst).0 ≡ keep (λ f. not (is_connect_opt b opts f)) src
  unfolding move_fields
  move_fields-left opts [] dst = refl
  move_fields-left opts (f ∷ src) dst = elim (Bool-cases (is_connect_opt b opts f)) [
    | inl e ↦ rw (e, move_fields) (move_fields-left opts src (b.insert f dst))
    | inr e ↦ rw (e, move_fields) (ap (◌∷◌ f) (move_fields-left opts src dst))
  ]

  move_fields-perm :
      (opts : List Text) (src dst : Fields)
      → Perm (move_fields b opts src dst).1 (keep (is_connect_opt b opts) src ++ dst)
  unfolding move_fields
  move_fields-perm opts [] dst = Perm.refl dst
  move_fields-perm opts (f ∷ src) dst = elim (Bool-cases (is_connect_opt b opts f)) [
    | inl e ↦
        rw (e, move_fields)
          (Perm.trans (move_fields-perm opts src (b.insert f dst)) (
            Perm.trans
              (Perm.append (Perm.refl (keep (is_connect_opt b opts) src)) (b.insert-perm f dst))
              (perm_middle (keep (is_connect_opt b opts) src) dst)))
    | inr e ↦ rw (e, move_fields) (move_fields-perm opts src dst)
  ]

  pub export_connect_fields-left :
      (src dst : Fields)
      → (export_connect_fields b src dst).0
        ≡ keep (λ f. not (is_connect_opt b (connect_opts b src) f)) src
  unfolding export_connect_fields
  export_connect_fields-left src dst = move_fields-left (connect_opts b src) src dst

  -- The fields that move to the destination, beside what it held, are exactly those for one hop only,
  -- which have the name of a hop-by-hop field, whatever its case, or a name that is spelled as a token
  -- of some Connection field of the source; the source keeps all others, in order.
  pub export_connect_fields_lem :
      (src dst : Fields)
      → (test : Field → Bool) × ((f : Field) → (test f ≡ true) ↔ IsForHop b src f)
        × ((export_connect_fields b src dst).0 ≡ keep (λ f. not (test f)) src)
        × Perm (export_connect_fields b src dst).1 (keep test src ++ dst)
  unfolding export_connect_fields
  export_connect_fields_lem src dst = (
    is_connect_opt b (connect_opts b src),
    is_connect_opt-IsForHop b src,
    export_connect_fields-left src dst,
    move_fields-perm (connect_opts b src) src dst,
  )
