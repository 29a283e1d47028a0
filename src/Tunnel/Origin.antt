-- ===== src/Tunnel/Origin.antt =====
-- The texts that the tunnel makes from the parts of a target: they are as described, and the target
-- of a relayed request is in origin form.
use foxy.Base.{
  ℕ, Bool, true, false, [], ◌∷◌, ◌++◌, if◌then◌else◌, Text, codes, ◌≡◌, refl, sym, ap, ◌⊎◌, inl,
  inr, append-nil,
}
use foxy.UriParts.{UriParts, is_empty}
use foxy.ParseUri.Paths.{IsRooted}
use foxy.Tunnel.{connect, options, other_verb, Verb, origin_target, host_field, service, is_options}
use foxy.Tunnel.Order.{IsOriginForm}

with_query :
    (p q : Text) → IsOriginForm p → IsOriginForm (if is_empty q then p else p ++ (b'?' ∷ q))
unfolding is_empty
with_query p [] h = h
with_query p (c ∷ q) (inl (rest, e)) = inl (rest ++ (b'?' ∷ c ∷ q), ap (λ t. t ++ (b'?' ∷ c ∷ q)) e)
with_query p (c ∷ q) (inr (rest, e)) = inr (rest ++ (b'?' ∷ c ∷ q), ap (λ t. t ++ (b'?' ∷ c ∷ q)) e)

path_or_default :
    (o : Bool) (p : Text)
    → IsRooted p
    → IsOriginForm (if is_empty p then (if o then codes "*" else codes "/") else p)
unfolding is_empty
path_or_default true [] h = inr ([], refl)
path_or_default false [] h = inl ([], refl)
path_or_default o (c ∷ p) (inl e) = cc
path_or_default o (c ∷ p) (inr (rest, e)) = inl (rest, e)

pub origin_target-IsOriginForm :
    (v : Verb) (u : UriParts) → IsRooted u.path → IsOriginForm (origin_target v u)
unfolding origin_target
origin_target-IsOriginForm v u h = with_query _ u.query (path_or_default (is_options v) u.path h)

-- A text, or another one in place of an empty one; and a text with a mark before it unless it is
-- empty.
abbrev pub or_default : Text → Text → Text
or_default [] d = d
or_default (c ∷ t) d = c ∷ t

abbrev pub marked : ℕ → Text → Text
marked mark [] = []
marked mark (c ∷ t) = mark ∷ c ∷ t

abbrev pub default_path : Verb → Text
default_path options = codes "*"
default_path v = codes "/"

Text-cases : (t : Text) → (t ≡ []) ⊎ ((c : ℕ) × (s : Text) × (t ≡ c ∷ s))
Text-cases [] = inl refl
Text-cases (c ∷ s) = inr (c, s, refl)

path-or_default :
    (v : Verb) (p : Text)
    → (if is_empty p then (if is_options v then codes "*" else codes "/") else p)
      ≡ or_default p (default_path v)
unfolding is_empty is_options
path-or_default connect [] = refl
path-or_default options [] = refl
path-or_default (other_verb n) [] = refl
path-or_default v (c ∷ p) = refl

query-marked : (p q : Text) → (if is_empty q then p else p ++ (b'?' ∷ q)) ≡ p ++ marked b'?' q
unfolding is_empty
query-marked p [] = sym (append-nil p)
query-marked p (c ∷ q) = refl

pub host_field-marked : (u : UriParts) → host_field u ≡ u.host ++ marked b':' u.port
unfolding host_field is_empty
host_field-marked u = elim (Text-cases u.port) [
  | inl e ↦ rw (e, host_field, is_empty) (sym (append-nil u.host))
  | inr (c, s, e) ↦ rw (e, host_field, is_empty) refl
]

pub service-or_default :
    (client_is_ssl : Bool) (u : UriParts)
    → service client_is_ssl u
      ≡ or_default u.port (if client_is_ssl then codes "https" else codes "http")
unfolding service is_empty
service-or_default s u = elim (Text-cases u.port) [
  | inl e ↦ rw (e, service, is_empty) refl
  | inr (c, p, e) ↦ rw (e, service, is_empty) refl
]

pub origin_target-marked :
    (v : Verb) (u : UriParts)
    → origin_target v u ≡ or_default u.path (default_path v) ++ marked b'?' u.query
unfolding origin_target
origin_target-marked v u = rw (path-or_default v u.path, origin_target) (query-marked _ u.query)
