-- ===== src/Examples/Search/Outcomes.antt =====
-- What the handler of examples/listener has done when it is over.
use foxy.Base.{ℕ, ◌+◌, ◌≡◌, refl, ◌∙◌, ap, Bool, false, not, List, [], ◌∷◌, arith, if◌then◌else◌}
use foxy.Net.{is_error}
use foxy.UriParts.{is_empty}
use foxy.Utf8.{Utf, Karma}
use foxy.Examples.Search.{
  Action, async_read, async_write, async_connect, async_request, async_shutdown, complete, finished,
  Reply, Machine, initial, after_read, after_request, resume_at, run,
}

-- How many responses were written, connections begun, connections shut down, and completions made.
pub record Counts : Type 0 where
  pub responses : ℕ
  pub connects : ℕ
  pub shutdowns : ℕ
  pub completions : ℕ

abbrev pub count : Action → Counts → Counts
count async_read n = n
count (async_write r) n = record n { responses = n.responses + 1 }
count (async_connect host service) n = record n { connects = n.connects + 1 }
count (async_request target host) n = n
count async_shutdown n = record n { shutdowns = n.shutdowns + 1 }
count (complete ec b) n = record n { completions = n.completions + 1 }

abbrev pub counts : List Action → Counts
counts [] = record { responses = 0; connects = 0; shutdowns = 0; completions = 0 }
counts (a ∷ trace) = count a (counts trace)

-- The request is read, and it is a POST with a body.
abbrev pub is_search : Reply → Bool
is_search r =
    if is_error r.ec then false else if not r.is_post then false else not (is_empty r.body)

abbrev pub expected : Reply → Counts
expected r = record {
  responses = if is_error r.ec then 0 else 1;
  connects = if is_search r then 1 else 0;
  shutdowns = if is_search r then 1 else 0;
  completions = 1;
}

module _ (t : Utf) (k : Karma) where
  run-finished : (rs : List Reply) (m : Machine) → m.point ≡ finished → run t k rs m ≡ m
  unfolding run resume_at
  run-finished [] m e = refl
  run-finished (r ∷ rs) m e =
      let stays : resume_at t k m.point r m ≡ m = ap (λ p. resume_at t k p r m) e in
      ap (run t k rs) stays ∙ run-finished rs m e

  -- The five operations at most, one after the other.
  abbrev five : (r c q w z : Reply) → Machine
  five r c q w z = run t k (r ∷ c ∷ q ∷ w ∷ z ∷ []) initial

  five-finished : (r c q w z : Reply) → (five r c q w z).point ≡ finished
  unfolding run resume_at after_read after_request
  five-finished r c q w z = ground arith

  five-counts : (r c q w z : Reply) → counts (five r c q w z).trace ≡ expected r
  unfolding run resume_at after_read after_request
  five-counts r c q w z = ground arith

  run-append :
      (r c q w z : Reply) (rs : List Reply)
      → run t k (r ∷ c ∷ q ∷ w ∷ z ∷ rs) initial ≡ run t k rs (five r c q w z)
  unfolding run
  run-append r c q w z rs = refl

  -- Whatever the operations report, the handler is over after five of them: it has completed once, has
  -- written one response, or none where its read failed, and has connected to the search engine just
  -- where a POST with a body was read, and then has shut that connection down.
  pub run-counts :
      (r c q w z : Reply) (rs : List Reply)
      → ((run t k (r ∷ c ∷ q ∷ w ∷ z ∷ rs) initial).point ≡ finished)
        × (counts (run t k (r ∷ c ∷ q ∷ w ∷ z ∷ rs) initial).trace ≡ expected r)
  run-counts r c q w z rs =
      let over = five-finished r c q w z in
      let same = run-append r c q w z rs ∙ run-finished rs (five r c q w z) over in
      (ap (λ m. m.point) same ∙ over, ap (λ m. counts m.trace) same ∙ five-counts r c q w z)
