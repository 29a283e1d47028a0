-- ===== src/Examples/Fleet/Counted.antt =====
-- What holds of the clients and of the counter in every interleaving.
use foxy.Base.{
  ℕ, zero, suc, ◌+◌, ◌*◌, ◌≤◌, ◌<◌, ◌≡◌, refl, List, [], ◌∷◌, leb, if◌then◌else◌, length, All,
  arith, inl, inr, Bool-cases, ap, ◌∙◌,
}
use foxy.Net.{ErrorCode, is_error}
use foxy.Examples.Fleet.{
  num_client_requests, num_clients, Point, connecting, requesting, shutting_down, finished, Client,
  Shared, loop_head, count_request, resume_at, resume, run, posted, no_requests,
}

abbrev pub total : ℕ
total = num_clients * num_client_requests

abbrev pub sum : List Client → ℕ
sum [] = 0
sum (c ∷ cs) = c.req_count + sum cs

-- A client that waits for a response has not yet had all of them.
abbrev pub IsWithin : Point → ℕ → Type 0
IsWithin connecting n = n ≡ 0
IsWithin requesting n = n < num_client_requests
IsWithin shutting_down n = n ≤ num_client_requests
IsWithin finished n = n ≤ num_client_requests

abbrev pub IsClient : Client → Type 0
IsClient c = IsWithin c.point c.req_count

-- The listener is shut down once, when the last request has been counted.
abbrev pub IsShared : Shared → Type 0
IsShared s = s.shutdowns ≡ (if leb total s.req_count then 1 else 0)

loop_head-IsClient : (c : Client) → c.req_count ≤ num_client_requests → IsClient (loop_head c)
unfolding loop_head
loop_head-IsClient c h = ground arith

count_request-IsShared : (s : Shared) → IsShared s → IsShared (count_request s)
unfolding count_request
count_request-IsShared s h = ground arith

-- A client's step keeps its bound, and adds to the shared counter what it adds to its own.
resume_at-IsClient :
    (p : Point) (ec : ErrorCode) (c : Client) (s : Shared)
    → IsClient c
    → c.point ≡ p
    → IsClient (resume_at p ec c s).0
unfolding resume_at
resume_at-IsClient connecting ec c s h e =
    ground (arith, loop_head-IsClient (record c { req_count = 0 }))
resume_at-IsClient requesting ec c s h e =
    let within : c.req_count < num_client_requests = rw e at h in
    ground (arith, loop_head-IsClient (record c { req_count = c.req_count + 1 }))
resume_at-IsClient shutting_down ec c s h e = rw e at h
resume_at-IsClient finished ec c s h e = h

loop_head-req_count : (c : Client) → (loop_head c).req_count ≡ c.req_count
unfolding loop_head
loop_head-req_count c = ground arith

count_request-req_count : (s : Shared) → (count_request s).req_count ≡ s.req_count + 1
unfolding count_request
count_request-req_count s = ground arith

resume_at-counts :
    (p : Point) (ec : ErrorCode) (c : Client) (s : Shared)
    → IsClient c
    → c.point ≡ p
    → (resume_at p ec c s).0.req_count + s.req_count
      ≡ c.req_count + (resume_at p ec c s).1.req_count
unfolding resume_at
resume_at-counts connecting ec c s h e =
    let none_yet : c.req_count ≡ 0 = rw e at h in
    ground (arith, none_yet, loop_head-req_count (record c { req_count = 0 }))
resume_at-counts requesting ec c s h e = ground (
  arith,
  loop_head-req_count (record c { req_count = c.req_count + 1 }),
  count_request-req_count s,
)
resume_at-counts shutting_down ec c s h e = refl
resume_at-counts finished ec c s h e = refl

resume_at-IsShared :
    (p : Point) (ec : ErrorCode) (c : Client) (s : Shared)
    → IsShared s
    → IsShared (resume_at p ec c s).1
unfolding resume_at
resume_at-IsShared connecting ec c s h = elim (Bool-cases (is_error ec)) [
  | inl e ↦ rw e h
  | inr e ↦ rw e h
]
resume_at-IsShared requesting ec c s h = elim (Bool-cases (is_error ec)) [
  | inl e ↦ rw e h
  | inr e ↦ rw e (count_request-IsShared s h)
]
resume_at-IsShared shutting_down ec c s h = h
resume_at-IsShared finished ec c s h = h

-- All of it, for the clients and what they share.
pub record IsFleet (n : ℕ) (cs : List Client) (s : Shared) : Type 0 where
  pub many : length cs ≡ n
  pub within : All IsClient cs
  pub counted : sum cs ≡ s.req_count
  pub shut_down : IsShared s

resume-length :
    (i : ℕ) (ec : ErrorCode) (cs : List Client) (s : Shared)
    → length (resume i ec cs s).0 ≡ length cs
unfolding resume
resume-length i ec [] s = refl
resume-length zero ec (c ∷ cs) s = refl
resume-length (suc i) ec (c ∷ cs) s = ap suc (resume-length i ec cs s)

resume-within :
    (i : ℕ) (ec : ErrorCode) (cs : List Client) (s : Shared)
    → All IsClient cs
    → All IsClient (resume i ec cs s).0
unfolding resume
resume-within i ec [] s h = tt
resume-within zero ec (c ∷ cs) s h = (resume_at-IsClient c.point ec c s h.0 refl, h.1)
resume-within (suc i) ec (c ∷ cs) s h = (h.0, resume-within i ec cs s h.1)

resume-counts :
    (i : ℕ) (ec : ErrorCode) (cs : List Client) (s : Shared)
    → All IsClient cs
    → sum (resume i ec cs s).0 + s.req_count ≡ sum cs + (resume i ec cs s).1.req_count
unfolding resume
resume-counts i ec [] s h = refl
resume-counts zero ec (c ∷ cs) s h = omega (arith, resume_at-counts c.point ec c s h.0 refl)
resume-counts (suc i) ec (c ∷ cs) s h = omega (arith, resume-counts i ec cs s h.1)

resume-IsShared :
    (i : ℕ) (ec : ErrorCode) (cs : List Client) (s : Shared)
    → IsShared s
    → IsShared (resume i ec cs s).1
unfolding resume
resume-IsShared i ec [] s h = h
resume-IsShared zero ec (c ∷ cs) s h = resume_at-IsShared c.point ec c s h
resume-IsShared (suc i) ec (c ∷ cs) s h = resume-IsShared i ec cs s h

pub resume-IsFleet :
    {n : ℕ} (i : ℕ) (ec : ErrorCode) (cs : List Client) (s : Shared)
    → IsFleet n cs s
    → IsFleet n (resume i ec cs s).0 (resume i ec cs s).1
resume-IsFleet i ec cs s h = record {
  many = resume-length i ec cs s ∙ h.many;
  within = resume-within i ec cs s h.within;
  counted = omega (arith, resume-counts i ec cs s h.within, h.counted);
  shut_down = resume-IsShared i ec cs s h.shut_down;
}

pub run-IsFleet :
    {n : ℕ} (rs : List (ℕ × ErrorCode)) (cs : List Client) (s : Shared)
    → IsFleet n cs s
    → IsFleet n (run rs cs s).0 (run rs cs s).1
unfolding run
run-IsFleet [] cs s h = h
run-IsFleet ((i, ec) ∷ rs) cs s h =
    run-IsFleet rs (resume i ec cs s).0 (resume i ec cs s).1 (resume-IsFleet i ec cs s h)

posted-length : (n : ℕ) → length (posted n) ≡ n
unfolding posted
posted-length zero = refl
posted-length (suc n) = ap suc (posted-length n)

posted-within : (n : ℕ) → All IsClient (posted n)
unfolding posted
posted-within zero = tt
posted-within (suc n) = (refl, posted-within n)

posted-sum : (n : ℕ) → sum (posted n) ≡ 0
unfolding posted
posted-sum zero = refl
posted-sum (suc n) = omega (arith, posted-sum n)

pub posted-IsFleet : (n : ℕ) → IsFleet n (posted n) no_requests
posted-IsFleet n = record {
  many = posted-length n;
  within = posted-within n;
  counted = posted-sum n;
  shut_down = refl;
}
