-- ===== src/Examples/Fleet/Shutdown.antt =====
-- When the clients of the fleet shut the listener down, and when none of them ever does.
use foxy.Base.{
  ℕ, zero, suc, ◌*◌, ◌≤◌, ◌<◌, ◌≡◌, refl, true, List, [], ◌∷◌, ◌++◌, leb, length, All, arith, ◌⊎◌,
  ◌↔◌, inl, inr, Bool-cases, ap, ◌∙◌,
}
use foxy.Net.{ErrorCode, is_error}
use foxy.Examples.Fleet.{
  num_client_requests, num_clients, Point, connecting, requesting, shutting_down, finished, Client,
  Shared, resume_at, resume, run, posted, no_requests,
}
use foxy.Examples.Fleet.Counted.{
  total, sum, IsClient, IsShared, resume-IsFleet, run-IsFleet, posted-IsFleet,
}

abbrev pub IsDone : Client → Type 0
IsDone c = c.req_count ≡ num_client_requests

client_bound :
    (p : Point) (c : Client) → IsClient c → c.point ≡ p → c.req_count ≤ num_client_requests
client_bound connecting c h e = let none_yet : c.req_count ≡ 0 = rw e at h in omega arith
client_bound requesting c h e =
    let within : c.req_count < num_client_requests = rw e at h in omega arith
client_bound shutting_down c h e = rw e at h
client_bound finished c h e = rw e at h

sum-le : (cs : List Client) → All IsClient cs → sum cs ≤ length cs * num_client_requests
sum-le [] h = omega arith
sum-le (c ∷ cs) h = omega (arith, client_bound c.point c h.0 refl, sum-le cs h.1)

sum-All :
    (cs : List Client) → All IsClient cs → sum cs ≡ length cs * num_client_requests → All IsDone cs
sum-All [] h e = tt
sum-All (c ∷ cs) h e =
    let bound = client_bound c.point c h.0 refl in
    let rest = sum-le cs h.1 in (omega arith, sum-All cs h.1 (omega arith))

All-sum : (cs : List Client) → All IsDone cs → sum cs ≡ length cs * num_client_requests
All-sum [] h = refl
All-sum (c ∷ cs) h = omega (arith, h.0, All-sum cs h.1)

counted-shutdowns :
    (s : Shared)
    → IsShared s
    → ((s.shutdowns ≡ 1) × (total ≤ s.req_count)) ⊎ ((s.shutdowns ≡ 0) × (s.req_count < total))
counted-shutdowns s h = elim (Bool-cases (leb total s.req_count)) [
  | inl e ↦ inl (rw e at h, ground arith)
  | inr e ↦ inr (rw e at h, ground arith)
]

-- In every interleaving of the clients the listener is shut down at most once, and it is shut down
-- exactly when each client has had the responses to all of its requests.
pub run-shutdowns :
    (rs : List (ℕ × ErrorCode))
    → ((run rs (posted num_clients) no_requests).1.shutdowns ≤ 1)
      × (((run rs (posted num_clients) no_requests).1.shutdowns ≡ 1)
          ↔ All IsDone (run rs (posted num_clients) no_requests).0)
run-shutdowns rs =
    let h = run-IsFleet rs (posted num_clients) no_requests (posted-IsFleet num_clients) in
    let cs = (run rs (posted num_clients) no_requests).0 in
    let s = (run rs (posted num_clients) no_requests).1 in
    let bound = sum-le cs h.within in
    elim (counted-shutdowns s h.shut_down) [
      | inl (once, all) ↦
          (omega arith, (λ _. sum-All cs h.within (omega (arith, h.many, h.counted)), λ _. once))
      | inr (none, few) ↦ (
        omega arith,
        (
          λ e. absurd (omega arith),
          λ done. absurd (omega (arith, All-sum cs done, h.many, h.counted)),
        ),
      )
    ]

-- A client that is over, or about to be, without all of its responses.
abbrev pub IsLost : Client → Type 0
IsLost c = ((c.point ≡ shutting_down) ⊎ (c.point ≡ finished)) × (c.req_count < num_client_requests)

abbrev pub HasLost : List Client → Type 0
HasLost [] = ⊥
HasLost (c ∷ cs) = IsLost c ⊎ HasLost cs

resume_at-IsLost :
    (ec : ErrorCode) (c : Client) (s : Shared) → IsLost c → IsLost (resume_at c.point ec c s).0
unfolding resume_at
resume_at-IsLost ec c s (inl e, few) = rw e (inr refl, few)
resume_at-IsLost ec c s (inr e, few) = rw e (inr refl, few)

resume-HasLost :
    (i : ℕ) (ec : ErrorCode) (cs : List Client) (s : Shared)
    → HasLost cs
    → HasLost (resume i ec cs s).0
unfolding resume
resume-HasLost i ec [] s h = h
resume-HasLost zero ec (c ∷ cs) s (inl h) = inl (resume_at-IsLost ec c s h)
resume-HasLost zero ec (c ∷ cs) s (inr h) = inr h
resume-HasLost (suc i) ec (c ∷ cs) s (inl h) = inl h
resume-HasLost (suc i) ec (c ∷ cs) s (inr h) = inr (resume-HasLost i ec cs s h)

run-HasLost :
    (rs : List (ℕ × ErrorCode)) (cs : List Client) (s : Shared)
    → HasLost cs
    → HasLost (run rs cs s).0
unfolding run
run-HasLost [] cs s h = h
run-HasLost ((i, ec) ∷ rs) cs s h =
    run-HasLost rs (resume i ec cs s).0 (resume i ec cs s).1 (resume-HasLost i ec cs s h)

lost-sum :
    (cs : List Client) → All IsClient cs → HasLost cs → sum cs < length cs * num_client_requests
lost-sum [] w h = elim h [ ]
lost-sum (c ∷ cs) w (inl h) = omega (arith, h.1, sum-le cs w.1)
lost-sum (c ∷ cs) w (inr h) = omega (arith, client_bound c.point c w.0 refl, lost-sum cs w.1 h)

-- The client of that number waits for its connection or for a response.
abbrev pub Waits : ℕ → List Client → Type 0
Waits i [] = ⊥
Waits zero (c ∷ cs) = (c.point ≡ connecting) ⊎ (c.point ≡ requesting)
Waits (suc i) (c ∷ cs) = Waits i cs

resume_at-fails :
    (ec : ErrorCode) (c : Client) (s : Shared)
    → IsClient c
    → is_error ec ≡ true
    → (c.point ≡ connecting) ⊎ (c.point ≡ requesting)
    → IsLost (resume_at c.point ec c s).0
unfolding resume_at
resume_at-fails ec c s w e (inl p) =
    let none_yet : c.req_count ≡ 0 = rw p at w in rw p (rw e (inr refl, omega arith))
resume_at-fails ec c s w e (inr p) =
    let few : c.req_count < num_client_requests = rw p at w in rw p (rw e (inl refl, few))

resume-fails :
    (i : ℕ) (ec : ErrorCode) (cs : List Client) (s : Shared)
    → All IsClient cs
    → is_error ec ≡ true
    → Waits i cs
    → HasLost (resume i ec cs s).0
unfolding resume
resume-fails i ec [] s w e h = elim h [ ]
resume-fails zero ec (c ∷ cs) s w e h = inl (resume_at-fails ec c s w.0 e h)
resume-fails (suc i) ec (c ∷ cs) s w e h = inr (resume-fails i ec cs s w.1 e h)

run-append :
    (rs qs : List (ℕ × ErrorCode)) (cs : List Client) (s : Shared)
    → run (rs ++ qs) cs s ≡ run qs (run rs cs s).0 (run rs cs s).1
unfolding run
run-append [] qs cs s = refl
run-append ((i, ec) ∷ rs) qs cs s = run-append rs qs (resume i ec cs s).0 (resume i ec cs s).1

-- Once the connection or a request of one client fails, whatever came before, no client ever shuts the
-- listener down, whatever comes after.
pub run-never_shut_down :
    (before behind : List (ℕ × ErrorCode)) (i : ℕ) (ec : ErrorCode)
    → is_error ec ≡ true
    → Waits i (run before (posted num_clients) no_requests).0
    → (run (before ++ ((i, ec) ∷ behind)) (posted num_clients) no_requests).1.shutdowns ≡ 0
unfolding run
run-never_shut_down before behind i ec e waits =
    let d = run before (posted num_clients) no_requests in
    let h = run-IsFleet before (posted num_clients) no_requests (posted-IsFleet num_clients) in
    let f = resume i ec d.0 d.1 in
    let k = run-IsFleet behind f.0 f.1 (resume-IsFleet i ec d.0 d.1 h) in
    let lost = run-HasLost behind f.0 f.1 (resume-fails i ec d.0 d.1 h.within e waits) in
    let few = lost-sum (run behind f.0 f.1).0 k.within lost in
    let s = (run behind f.0 f.1).1 in
    let never : s.shutdowns ≡ 0 = elim (counted-shutdowns s k.shut_down) [
      | inl (once, all) ↦ absurd (omega (arith, k.many, k.counted))
      | inr (none, some_left) ↦ none
    ] in
    ap (λ (w : List Client × Shared). w.1.shutdowns)
      (run-append before ((i, ec) ∷ behind) (posted num_clients) no_requests)
    ∙ never
