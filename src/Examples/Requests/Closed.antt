-- ===== src/Examples/Requests/Closed.antt =====
-- How the clients of the examples end.
use foxy.Base.{
  ◌≡◌, ◌≢◌, refl, Bool, true, false, ◌&&◌, Option, none, some, List, [], ◌∷◌, ◌↔◌, ltb, ◌==◌,
  if◌then◌else◌, Text, codes, length, arith,
}
use foxy.Net.{ErrorCode, is_error}
use foxy.Examples.Requests.{
  Action, print_error, Ending, returned, thrown, valid, Answer, run, close_socket, upcall,
  request_op, hello_world, server_client, is_page, client_op, exit_code,
}

abbrev pub first_error : List Answer → Option ErrorCode
first_error [] = none
first_error (r ∷ answers) = if is_error r.ec then some r.ec else first_error answers

-- What a client that throws the first error ends with.
abbrev pub or_thrown : Option ErrorCode → Ending
or_thrown none = returned
or_thrown (some ec) = thrown ec

-- The printed errors, the calls that close the socket and those that shut the listener down.
abbrev pub printed : List Action → List ErrorCode
printed [] = []
printed (print_error ec ∷ done) = ec ∷ printed done
printed (a ∷ done) = printed done

abbrev pub one_error : Option ErrorCode → List ErrorCode
one_error none = []
one_error (some ec) = ec ∷ []

module _ (r q s c p e : Answer) where
  hello_world-endings :
      (run hello_world (r ∷ q ∷ s ∷ c ∷ p ∷ e ∷ [])).endings
      ≡ or_thrown (first_error (r ∷ q ∷ s ∷ c ∷ [])) ∷ []
  unfolding run hello_world close_socket
  hello_world-endings = ground arith

  server_client-endings :
      (run server_client (r ∷ q ∷ p ∷ s ∷ c ∷ e ∷ [])).endings
      ≡ or_thrown (first_error (r ∷ q ∷ s ∷ c ∷ [])) ∷ []
  unfolding run server_client close_socket
  server_client-endings = ground arith

  request_op-printed :
      printed (run request_op (r ∷ q ∷ s ∷ c ∷ p ∷ e ∷ [])).done
      ≡ one_error (first_error (r ∷ q ∷ []))
  unfolding run request_op close_socket upcall
  request_op-printed = ground arith

  request_op-endings :
      (run request_op (r ∷ q ∷ s ∷ c ∷ p ∷ e ∷ [])).endings
      ≡ (if is_error r.ec
          then returned
          else if is_error q.ec
          then returned
          else or_thrown (first_error (s ∷ c ∷ [])))
        ∷ []
  unfolding run request_op close_socket upcall
  request_op-endings = ground arith

  -- Given answers to all they do, the clients of hello_world and server throw the first error of the
  -- connection, the request and the two calls that close the socket, and return if there is none.
  -- That of user-install prints an error of the first two and then returns, and throws one of the last.
  pub run-first_error :
      ((run hello_world (r ∷ q ∷ s ∷ c ∷ p ∷ e ∷ [])).endings
        ≡ or_thrown (first_error (r ∷ q ∷ s ∷ c ∷ [])) ∷ [])
      × ((run server_client (r ∷ q ∷ p ∷ s ∷ c ∷ e ∷ [])).endings
          ≡ or_thrown (first_error (r ∷ q ∷ s ∷ c ∷ [])) ∷ [])
      × (printed (run request_op (r ∷ q ∷ s ∷ c ∷ p ∷ e ∷ [])).done
          ≡ one_error (first_error (r ∷ q ∷ [])))
      × ((run request_op (r ∷ q ∷ s ∷ c ∷ p ∷ e ∷ [])).endings
          ≡ (if is_error r.ec
              then returned
              else if is_error q.ec
              then returned
              else or_thrown (first_error (s ∷ c ∷ [])))
            ∷ [])
  run-first_error =
      (hello_world-endings, server_client-endings, request_op-printed, request_op-endings)

nonempty-ltb : (body : Text) → (ltb 0 (length body) ≡ true) ↔ (body ≢ [])
nonempty-ltb [] = (λ e. cc, λ n. absurd (n refl))
nonempty-ltb (c ∷ body) = (λ e f. cc, λ n. ground arith)

&&-parts : (a b c : Bool) → ((a && b && c) ≡ true) ↔ ((a ≡ true) × (b ≡ true) × (c ≡ true))
&&-parts a b c = ground arith

module _ (ends_with : Text → Text → Bool) where
  abbrev pub IsPage : Answer → Type 0
  IsPage q = (q.result ≡ 200) × (q.body ≢ []) × (ends_with q.body (codes "</html>") ≡ true)

  is_page-IsPage : (q : Answer) → (is_page ends_with q ≡ true) ↔ IsPage q
  unfolding is_page
  is_page-IsPage q =
      let parts =
        &&-parts (q.result == 200) (ltb 0 (length q.body)) (ends_with q.body (codes "</html>")) in
      let full = nonempty-ltb q.body in
      (
        λ e. let (status, long, page) = parts.0 e in (ground arith, full.0 long, page),
        λ (status, long, page). parts.1 (ground arith, full.1 long, page),
      )

  abbrev was_valid : Answer → Answer → Bool
  was_valid r q =
      if is_error r.ec then false else if is_error q.ec then false else is_page ends_with q

  client_op-valid :
      (r q : Answer) → (run (client_op ends_with) (r ∷ q ∷ [])).endings ≡ valid (was_valid r q) ∷ []
  unfolding run client_op
  client_op-valid r q = ground arith

  exit_code-zero : (v : Bool) → (exit_code v ≡ 0) ↔ (v ≡ true)
  unfolding exit_code
  exit_code-zero v = ground arith

  was_valid-IsPage :
      (r q : Answer)
      → (was_valid r q ≡ true) ↔ ((is_error r.ec ≡ false) × (is_error q.ec ≡ false) × IsPage q)
  was_valid-IsPage r q =
      let page = is_page-IsPage q in
      (
        λ e. (ground arith, ground arith, page.0 (ground arith)),
        λ (connected, answered, is_one). rw connected (rw answered (page.1 is_one)),
      )

  -- The example of allocators exits with 0 just where it connects, the request succeeds and the
  -- response has the status 200 and a body that is not empty and ends like a page.
  pub client_op-exit_code :
      (r q : Answer)
      → (v : Bool) × ((run (client_op ends_with) (r ∷ q ∷ [])).endings ≡ valid v ∷ [])
        × ((exit_code v ≡ 0) ↔ ((is_error r.ec ≡ false) × (is_error q.ec ≡ false) × IsPage q))
  client_op-exit_code r q =
      let zero = exit_code-zero (was_valid r q) in
      let page = was_valid-IsPage r q in
      (was_valid r q, client_op-valid r q, (λ e. page.0 (zero.0 e), λ h. zero.1 (page.1 h)))
