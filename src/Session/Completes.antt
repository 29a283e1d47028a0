-- ===== src/Session/Completes.antt =====
-- Coroutines in sequence.
use foxy.Base.{ℕ, List, [], ◌∷◌, ◌++◌, ◌≡◌, refl, ap}
use foxy.Net.{ErrorCode}
use foxy.Session.{
  Action, Answer, Coroutine, act, complete, throws, terminates, after, completed, run,
}

-- What comes after the first coroutine has completed, with its answer.
unfoldable pub bind : Coroutine → (Answer → Coroutine) → Coroutine
bind (act a k) f = act a (λ r. bind (k r) f)
bind (complete ec n) f = f (record { ec = ec; bytes_transferred = n })
bind (throws ec) f = throws ec
bind terminates f = terminates

-- A coroutine that uses up these answers, does these actions and completes with this answer.
pub data Completes : Coroutine → List Answer → List Action → Answer → Type 0 where
  at_once :
      (ec : ErrorCode) (n : ℕ)
      → Completes (complete ec n) [] [] (record { ec = ec; bytes_transferred = n })
  acts :
      {a : Action} {k : Answer → Coroutine} {r : Answer} {rs : List Answer} {done : List Action}
      {z : Answer}
      → Completes (k r) rs done z
      → Completes (act a k) (r ∷ rs) (a ∷ done) z

pub Completes-bind :
    {c : Coroutine} {rs : List Answer} {done : List Action} {z : Answer} (f : Answer → Coroutine)
    {ss : List Answer} {more : List Action} {y : Answer}
    → Completes c rs done z
    → Completes (f z) ss more y
    → Completes (bind c f) (rs ++ ss) (done ++ more) y
unfolding bind
Completes-bind f (at_once ec n) d = d
Completes-bind f (acts c) d = acts (Completes-bind f c d)

pub Completes-run :
    {c : Coroutine} {rs : List Answer} {done : List Action} {z : Answer}
    → Completes c rs done z
    → run c rs ≡ record { done = done; result = completed z }
unfolding run
Completes-run (at_once ec n) = refl
Completes-run (acts {a} c) = ap (after a) (Completes-run c)
