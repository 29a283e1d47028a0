-- ===== src/Proxy/Connection.antt =====
-- src/proxy.cpp: async_connect_op, which serves one client by tunnels and relays in turn and then
-- shuts both sessions down.
use foxy.Base.{Bool, ◌||◌, List, [], ◌∷◌, if◌then◌else◌}
use foxy.Net.{ErrorCode, success, eof, is_error}

pub data Action : Type 0 where
  async_tunnel : Action
  async_relay : Action
  shutdown_session : Action
  shutdown_client : Action
  log_error : ErrorCode → Action

pub data Point : Type 0 where
  tunnelling : Point
  relaying : Point
  closing_session : Point
  closing_client : Point
  finished : Point

-- The point, and the actions so far, the last one first.
pub record Machine : Type 0 where
  pub point : Point
  pub trace : List Action

-- What the pending operation reports; a shutdown leaves close_tunnel false.
pub record Reply : Type 0 where
  pub ec : ErrorCode
  pub close_tunnel : Bool

abbrev pub yield : Action → Point → Machine → Machine
yield a p m = record { point = p; trace = a ∷ m.trace }

abbrev pub initial : Machine
initial = record { point = tunnelling; trace = async_tunnel ∷ [] }

-- Both `break`s of a half of the loop.
unfoldable pub ends : Reply → Bool
ends r = is_error r.ec || r.close_tunnel

-- An end of file is no error of a shutdown.
unfoldable pub forgive : ErrorCode → ErrorCode
forgive eof = success
forgive ec = ec

unfoldable pub after_shutdown : ErrorCode → Machine → Machine
unfolding forgive
after_shutdown ec m =
    let ec' = forgive ec in
    if is_error ec' then yield (log_error ec') finished m else record m { point = finished }

unfoldable pub resume_at : Point → Reply → Machine → Machine
unfolding ends after_shutdown
resume_at tunnelling r m =
    if ends r then yield shutdown_session closing_session m else yield async_relay relaying m
resume_at relaying r m =
    if ends r then yield shutdown_session closing_session m else yield async_tunnel tunnelling m
resume_at closing_session r m = yield shutdown_client closing_client m
resume_at closing_client r m = after_shutdown r.ec m
resume_at finished r m = m

unfoldable pub resume : Reply → Machine → Machine
unfolding resume_at
resume r m = resume_at m.point r m

unfoldable pub run : List Reply → Machine → Machine
unfolding resume
run [] m = m
run (r ∷ rs) m = run rs (resume r m)
