-- ===== src/Listener/Connection.antt =====
-- include/foxy/listener.hpp: server_op, which serves one connection: the handshake, the user's
-- handler, the shutdown.
use foxy.Base.{Bool, List, [], ◌∷◌, if◌then◌else◌}
use foxy.Net.{ErrorCode, is_error}

pub data Action : Type 0 where
  async_handshake : Action
  run_handler : Action
  async_shutdown : Action

pub data Point : Type 0 where
  handshaking : Point
  handling : Point
  shutting_down : Point
  finished : Point

-- The point, and the actions so far, the last one first.
pub record Machine : Type 0 where
  pub point : Point
  pub trace : List Action

abbrev pub yield : Action → Point → Machine → Machine
yield a p m = record { point = p; trace = a ∷ m.trace }

-- server_op()(), for a stream that is TLS or not.
unfoldable pub start : Bool → Machine
start is_ssl =
    let none_yet : Machine = record { point = finished; trace = [] } in
    if is_ssl
    then yield async_handshake handshaking none_yet
    else yield run_handler handling none_yet

-- `if (ec) { goto shutdown; }` after the handler goes where the code goes anyway.
unfoldable pub resume_at : Point → ErrorCode → Machine → Machine
resume_at handshaking ec m =
    if is_error ec then yield async_shutdown shutting_down m else yield run_handler handling m
resume_at handling ec m = yield async_shutdown shutting_down m
resume_at shutting_down ec m = record m { point = finished }
resume_at finished ec m = m

unfoldable pub run : List ErrorCode → Machine → Machine
unfolding resume_at
run [] m = m
run (ec ∷ ecs) m = run ecs (resume_at m.point ec m)
