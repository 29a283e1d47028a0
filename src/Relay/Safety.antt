-- ===== src/Relay/Safety.antt =====
-- That the relay keeps to its order.
use foxy.Base.{false, [], ◌∷◌, refl}
use foxy.Base.Trace.{first}
use foxy.X3.Library.{X3}
use foxy.Net.{success}
use foxy.Fields.{Beast}
use foxy.Relay.{Semantics, Half, construct, finished, Machine, new_half}
use foxy.Relay.Launches.{Inv}

module _ (b : Beast) (x : X3) (sem : Semantics) where
  -- The machine that has been made and has launched nothing.
  abbrev made : Half → Machine
  made h = record {
    req = h;
    res = new_half;
    ec = success;
    close_tunnel = false;
    point = finished;
    trace = construct ∷ [];
  }

  made-Inv : (h : Half) → Inv b x sem (made h)
  made-Inv h = record {
    last = construct;
    before = [];
    trace_is = refl;
    ordered = first;
    pending = tt;
  }
