-- ===== src/Tests/Wire.antt =====
-- Sequences of events for the timed operations, the tunnel and the header fields.
use mathlib.Core.List.{Perm}
use foxy.Base.{ℕ, ◌≡◌, refl, Bool, true, false, not, ◌↔◌, none, some, List, [], ◌∷◌, ◌++◌, codes}
use foxy.X3.Reference.{reference}
use foxy.Net.{success, operation_aborted}
use foxy.TimedOp.{State, initiate, on_complete, on_timer, completes, fires, Reach, here, next}
use foxy.TimedOp.Once.{reported, first_end, Phase, Reach-Phase, called_once}
use foxy.Tunnel.{Reply, Request, connect, no_request, initial, run}
use foxy.Tunnel.Order.{Ordered}
use foxy.Tunnel.Safety.{run-Ordered}
use foxy.Fields.{Field, Fields, export_connect_fields}
use foxy.Fields.ForHop.{IsForHop}
use foxy.Fields.Reference.{beast_reference}
use foxy.Fields.Exported.{keep, export_connect_fields_lem}

-- The operation reports 7, and then the aborted wait reports.
abbrev after_both : State ℕ
after_both = on_timer operation_aborted (on_complete 7 initiate)

after_both-Reach : Reach after_both
unfolding on_complete
after_both-Reach = next (next here (completes 7 refl)) (fires operation_aborted refl)

after_both-running : after_both.running ≡ false
unfolding on_timer on_complete
after_both-running = refl

after_both-waits : after_both.waits ≡ false
unfolding on_timer on_complete
after_both-waits = refl

Reach-Phase_example : Phase after_both (first_end after_both-Reach) (reported after_both-Reach)
Reach-Phase_example = Reach-Phase after_both-Reach

called_once_example :
    (args : ℕ) × (after_both.called ≡ args ∷ [])
    × (after_both.results ≡ some args)
    × (after_both.fault ≡ false)
called_once_example = called_once after_both-Reach after_both-running after_both-waits

abbrev start : State ℕ
start = initiate

-- CONNECT to a host, a connection, the 200, the detection.
abbrev replies : List Reply
replies =
    record {
      ec = success;
      request = record {
        target = codes "foxy.com:443";
        method = connect;
        keep_alive = true;
        host = none;
      };
      is_ssl = none;
    }
    ∷ record { ec = success; request = no_request; is_ssl = none }
    ∷ record { ec = success; request = no_request; is_ssl = none }
    ∷ record { ec = success; request = no_request; is_ssl = some true }
    ∷ []

run-Ordered_example :
    (q : Request) × Ordered reference false replies q (run reference false replies initial).trace
run-Ordered_example = run-Ordered reference false replies

abbrev header : Fields
header =
    record { name = codes "Connection"; value = codes "X" }
    ∷ record { name = codes "X"; value = codes "1" }
    ∷ record { name = codes "Host"; value = codes "h" }
    ∷ []

export_connect_fields_lem_example :
    (test : Field → Bool) × ((f : Field) → (test f ≡ true) ↔ IsForHop beast_reference header f)
    × ((export_connect_fields beast_reference header []).0 ≡ keep (λ f. not (test f)) header)
    × Perm (export_connect_fields beast_reference header []).1 (keep test header ++ [])
export_connect_fields_lem_example = export_connect_fields_lem beast_reference header []
