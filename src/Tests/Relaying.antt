-- ===== src/Tests/Relaying.antt =====
-- Sequences of events for the relay.
use foxy.Base.{◌≡◌, refl, inl, true, false, List, [], ◌∷◌, codes}
use foxy.X3.Reference.{reference}
use foxy.Net.{success, need_buffer, other, is_error, is_need_buffer}
use foxy.UriParts.{equal}
use foxy.Fields.{has_foxy_via}
use foxy.Fields.Reference.{beast_reference}
use foxy.Relay.{
  Message, Semantics, construct, read_header, request, response, finished, Reply, run, clear,
  initial, initial_with,
}
use foxy.Relay.Bodies.{taken, parts}
use foxy.Relay.Failures.{reported, failed, run-failure}
use foxy.Relay.Exchange.{Relayed, reports, exchanged, IsHeaded, IsRelayed, run-exchange}

-- Every message is persistent and none is chunked.
abbrev pub semantics : Semantics
semantics = record {
  keep_alive = λ m. true;
  chunked = λ m. false;
  set_close = λ m. m;
  set_chunked = λ m. m;
}

abbrev header : Message
header = record {
  version = 11;
  fields =
      record { name = codes "Host"; value = codes "h" }
      ∷ record { name = codes "Connection"; value = codes "close" }
      ∷ [];
}

-- A header is read and written, and a body of 48 bytes.
abbrev replies : List Reply
replies =
    record { ec = success; message = header; done = false; left = 0 }
    ∷ record { ec = success; message = header; done = false; left = 0 }
    ∷ record { ec = need_buffer; message = header; done = true; left = 2000 }
    ∷ record { ec = need_buffer; message = header; done = false; left = 0 }
    ∷ []

-- A request with no body, and a response with a body of 2096 bytes.
abbrev pub asked : Relayed
asked = record {
  head = record { ec = success; message = header; done = true; left = 0 };
  sent = record { ec = success; message = header; done = false; left = 0 };
  body = taken (record { ec = need_buffer; message = header; done = false; left = 0 });
}

abbrev pub answered : Relayed
answered = record {
  head = record { ec = success; message = header; done = false; left = 0 };
  sent = record { ec = success; message = header; done = false; left = 0 };
  body =
      parts
        ((
          record { ec = need_buffer; message = header; done = false; left = 0 },
          record { ec = need_buffer; message = header; done = false; left = 0 },
        )
          ∷ [])
        (record { ec = need_buffer; message = header; done = true; left = 2000 })
        (record { ec = success; message = header; done = true; left = 0 });
}

pub asked-IsRelayed : IsRelayed beast_reference reference semantics asked
unfolding is_error clear is_need_buffer has_foxy_via equal
asked-IsRelayed = record {
  headed = record { head = refl; fresh = refl; sent = refl; done = refl };
  body = refl;
}

pub answered-IsRelayed : IsRelayed beast_reference reference semantics answered
unfolding is_error clear is_need_buffer has_foxy_via equal
answered-IsRelayed = record {
  headed = record { head = refl; fresh = refl; sent = refl; done = refl };
  body = ((((refl, refl), refl, refl), tt), (refl, refl), inl refl);
}

run-exchange_example :
    ((run beast_reference reference semantics
        (asked.head ∷ reports asked answered)
        (initial beast_reference reference semantics)).point
      ≡ finished)
    × ((run beast_reference reference semantics
          (asked.head ∷ reports asked answered)
          (initial beast_reference reference semantics)).trace
        ≡ exchanged beast_reference reference semantics asked answered
            (read_header request ∷ construct ∷ []))
    × ((run beast_reference reference semantics
          (reports asked answered)
          (initial_with beast_reference reference semantics header true)).point
        ≡ finished)
    × ((run beast_reference reference semantics
          (reports asked answered)
          (initial_with beast_reference reference semantics header true)).trace
        ≡ exchanged beast_reference reference semantics asked answered (construct ∷ []))
run-exchange_example =
    run-exchange beast_reference reference semantics asked answered asked-IsRelayed
      answered-IsRelayed

-- The body of the response cannot be read, and what was read of it is written.
abbrev cut_off : Relayed
cut_off = record {
  head = record { ec = success; message = header; done = false; left = 0 };
  sent = record { ec = success; message = header; done = false; left = 0 };
  body =
      parts [] (record { ec = other 1; message = header; done = false; left = 2048 })
        (record { ec = need_buffer; message = header; done = false; left = 0 });
}

cut_off-IsHeaded : IsHeaded beast_reference reference semantics cut_off
unfolding is_error clear is_need_buffer has_foxy_via equal
cut_off-IsHeaded = record { head = refl; fresh = refl; sent = refl; done = refl }

other_fails : is_error (clear (other 1)) ≡ true
unfolding is_error clear is_need_buffer
other_fails = refl

run-failure_example :
    ((run beast_reference reference semantics
        (reported beast_reference reference semantics response asked cut_off [])
        (initial beast_reference reference semantics)).point
      ≡ finished)
    × ((run beast_reference reference semantics
          (reported beast_reference reference semantics response asked cut_off [])
          (initial beast_reference reference semantics)).trace
        ≡ failed beast_reference reference semantics response asked cut_off)
run-failure_example =
    run-failure beast_reference reference semantics response asked cut_off []
      (asked-IsRelayed, cut_off-IsHeaded, (tt, inl other_fails))
