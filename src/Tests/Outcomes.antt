-- ===== src/Tests/Outcomes.antt =====
-- Requests for the tunnel and the relay, and their bytes.
use foxy.Base.{
  ◌+◌, ◌≡◌, refl, true, false, none, some, List, [], ◌∷◌, ◌++◌, inr, All, Text, codes, length,
  arith,
}
use foxy.X3.Reference.{reference}
use foxy.X3.Ascii.{IsAscii}
use foxy.Net.{success, other, is_error}
use foxy.UriParts.{is_authority, is_absolute, is_http}
use foxy.ParseUri.{parse_uri}
use foxy.Fields.{Fields, has_foxy_via}
use foxy.Fields.Reference.{beast_reference}
use foxy.Fields.Via.{names_foxy, has_foxy_via-names_foxy}
use foxy.Pct.Decode.{decode_round, decode_loop}
use foxy.Pct.Decode.Halts.{decode_loop-halts}
use foxy.Uri.Standard
use foxy.Uri.Standard.{ip_v4_address}
use foxy.Uri.Octets.Alternatives.{IsOctet}
use foxy.Uri.Octets.{ip_v4_address-IsOctet}
use foxy.Tunnel.{connect, other_verb, Request, read_header, unable_to_connect}
use foxy.Tunnel.Order.{AsksTunnel, AsksProxy, refusal}
use foxy.Tunnel.Requests.{report, next, connection_for, served}
use foxy.Tunnel.Outcomes.{run-unable_to_connect}
use foxy.Relay
use foxy.Relay.Persistence.{headers, IsPersistent, run-IsPersistent}

abbrev pub tunnelled : Request
tunnelled = record { target = codes "a.b:443"; method = connect; keep_alive = true; host = none }

abbrev pub proxied : Request
proxied = record {
  target = codes "http://a.b/c";
  method = other_verb 1;
  keep_alive = true;
  host = none;
}

pub tunnelled-AsksTunnel : AsksTunnel reference true tunnelled
unfolding parse_uri is_authority reference Standard.scheme Standard.userinfo Standard.host
    Standard.path_abempty Standard.port Standard.query Standard.fragment Standard.path_empty
tunnelled-AsksTunnel = (refl, refl)

pub proxied-AsksProxy : AsksProxy reference true proxied
unfolding parse_uri is_absolute is_http reference Standard.scheme Standard.userinfo Standard.host
    Standard.path_abempty Standard.port Standard.query Standard.fragment
proxied-AsksProxy = (refl, refl)

other-is_error : is_error (other 1) ≡ true
unfolding is_error
other-is_error = refl

run-unable_to_connect_example :
    (served reference true proxied (report (other 1) ∷ report success ∷ [])).trace
    ≡ next proxied
      ∷ refusal unable_to_connect
      ∷ connection_for reference true proxied
      ∷ read_header
      ∷ []
run-unable_to_connect_example =
    run-unable_to_connect reference true proxied (other 1) (inr proxied-AsksProxy) other-is_error

-- Another proxy's Via, and then foxy's.
abbrev two_vias : Fields
two_vias =
    record { name = codes "Via"; value = codes "1.0 fred" }
    ∷ record { name = codes "Via"; value = codes "1.0 x, 1.1 FOXY" }
    ∷ []

has_foxy_via-names_foxy_example :
    has_foxy_via beast_reference reference two_vias ≡ names_foxy beast_reference two_vias
has_foxy_via-names_foxy_example = has_foxy_via-names_foxy reference beast_reference two_vias

decode_loop-halts_example :
    (decode_round reference (decode_loop reference (length (codes "a%41%4")) (codes "a%41%4") []).1
      ≡ none)
    × (decode_loop reference (length (codes "a%41%4") + 5) (codes "a%41%4") []
        ≡ decode_loop reference (length (codes "a%41%4")) (codes "a%41%4") [])
decode_loop-halts_example = decode_loop-halts reference 5 (codes "a%41%4") []

abbrev address : Text
address = codes "10.0.200.255/x"

address-IsAscii : All IsAscii address
address-IsAscii = omega arith

address-parse : reference.parse ip_v4_address address ≡ some (codes "/x")
unfolding reference ip_v4_address
address-parse = refl

ip_v4_address-IsOctet_example :
    (a b c d : Text) × (address ≡ a ++ (b'.' ∷ (b ++ (b'.' ∷ (c ++ (b'.' ∷ (d ++ codes "/x")))))))
    × IsOctet a
    × IsOctet b
    × IsOctet c
    × IsOctet d
ip_v4_address-IsOctet_example =
    ip_v4_address-IsOctet reference address (codes "/x") address-IsAscii address-parse

abbrev pub semantics : Relay.Semantics
semantics = record {
  keep_alive = λ m. true;
  chunked = λ m. false;
  set_close = λ m. m;
  set_chunked = λ m. m;
}

-- A message of one header, and how it is reported with no body left.
abbrev pub message : Relay.Message
message = record { version = 11; fields = [] }

abbrev reported : Relay.Reply
reported = record { ec = success; message = message; done = true; left = 0 }

-- For each side a header is read and written, and an empty last part of the body.
abbrev pub exchange : List Relay.Reply
exchange = reported ∷ reported ∷ reported ∷ reported ∷ reported ∷ reported ∷ []

abbrev pub relayed : Relay.Machine
relayed =
    Relay.run beast_reference reference semantics exchange
      (Relay.initial beast_reference reference semantics)

abbrev behind : List Relay.Action → List Relay.Action
behind [] = []
behind (a ∷ before) = before

abbrev actions_before : List Relay.Action
actions_before = behind relayed.trace

relayed-complete : relayed.trace ≡ Relay.complete success false ∷ actions_before
unfolding Relay.run Relay.resume reference is_error
relayed-complete = refl

run-IsPersistent_example :
    (success ≡ success)
    × All (IsPersistent beast_reference reference semantics) (
        headers beast_reference reference semantics exchange
          (Relay.initial beast_reference reference semantics))
run-IsPersistent_example =
    run-IsPersistent beast_reference reference semantics exchange success actions_before
      relayed-complete
