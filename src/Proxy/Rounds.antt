-- ===== src/Proxy/Rounds.antt =====
-- src/proxy.cpp with include/foxy/detail/tunnel.hpp and relay.hpp: a client that asks for tunnels and
-- has messages relayed through them.
use foxy.Base.{
  ℕ, zero, suc, Bool, true, false, ◌||◌, Option, some, List, [], ◌∷◌, ◌++◌, ◌≡◌, refl, length, All,
  ◌>>=◌, if◌then◌else◌, Bool-cases, inl, inr,
}
use foxy.X3.Library.{X3}
use foxy.Net.{success, is_error}
use foxy.Fields.{Beast}
use foxy.Tunnel.{Request, read_header, malformed}
use foxy.Tunnel.Order.{AsksTunnel, AsksProxy, refusal}
use foxy.Tunnel.Requests.{report, detection, next, served}
use foxy.Tunnel.Outcomes.{run-established, run-malformed}
use foxy.Relay
use foxy.Relay.{Semantics}
use foxy.Relay.Exchange.{Relayed, IsRelayed, reports, closes, run-exchange}
use foxy.Proxy.Connection.{
  Action, async_tunnel, async_relay, shutdown_session, tunnelling, relaying, closing_session,
  Machine, yield, initial, ends, resume_at, resume,
}
use foxy.Proxy.Composed.{handed}
use foxy.Proxy.Persistence.{handed_by_relay}

-- A CONNECT and what the detection of TLS says behind it; a request that is relayed, and its response.
pub record Round : Type 0 where
  pub connect : Request
  pub is_tls : Option Bool
  pub request : Relayed
  pub response : Relayed

module _ (b : Beast) (x : X3) (sem : Semantics) (client_is_ssl : Bool) where
  -- The operation for a client through a tunnel and a relay, or `none` where one of them is not over.
  abbrev pub one_round : Round → Machine → Option Machine
  one_round e m =
      handed
        (served x client_is_ssl e.connect
          (report success ∷ report success ∷ detection e.is_tls ∷ [])).trace
      >>= λ r.
          handed_by_relay
            (Relay.run b x sem (e.request.head ∷ reports e.request e.response)
              (Relay.initial b x sem)).trace
          >>= λ r'. some (resume r' (resume r m))

  abbrev pub rounds : List Round → Machine → Option Machine
  rounds [] m = some m
  rounds (e ∷ es) m = one_round e m >>= rounds es

  -- The CONNECT is persistent and names an authority, and nothing interrupts the two messages.
  pub record IsServed (e : Round) : Type 0 where
    pub connect : AsksTunnel x client_is_ssl e.connect
    pub keep_alive : e.connect.keep_alive ≡ true
    pub request : IsRelayed b x sem e.request
    pub response : IsRelayed b x sem e.response

  abbrev pub is_last : Round → Bool
  is_last e = closes b x sem e.request || closes b x sem e.response

  pub record IsKept (e : Round) : Type 0 where
    pub served : IsServed e
    pub kept : is_last e ≡ false

  abbrev after : Bool → Machine → Machine
  after last m =
      if last
      then yield shutdown_session closing_session (yield async_relay relaying m)
      else yield async_tunnel tunnelling (yield async_relay relaying m)

  one_round-served :
      (e : Round) (m : Machine)
      → m.point ≡ tunnelling
      → IsServed e
      → one_round e m ≡ some (after (is_last e) m)
  unfolding handed handed_by_relay resume resume_at ends is_error
  one_round-served e m p h =
      let tunnel = (run-established x client_is_ssl e.connect e.is_tls h.connect h.keep_alive).0 in
      let exchange = (run-exchange b x sem e.request e.response h.request h.response).1 in
      rw (tunnel, handed)
        (rw (exchange, handed_by_relay)
          (rw p (elim (Bool-cases (is_last e)) [ inl c ↦ rw c refl | inr c ↦ rw c refl ])))

  -- So many tunnels and relays in turn, the last action first.
  abbrev pub turns : ℕ → List Action → List Action
  turns zero t = t
  turns (suc n) t = turns n (async_tunnel ∷ async_relay ∷ t)

  abbrev waiting : List Action → Machine
  waiting t = record { point = tunnelling; trace = t }

  rounds-kept :
      (es : List Round) (e : Round) (t : List Action)
      → All IsKept es
      → IsServed e
      → rounds (es ++ e ∷ []) (waiting t) ≡ some (after (is_last e) (waiting (turns (length es) t)))
  rounds-kept [] e t h k = rw (one_round-served e (waiting t) refl k) refl
  rounds-kept (d ∷ es) e t h k =
      rw (one_round-served d (waiting t) refl h.0.served)
        (rw (h.0.kept) (rounds-kept es e (async_tunnel ∷ async_relay ∷ t) h.1 k))

  -- A client that opens each round with a persistent CONNECT, and whose messages ask to keep the
  -- connection, is relayed round after round; after a round with a message that does not, its sessions
  -- are shut down. After any round that it keeps the operation is back at a new tunnel: there a request
  -- that asks neither for a tunnel nor for a proxy, as one in origin form, is refused
  -- as malformed.
  pub rounds-served :
      (es : List Round) (e : Round) (r : Request)
      → All IsKept es
      → IsServed e
      → (AsksTunnel x client_is_ssl r → ⊥)
      → (AsksProxy x client_is_ssl r → ⊥)
      → (rounds (es ++ e ∷ []) initial
          ≡ some (
              if is_last e
              then record {
                point = closing_session;
                trace = shutdown_session ∷ async_relay ∷ turns (length es) (async_tunnel ∷ []);
              }
              else record {
                point = tunnelling;
                trace = async_tunnel ∷ async_relay ∷ turns (length es) (async_tunnel ∷ []);
              }))
        × ((served x client_is_ssl r (report success ∷ [])).trace
            ≡ next r ∷ refusal malformed ∷ read_header ∷ [])
  rounds-served es e r h k no_tunnel no_proxy =
      (rounds-kept es e (async_tunnel ∷ []) h k, run-malformed x client_is_ssl r no_tunnel no_proxy)
