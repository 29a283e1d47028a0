-- ===== src/Proxy/Persistence.antt =====
-- src/proxy.cpp with include/foxy/detail/relay.hpp: when the operation for a client goes back to the
-- tunnel after a relay.
use foxy.Base.{
  false, Option, none, some, List, [], ◌∷◌, ◌≡◌, ◌∙◌, ap, All, Bool-cases, Option-cases, inl, inr,
  arith,
}
use foxy.X3.Library.{X3}
use foxy.Fields.{Beast}
use foxy.Relay
use foxy.Relay.{Semantics}
use foxy.Relay.Persistence.{headers, IsPersistent, run-IsPersistent}
use foxy.Proxy.Connection.{
  Action, async_tunnel, async_relay, shutdown_session, relaying, Machine, Reply, yield, ends,
  resume_at, resume,
}

-- What the relay hands to the operation that launched it.
unfoldable pub handed_by_relay : List Relay.Action → Option Reply
handed_by_relay (Relay.complete ec close_tunnel ∷ t) =
    some (record { ec = ec; close_tunnel = close_tunnel })
handed_by_relay t = none

-- An operation that waits for a relay, after the relay has completed, or `none` while it has not.
unfoldable pub after_relay : Relay.Machine → Machine → Option Machine
unfolding handed_by_relay
after_relay t m = elim (handed_by_relay t.trace) [
  | none ↦ none
  | some r ↦ some (resume r (yield async_relay relaying m))
]

some_injective {ℓ} : {A : Type ℓ} {a b : A} → some a ≡ some b → a ≡ b
some_injective e = cc

handed_by_relay-some :
    (t : List Relay.Action) (r : Reply)
    → handed_by_relay t ≡ some r
    → (before : List Relay.Action) × (t ≡ Relay.complete r.ec r.close_tunnel ∷ before)
unfolding handed_by_relay
handed_by_relay-some [] r e = absurd (cc)
handed_by_relay-some (Relay.complete ec close ∷ t) r e =
    let same : record { ec = ec; close_tunnel = close } ≡ r = some_injective e in
    (t, ap (λ (q : Reply). Relay.complete q.ec q.close_tunnel ∷ t) same)
handed_by_relay-some (Relay.construct ∷ t) r e = absurd (cc)
handed_by_relay-some (Relay.read_header s ∷ t) r e = absurd (cc)
handed_by_relay-some (Relay.write_header s h ∷ t) r e = absurd (cc)
handed_by_relay-some (Relay.read s ∷ t) r e = absurd (cc)
handed_by_relay-some (Relay.write s c ∷ t) r e = absurd (cc)

abbrev last_action : Machine → Option Action
last_action m = elim m.trace [ [] ↦ none | a ∷ t ↦ some a ]

ends-close_tunnel : (r : Reply) → ends r ≡ false → r.close_tunnel ≡ false
unfolding ends
ends-close_tunnel r h = ground (arith, h)

-- Going back to the tunnel means that the relay has not asked to close it.
goes_back :
    (r : Reply) (m : Machine)
    → last_action (resume r (yield async_relay relaying m)) ≡ some async_tunnel
    → r.close_tunnel ≡ false
unfolding resume resume_at
goes_back r m e = elim (Bool-cases (ends r)) [
  | inl over ↦ absurd (let bad : some shutdown_session ≡ some async_tunnel = rw over at e in cc)
  | inr go ↦ ends-close_tunnel r go
]

module _ (b : Beast) (x : X3) (sem : Semantics) where
  -- The operation for a client launches another tunnel after a relay only if every header that the
  -- relay has read, of the request and of the response, asked for a persistent connection.
  pub after_relay-async_tunnel :
      (rs : List Relay.Reply) (m m' : Machine)
      → after_relay (Relay.run b x sem rs (Relay.initial b x sem)) m ≡ some m'
      → last_action m' ≡ some async_tunnel
      → All (IsPersistent b x sem) (headers b x sem rs (Relay.initial b x sem))
  unfolding after_relay
  after_relay-async_tunnel rs m m' e last =
      let t = (Relay.run b x sem rs (Relay.initial b x sem)).trace in
      elim (Option-cases (handed_by_relay t)) [
        | inl f ↦ absurd (let bad : none ≡ some m' = rw (f, after_relay) at e in cc)
        | inr (r, f) ↦
            let same : some (resume r (yield async_relay relaying m)) ≡ some m' =
              rw (f, after_relay) at e in
            let (before, there) = handed_by_relay-some t r f in
            let is_open = goes_back r m (ap last_action (some_injective same) ∙ last) in
            (run-IsPersistent b x sem rs r.ec before (rw is_open at there)).1
      ]
