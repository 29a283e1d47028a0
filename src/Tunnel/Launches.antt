-- ===== src/Tunnel/Launches.antt =====
-- The invariant of the tunnel, and that launching an operation keeps it.
use foxy.Base.{
  Bool, true, false, not, List, [], ◌∷◌, ◌++◌, Text, ◌≡◌, refl, ◌∙◌, ap, ◌⊎◌, inl, inr, arith,
  if_cases,
}
use foxy.X3.Library.{X3}
use foxy.UriParts.{is_absolute, is_http}
use foxy.ParseUri.{parse_uri}
use foxy.Net.{ErrorCode, success, is_error}
use foxy.Tunnel.{
  Request, Body, persistent_needed, unable_to_connect, malformed, Action, read_header,
  async_connect, relay, detect_ssl, complete, Point, reading_header, writing_persistent, connecting,
  writing_unable, writing_malformed, relaying, writing_ok, detecting, finished, Machine, Reply,
  yield, initial, no_request, upcall, after_loop, after_refusal,
}
use foxy.Tunnel.Order.{
  refusal, established, IsOpen, last_read, AsksTunnel, AsksProxy, Follows, Ordered, first, then_,
  answer_failed, persists, refusal_detects,
}

module _ (x : X3) (client_is_ssl : Bool) where
  -- What the machine knows of the request `q` while it connects.
  pub record Decided (q : Request) (m : Machine) : Type 0 where
    pub stays_open : m.close_tunnel ≡ false
    pub request_is : m.request ≡ q
    pub parts_are : m.uri_parts ≡ parse_uri x q.target
    pub absolute_is : m.absolute ≡ is_absolute (parse_uri x q.target)
    pub http_is : m.http ≡ is_http (parse_uri x q.target)
    pub asks : (AsksTunnel x client_is_ssl q × (q.keep_alive ≡ true)) ⊎ AsksProxy x client_is_ssl q

  -- The pending action of each point, and what is known there.
  abbrev Pending : Request → Point → Machine → Action → Type 0
  Pending q reading_header m a = (a ≡ read_header) × (m.close_tunnel ≡ false)
  Pending q writing_persistent m a = (a ≡ refusal persistent_needed) × (m.close_tunnel ≡ true)
  Pending q connecting m a = (h s : Text) × (a ≡ async_connect h s) × Decided q m
  Pending q writing_unable m a =
      (a ≡ refusal unable_to_connect) × (m.close_tunnel ≡ false) × (m.request ≡ q)
  Pending q writing_malformed m a =
      (a ≡ refusal malformed) × (m.close_tunnel ≡ false) × (m.request ≡ q)
  Pending q relaying m a = (r : Request) × (a ≡ relay r) × (m.close_tunnel ≡ false)
  Pending q writing_ok m a = (a ≡ established) × (m.close_tunnel ≡ false)
  Pending q detecting m a = (a ≡ detect_ssl) × (m.close_tunnel ≡ false)
  Pending q finished m a = (ec : ErrorCode) × (close : Bool) × (a ≡ complete ec close)

  pub record Inv (rs : List Reply) (m : Machine) : Type 0 where
    pub read : Request
    pub last : Action
    pub before : List Action
    pub trace_is : m.trace ≡ last ∷ before
    pub ordered : Ordered x client_is_ssl rs read (last ∷ before)
    pub pending : Pending read m.point m last

  pub initial-Inv : Inv [] initial
  initial-Inv = record {
    read = no_request;
    last = read_header;
    before = [];
    trace_is = refl;
    ordered = first;
    pending = (refl, refl);
  }

  module _ {rs : List Reply} (rep : Reply) (m m' : Machine) (a : Action) (v : Inv rs m) where
    -- One more action, launched by a machine with the same trace.
    pub push :
        (b : Action) (p : Point)
        → v.last ≡ a
        → Follows x client_is_ssl (last_read a rep v.read) rep a b
        → m'.trace ≡ m.trace
        → Pending (last_read a rep v.read) p (yield b p m') b
        → Inv (rs ++ (rep ∷ [])) (yield b p m')
    push b p e f t known =
        let past : Ordered x client_is_ssl rs v.read (a ∷ v.before) = rw (← e) v.ordered in
        record {
          read = last_read a rep v.read;
          last = b;
          before = a ∷ v.before;
          trace_is = ap (◌∷◌ b) (t ∙ (v.trace_is ∙ ap (λ l. l ∷ v.before) e));
          ordered = then_ rep f past;
          pending = known;
        }

    -- The machine ends with the code that it was given.
    pub upcall-Inv :
        (close : Bool)
        → v.last ≡ a
        → m'.close_tunnel ≡ close
        → Follows x client_is_ssl (last_read a rep v.read) rep a (complete rep.ec close)
        → m'.trace ≡ m.trace
        → Inv (rs ++ (rep ∷ [])) (upcall rep.ec m')
    unfolding upcall
    upcall-Inv close e c f t =
        push (complete rep.ec m'.close_tunnel) finished e (rw c f) t (rep.ec, m'.close_tunnel, refl)

    pub after_loop-Inv :
        v.last ≡ a
        → ((m'.close_tunnel ≡ false)
            × Follows x client_is_ssl (last_read a rep v.read) rep a detect_ssl)
          ⊎ ((m'.close_tunnel ≡ true)
              × Follows x client_is_ssl (last_read a rep v.read) rep a (complete success true))
        → m'.trace ≡ m.trace
        → Inv (rs ++ (rep ∷ [])) (after_loop m')
    unfolding after_loop
    after_loop-Inv e (inl (c, f)) t =
        if_cases (Inv (rs ++ (rep ∷ []))) (not m'.close_tunnel) _ _
          (λ h. push detect_ssl detecting e f t (refl, c)) (λ h. absurd (ground (arith, c, h)))
    after_loop-Inv e (inr (c, f)) t =
        if_cases (Inv (rs ++ (rep ∷ []))) (not m'.close_tunnel) _ _
          (λ h. absurd (ground (arith, c, h)))
          (λ h.
            push (complete success m'.close_tunnel) finished e (rw c f) t
              (success, m'.close_tunnel, refl))

  pub after_refusal-Inv :
      {rs : List Reply} (rep : Reply) (m : Machine) (b : Body) (v : Inv rs m)
      → v.last ≡ refusal b
      → m.close_tunnel ≡ false
      → m.request ≡ v.read
      → IsOpen b
      → Inv (rs ++ (rep ∷ [])) (after_refusal rep.ec m)
  unfolding after_refusal
  after_refusal-Inv {rs} rep m b v e c same o =
      if_cases (Inv (rs ++ (rep ∷ []))) (is_error rep.ec) _ _
        (λ bad. upcall-Inv rep m m (refusal b) v false e c (answer_failed b o bad) refl)
        λ fine.
          if_cases (Inv (rs ++ (rep ∷ []))) m.request.keep_alive _ _
            (λ keep.
              push rep m (record m { request = no_request }) (refusal b) v read_header
                reading_header e (persists b o fine (rw (← same) keep)) refl (refl, c))
            (λ drop.
              after_loop-Inv rep m m (refusal b) v e
                (inl (c, refusal_detects b o fine (rw (← same) drop))) refl)
