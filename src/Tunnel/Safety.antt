-- ===== src/Tunnel/Safety.antt =====
-- The order in which the tunnel acts, whatever the client, the remote and the network report.
use foxy.Base.{
  Bool, true, false, not, ◌&&◌, ◌||◌, some, List, [], ◌∷◌, ◌++◌, append_assoc, append-nil, Text,
  ◌≡◌, refl, inl, inr, if_cases,
}
use foxy.X3.Library.{X3}
use foxy.UriParts.{is_authority, is_absolute, is_http}
use foxy.ParseUri.{parse_uri}
use foxy.Net.{success, is_error}
use foxy.Tunnel.{
  Request, persistent_needed, unable_to_connect, malformed, read_header, async_connect, relay,
  detect_ssl, complete, Point, reading_header, writing_persistent, connecting, writing_unable,
  writing_malformed, relaying, writing_ok, detecting, finished, Machine, Reply, initial,
  origin_target, host_field, after_header, after_connect, is_connect, service, resume_at, resume,
  run,
}
use foxy.Tunnel.Order.{
  refusal, established, header_failed, refuses_one_shot, refuses_malformed, connects,
  refusal_failed, refused, connect_failed, relays, establishes, relay_failed, relayed, write_failed,
  detects, detected, Ordered, ended,
}
use foxy.Tunnel.Decision.{one_shot-asks, proper-asks, improper-asks}
use foxy.Tunnel.Decided.{asks_proxy, asks_tunnel, origin_target-IsRelayed}
use foxy.Tunnel.Launches.{
  Decided, Inv, initial-Inv, push, upcall-Inv, after_loop-Inv, after_refusal-Inv,
}

module _ (x : X3) (client_is_ssl : Bool) where
  after_header-Inv :
      {rs : List Reply} (r : Reply) (m : Machine) (v : Inv x client_is_ssl rs m)
      → v.last ≡ read_header
      → m.close_tunnel ≡ false
      → Inv x client_is_ssl (rs ++ (r ∷ [])) (after_header x client_is_ssl r m)
  unfolding after_header
  after_header-Inv {rs} r m v e c =
      let u = parse_uri x r.request.target in
      let m' = record m {
        request = r.request;
        uri_parts = u;
        authority = is_authority u;
        connects = is_connect r.request.method;
        absolute = is_absolute u;
        http = is_http u;
      } in
      if_cases (Inv x client_is_ssl (rs ++ (r ∷ []))) (is_error r.ec) _ _
        (λ bad.
          upcall-Inv x client_is_ssl r m (record m { request = r.request }) read_header v false e c
            (header_failed bad) refl)
        λ fine.
          if_cases (Inv x client_is_ssl (rs ++ (r ∷ [])))
            ((m'.connects && m'.authority) && not r.request.keep_alive) _ _
            (λ one_shot.
              let asks = one_shot-asks x client_is_ssl r.request one_shot in
              push x client_is_ssl r m (record m' { close_tunnel = true }) read_header v
                (refusal persistent_needed) writing_persistent e
                (refuses_one_shot fine asks.0 asks.1) refl (refl, refl))
            λ several.
              if_cases (Inv x client_is_ssl (rs ++ (r ∷ [])))
                ((m'.connects && m'.authority) || (m'.absolute && m'.http)) _ _
                (λ proper.
                  let asks = proper-asks x client_is_ssl r.request several proper in
                  push x client_is_ssl r m m' read_header v
                    (async_connect u.host (service client_is_ssl u)) connecting e
                    (connects fine asks) refl
                    (
                      u.host,
                      service client_is_ssl u,
                      refl,
                      record {
                        stays_open = c;
                        request_is = refl;
                        parts_are = refl;
                        absolute_is = refl;
                        http_is = refl;
                        asks = asks;
                      },
                    ))
                (λ improper.
                  let (no_tunnel, no_proxy) = improper-asks x client_is_ssl r.request improper in
                  push x client_is_ssl r m m' read_header v (refusal malformed) writing_malformed e
                    (refuses_malformed fine no_tunnel no_proxy) refl (refl, c, refl))

  after_connect-Inv :
      {rs : List Reply} (r : Reply) (m : Machine) (h s : Text) (v : Inv x client_is_ssl rs m)
      → v.last ≡ async_connect h s
      → Decided x client_is_ssl v.read m
      → Inv x client_is_ssl (rs ++ (r ∷ [])) (after_connect r.ec m)
  unfolding after_connect
  after_connect-Inv {rs} r m h s v e d =
      let sent = record m.request {
        target = origin_target m.request.method m.uri_parts;
        keep_alive = false;
        host = some (host_field m.uri_parts);
      } in
      if_cases (Inv x client_is_ssl (rs ++ (r ∷ []))) (is_error r.ec) _ _
        (λ bad.
          push x client_is_ssl r m m (async_connect h s) v (refusal unable_to_connect)
            writing_unable e (connect_failed h s bad) refl (refl, d.stays_open, d.request_is))
        λ fine.
          if_cases (Inv x client_is_ssl (rs ++ (r ∷ []))) (m.absolute && m.http) _ _
            (λ proxied.
              push x client_is_ssl r m (record m { request = sent }) (async_connect h s) v
                (relay sent) relaying e
                (relays h s sent fine (asks_proxy x client_is_ssl v.read m d proxied)
                  (origin_target-IsRelayed x client_is_ssl v.read m d))
                refl (sent, refl, d.stays_open))
            (λ tunnelled.
              push x client_is_ssl r m m (async_connect h s) v established writing_ok e
                (establishes h s fine (asks_tunnel x client_is_ssl v.read m d tunnelled)) refl
                (refl, d.stays_open))

  resume_at-Inv :
      {rs : List Reply} (p : Point) (r : Reply) (m : Machine)
      → m.point ≡ p
      → Inv x client_is_ssl rs m
      → Inv x client_is_ssl (rs ++ (r ∷ [])) (resume_at x client_is_ssl p r m)
  unfolding resume_at
  resume_at-Inv reading_header r m e v =
      let known = rw e at v.pending in after_header-Inv r m v known.0 known.1
  resume_at-Inv {rs} writing_persistent r m e v =
      let known = rw e at v.pending in
      if_cases (Inv x client_is_ssl (rs ++ (r ∷ []))) (is_error r.ec) _ _
        (λ bad.
          upcall-Inv x client_is_ssl r m m (refusal persistent_needed) v true known.0 known.1
            (refusal_failed bad) refl)
        (λ fine.
          after_loop-Inv x client_is_ssl r m m (refusal persistent_needed) v known.0
            (inr (known.1, refused fine)) refl)
  resume_at-Inv connecting r m e v =
      let (h, s, last, d) = rw e at v.pending in
      after_connect-Inv r m h s v last (record {
        stays_open = d.stays_open;
        request_is = d.request_is;
        parts_are = d.parts_are;
        absolute_is = d.absolute_is;
        http_is = d.http_is;
        asks = d.asks;
      })
  resume_at-Inv writing_unable r m e v =
      let known = rw e at v.pending in
      after_refusal-Inv x client_is_ssl r m unable_to_connect v known.0 known.1 known.2 (inl refl)
  resume_at-Inv writing_malformed r m e v =
      let known = rw e at v.pending in
      after_refusal-Inv x client_is_ssl r m malformed v known.0 known.1 known.2 (inr refl)
  resume_at-Inv {rs} relaying r m e v =
      let (q, last, close) = rw e at v.pending in
      if_cases (Inv x client_is_ssl (rs ++ (r ∷ []))) (is_error r.ec) _ _
        (λ bad.
          upcall-Inv x client_is_ssl r m m (relay q) v false last close (relay_failed q bad) refl)
        (λ fine.
          after_loop-Inv x client_is_ssl r m (record m { close_tunnel = true }) (relay q) v last
            (inr (refl, relayed q fine)) refl)
  resume_at-Inv {rs} writing_ok r m e v =
      let known = rw e at v.pending in
      if_cases (Inv x client_is_ssl (rs ++ (r ∷ []))) (is_error r.ec) _ _
        (λ bad.
          upcall-Inv x client_is_ssl r m (record m { close_tunnel = true }) established v true
            known.0 refl (write_failed bad) refl)
        (λ fine.
          after_loop-Inv x client_is_ssl r m (record m { close_tunnel = false }) established v
            known.0 (inl (refl, detects fine)) refl)
  resume_at-Inv detecting r m e v =
      let known = rw e at v.pending in
      push x client_is_ssl r m (record m { is_ssl = r.is_ssl }) detect_ssl v
        (complete success m.close_tunnel) finished known.0 (rw known.1 detected) refl
        (success, m.close_tunnel, refl)
  resume_at-Inv finished r m e v =
      let (ec, close, last) = rw e at v.pending in
      record {
        read = v.read;
        last = v.last;
        before = v.before;
        trace_is = v.trace_is;
        ordered = rw last (ended r (rw (← last) v.ordered));
        pending = v.pending;
      }

  run-Inv :
      (past rs : List Reply) (m : Machine)
      → Inv x client_is_ssl past m
      → Inv x client_is_ssl (past ++ rs) (run x client_is_ssl rs m)
  unfolding run resume
  run-Inv past [] m v = rw (append-nil past) v
  run-Inv past (r ∷ rs) m v = rw (← append_assoc past (r ∷ []) rs) (
      run-Inv (past ++ (r ∷ [])) rs (resume x client_is_ssl r m) (resume_at-Inv m.point r m refl v))

  -- Whatever is reported to the tunnel, its actions come in the order of `Follows`, one for each
  -- report, none for the reports after the completion, and each by what was reported and by the
  -- request that was read last. When the request has been read it connects, to the host of the
  -- request's target, exactly for a persistent CONNECT with an authority or an absolute HTTP target;
  -- it refuses the other requests, and completes when the read failed. After a connect it answers 200
  -- exactly to the CONNECT, and relays exactly the other request, with its method, in origin form,
  -- with a Host field and Connection: close; a failed connect is refused. After that refusal and the
  -- malformed one it reads on for a persistent request and detects TLS for another; it detects TLS
  -- after the 200 too, and completes after the refusal to a CONNECT that is not persistent and after a
  -- relay. A failed write or relay completes with its code.
  pub run-Ordered :
      (rs : List Reply)
      → (q : Request) × Ordered x client_is_ssl rs q (run x client_is_ssl rs initial).trace
  run-Ordered rs =
      let v = run-Inv [] rs initial (initial-Inv x client_is_ssl) in
      (v.read, rw v.trace_is v.ordered)
