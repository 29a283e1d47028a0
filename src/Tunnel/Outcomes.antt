-- ===== src/Tunnel/Outcomes.antt =====
-- What becomes of a request that is served, refused or cannot be connected.
use foxy.Base.{
  Bool, true, false, not, Option, some, List, [], ◌∷◌, ◌≡◌, refl, ap, ◌∙◌, ◌⊎◌, Bool-cases, inl,
  inr,
}
use foxy.X3.Library.{X3}
use foxy.ParseUri.{parse_uri}
use foxy.Net.{ErrorCode, success, is_error}
use foxy.Tunnel.{
  Request, unable_to_connect, malformed, Action, read_header, relay, detect_ssl, complete,
  connecting, writing_unable, writing_malformed, yield, Machine, origin_target, host_field,
  after_header, after_connect, after_refusal, after_loop, upcall, resume_at, resume, run,
}
use foxy.Tunnel.Origin.{host_field-marked, origin_target-marked}
use foxy.Tunnel.Order.{refusal, established, AsksTunnel, AsksProxy}
use foxy.Tunnel.Requests.{
  detection, report, rewritten, next, not_absolute, fine_is_success, connection_for, served,
  decoded, resume-connecting, resume-malformed, neither-proper,
}

module _ (x : X3) (client_is_ssl : Bool) where
  -- A persistent CONNECT with an authority is connected to the host and port that it names, answered
  -- with 200, and hands out what the detection of TLS says, with the tunnel left open.
  pub run-established :
      (r : Request) (d : Option Bool)
      → AsksTunnel x client_is_ssl r
      → r.keep_alive ≡ true
      → ((served x client_is_ssl r (report success ∷ report success ∷ detection d ∷ [])).trace
          ≡ complete success false
            ∷ detect_ssl
            ∷ established
            ∷ connection_for x client_is_ssl r
            ∷ read_header
            ∷ [])
        × ((served x client_is_ssl r (report success ∷ report success ∷ detection d ∷ [])).is_ssl
            ≡ d)
  unfolding run resume resume_at after_connect after_loop is_error
  run-established r d (c, a) k =
      let there =
        ap (λ m. run x client_is_ssl (report success ∷ report success ∷ detection d ∷ []) m)
          (resume-connecting x client_is_ssl r (inl ((c, a), k))) in
      let n = not_absolute (parse_uri x r.target) a in
      (ap (λ m. m.trace) there ∙ rw n refl, ap (λ m. m.is_ssl) there ∙ rw n refl)

  sent :
      (r : Request)
      → record r {
        target = origin_target r.method (parse_uri x r.target);
        keep_alive = false;
        host = some (host_field (parse_uri x r.target));
      }
        ≡ rewritten x r
  sent r =
      rw
        (
          origin_target-marked r.method (parse_uri x r.target),
          host_field-marked (parse_uri x r.target),
        )
        refl

  abbrev ended : ErrorCode → Bool → Request → Request → List Action
  ended ec close r out =
      complete ec close ∷ relay out ∷ connection_for x client_is_ssl r ∷ read_header ∷ []

  -- A request in absolute form is connected to the host and port, or the scheme's service, that it
  -- names and relayed in origin form, with Host and without persistence; the tunnel completes with the
  -- code of the relay, to be closed where that is a success.
  pub run-relay :
      (r : Request) (ec : ErrorCode)
      → AsksProxy x client_is_ssl r
      → (served x client_is_ssl r (report success ∷ report ec ∷ [])).trace
        ≡ complete ec (not (is_error ec))
          ∷ relay (rewritten x r)
          ∷ connection_for x client_is_ssl r
          ∷ read_header
          ∷ []
  unfolding run resume resume_at after_header after_connect after_loop upcall is_error
  run-relay r ec (a, h) =
      ap (λ m. (run x client_is_ssl (report success ∷ report ec ∷ []) m).trace)
        (resume-connecting x client_is_ssl r (inr (a, h)))
      ∙ rw (a, h)
          (elim (Bool-cases (is_error ec)) [
            | inl bad ↦ rw bad (ap (ended ec false r) (sent r))
            | inr fine ↦ rw (fine_is_success ec fine) (ap (ended success true r) (sent r))
          ])

  after_refusal-next :
      (m : Machine)
      → m.close_tunnel ≡ false
      → (after_refusal success m).trace ≡ next m.request ∷ m.trace
  unfolding after_refusal after_loop is_error
  after_refusal-next m c = elim (Bool-cases m.request.keep_alive) [
    | inl k ↦ rw (k, after_refusal) refl
    | inr k ↦ rw (k, after_refusal) (rw c refl)
  ]

  -- A request that asks for neither is answered with 400; then the next request is read where the
  -- connection persists, and TLS is detected otherwise.
  pub run-malformed :
      (r : Request)
      → (AsksTunnel x client_is_ssl r → ⊥)
      → (AsksProxy x client_is_ssl r → ⊥)
      → (served x client_is_ssl r (report success ∷ [])).trace
        ≡ next r ∷ refusal malformed ∷ read_header ∷ []
  unfolding run resume resume_at
  run-malformed r no_tunnel no_proxy =
      let (several, neither) = neither-proper x client_is_ssl r no_tunnel no_proxy in
      ap (λ m. (run x client_is_ssl (report success ∷ []) m).trace)
        (resume-malformed x client_is_ssl r several neither)
      ∙ after_refusal-next (yield (refusal malformed) writing_malformed (decoded x client_is_ssl r))
          refl

  -- A request whose remote cannot be connected is answered with 400; then the next request is read
  -- where the connection persists, and TLS is detected otherwise.
  pub run-unable_to_connect :
      (r : Request) (ec : ErrorCode)
      → (AsksTunnel x client_is_ssl r × (r.keep_alive ≡ true)) ⊎ AsksProxy x client_is_ssl r
      → is_error ec ≡ true
      → (served x client_is_ssl r (report ec ∷ report success ∷ [])).trace
        ≡ next r ∷ refusal unable_to_connect ∷ connection_for x client_is_ssl r ∷ read_header ∷ []
  unfolding run resume resume_at after_connect
  run-unable_to_connect r ec s bad =
      ap (λ m. (run x client_is_ssl (report ec ∷ report success ∷ []) m).trace)
        (resume-connecting x client_is_ssl r s)
      ∙ rw (bad, resume_at, after_connect)
          (after_refusal-next
            (yield (refusal unable_to_connect) writing_unable
              (yield (connection_for x client_is_ssl r) connecting (decoded x client_is_ssl r)))
            refl)
