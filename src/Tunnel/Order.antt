-- ===== src/Tunnel/Order.antt =====
-- The order in which the tunnel may act, and what it may relay.
use foxy.Base.{Bool, true, false, some, List, [], ◌∷◌, ◌++◌, Text, ◌≡◌, ◌⊎◌}
use foxy.X3.Library.{X3}
use foxy.UriParts.{is_authority, is_absolute, is_http}
use foxy.ParseUri.{parse_uri}
use foxy.Net.{ErrorCode, success, is_error}
use foxy.Tunnel.{
  connect, Request, ok, bad_request, Body, empty, persistent_needed, unable_to_connect, malformed,
  Action, read_header, write, async_connect, relay, detect_ssl, complete, service, Reply,
  no_request,
}

abbrev pub refusal : Body → Action
refusal b = write (record { result = bad_request; body = b })

abbrev pub established : Action
established = write (record { result = ok; body = empty })

-- A path, or the asterisk; a query may follow either.
abbrev pub IsOriginForm : Text → Type 0
IsOriginForm t = ((rest : Text) × (t ≡ b'/' ∷ rest)) ⊎ ((rest : Text) × (t ≡ b'*' ∷ rest))

-- What is relayed for the request `q`: the same method, a target in origin form, a Host field, and
-- not persistent.
pub record IsRelayed (q r : Request) : Type 0 where
  pub same_method : r.method ≡ q.method
  pub origin_form : IsOriginForm r.target
  pub not_persistent : r.keep_alive ≡ false
  pub has_host : (h : Text) × (r.host ≡ some h)

-- The refusals after which the tunnel goes on.
abbrev pub IsOpen : Body → Type 0
IsOpen b = (b ≡ unable_to_connect) ⊎ (b ≡ malformed)

-- The request that was read last, after the action `a` has reported `rep`.
abbrev pub last_read : Action → Reply → Request → Request
last_read read_header rep q = rep.request
last_read a rep q = q

module _ (x : X3) (client_is_ssl : Bool) where
  -- CONNECT with a target in authority form.
  abbrev pub AsksTunnel : Request → Type 0
  AsksTunnel r = (r.method ≡ connect) × (is_authority (parse_uri x r.target) ≡ true)

  -- A target in absolute form, with the scheme of HTTP.
  abbrev pub AsksProxy : Request → Type 0
  AsksProxy r =
      (is_absolute (parse_uri x r.target) ≡ true) × (is_http (parse_uri x r.target) ≡ true)

  -- Which action may come directly after which, when `rep` is what the first one reports and `q` the
  -- request that was read last, with that report.
  pub data Follows (q : Request) (rep : Reply) : Action → Action → Type 0 where
    header_failed : is_error rep.ec ≡ true → Follows q rep read_header (complete rep.ec false)
    refuses_one_shot :
        is_error rep.ec ≡ false
        → AsksTunnel q
        → q.keep_alive ≡ false
        → Follows q rep read_header (refusal persistent_needed)
    refuses_malformed :
        is_error rep.ec ≡ false
        → (AsksTunnel q → ⊥)
        → (AsksProxy q → ⊥)
        → Follows q rep read_header (refusal malformed)
    connects :
        is_error rep.ec ≡ false
        → (AsksTunnel q × (q.keep_alive ≡ true)) ⊎ AsksProxy q
        → Follows q rep read_header (
            async_connect
              (parse_uri x q.target).host
              (service client_is_ssl (parse_uri x q.target)))
    refusal_failed :
        is_error rep.ec ≡ true → Follows q rep (refusal persistent_needed) (complete rep.ec true)
    refused :
        is_error rep.ec ≡ false → Follows q rep (refusal persistent_needed) (complete success true)
    connect_failed :
        (h s : Text)
        → is_error rep.ec ≡ true
        → Follows q rep (async_connect h s) (refusal unable_to_connect)
    relays :
        (h s : Text) (r : Request)
        → is_error rep.ec ≡ false
        → AsksProxy q
        → IsRelayed q r
        → Follows q rep (async_connect h s) (relay r)
    establishes :
        (h s : Text)
        → is_error rep.ec ≡ false
        → AsksTunnel q × (q.keep_alive ≡ true)
        → Follows q rep (async_connect h s) established
    relay_failed :
        (r : Request) → is_error rep.ec ≡ true → Follows q rep (relay r) (complete rep.ec false)
    relayed :
        (r : Request) → is_error rep.ec ≡ false → Follows q rep (relay r) (complete success true)
    write_failed : is_error rep.ec ≡ true → Follows q rep established (complete rep.ec true)
    detects : is_error rep.ec ≡ false → Follows q rep established detect_ssl
    answer_failed :
        (b : Body)
        → IsOpen b
        → is_error rep.ec ≡ true
        → Follows q rep (refusal b) (complete rep.ec false)
    persists :
        (b : Body)
        → IsOpen b
        → is_error rep.ec ≡ false
        → q.keep_alive ≡ true
        → Follows q rep (refusal b) read_header
    refusal_detects :
        (b : Body)
        → IsOpen b
        → is_error rep.ec ≡ false
        → q.keep_alive ≡ false
        → Follows q rep (refusal b) detect_ssl
    detected : Follows q rep detect_ssl (complete success false)

  -- The reports so far, the request that was read last, and the actions, the last one first: every
  -- report but those after the completion leads to one action that may follow.
  pub data Ordered : List Reply → Request → List Action → Type 0 where
    first : Ordered [] no_request (read_header ∷ [])
    then_ :
        {rs : List Reply} {q : Request} {a b : Action} {t : List Action}
        → (rep : Reply) → Follows (last_read a rep q) rep a b
        → Ordered rs q (a ∷ t)
        → Ordered (rs ++ (rep ∷ [])) (last_read a rep q) (b ∷ a ∷ t)
    ended :
        {rs : List Reply} {q : Request} {t : List Action} {ec : ErrorCode} {close : Bool}
        → (rep : Reply) → Ordered rs q (complete ec close ∷ t)
        → Ordered (rs ++ (rep ∷ [])) q (complete ec close ∷ t)
