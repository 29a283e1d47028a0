-- ===== src/Relay/Order.antt =====
-- The order in which the relay may act, and what it may hand on.
use foxy.Base.{◌≤◌, Bool, true, false, not, if◌then◌else◌, ◌≡◌}
use foxy.X3.Library.{X3}
use foxy.Net.{ErrorCode, success, is_error}
use foxy.Fields.{Beast, connect_opts, is_connect_opt, has_foxy_via}
use foxy.Fields.Exported.{keep}
use foxy.Relay.{
  Side, request, response, Message, Semantics, Chunk, Action, construct, read_header, write_header,
  read, write, complete, buffer_size, via,
}

abbrev pub marked : (Message → Message) → Bool → Message → Message
marked mark c m = if c then mark m else m

module _ (b : Beast) (x : X3) (sem : Semantics) where
  -- The fields of a message that are not for this hop only.
  abbrev pub end_to_end : Message → Message
  end_to_end m = record m {
    fields = keep (λ f. not (is_connect_opt b (connect_opts b m.fields) f)) m.fields;
  }

  -- A header that the relay may send: that of a message which has not been through it, without the
  -- hop's own fields, marked as the last one unless the message was persistent, chunked if it was,
  -- and with the relay's own Via.
  pub record IsForwarded (sent : Message) : Type 0 where
    pub source : Message
    pub close : Bool
    pub no_loop : has_foxy_via b x source.fields ≡ false
    pub persists : close ≡ false → sem.keep_alive source ≡ true
    pub header : Message
    pub header_is :
        header
        ≡ marked sem.set_chunked
            (sem.chunked source)
            (marked sem.set_close close (end_to_end source))
    pub sent_is : sent ≡ record header { fields = b.insert via header.fields }

  -- Which action may come directly after which.
  pub data Follows : Action → Action → Type 0 where
    reads_first : Follows construct (read_header request)
    found_loop : Follows construct (complete success true)
    takes_over : (m : Message) → IsForwarded m → Follows construct (write_header request m)
    header_failed :
        (s : Side) (ec : ErrorCode)
        → is_error ec ≡ true
        → Follows (read_header s) (complete ec true)
    read_loop : (s : Side) → Follows (read_header s) (complete success true)
    forwards : (s : Side) (m : Message) → IsForwarded m → Follows (read_header s) (write_header s m)
    header_unwritten :
        (s : Side) (m : Message) (ec : ErrorCode)
        → is_error ec ≡ true
        → Follows (write_header s m) (complete ec true)
    pulls : (s : Side) (m : Message) → Follows (write_header s m) (read s)
    ends :
        (s : Side) (m : Message) (c : Chunk)
        → c.has_data ≡ false
        → c.size ≡ 0
        → Follows (write_header s m) (write s c)
    carries :
        (s : Side) (c : Chunk)
        → c.has_data ≡ true
        → c.size ≤ buffer_size
        → Follows (read s) (write s c)
    pulls_again : (s : Side) (c : Chunk) → Follows (write s c) (read s)
    body_failed : (s : Side) (c : Chunk) (ec : ErrorCode) → Follows (write s c) (complete ec true)
    turns : (c : Chunk) → Follows (write request c) (read_header response)
    finishes : (c : Chunk) (close : Bool) → Follows (write response c) (complete success close)
