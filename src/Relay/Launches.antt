-- ===== src/Relay/Launches.antt =====
-- The invariant of the relay, and that launching an operation keeps it.
use foxy.Base.{Bool, true, false, not, ◌||◌, List, ◌∷◌, ◌≡◌, refl, ◌∙◌, ap, arith}
use foxy.Base.Trace.{Ordered, then_}
use foxy.X3.Library.{X3}
use foxy.Fields.{Fields, Beast, has_foxy_via}
use foxy.Fields.Exported.{export_connect_fields-left}
use foxy.Relay.{
  Side, request, response, Message, Semantics, Chunk, Half, Action, construct, read_header,
  write_header, read, write, Point, reading_header, writing_header, reading, writing, finished,
  Machine, yield, set_half, outgoing,
}
use foxy.Relay.Order.{marked, IsForwarded, Follows}

module _ (b : Beast) (x : X3) (sem : Semantics) where
  -- The pending action of each point.
  abbrev Pending : Point → Action → Type 0
  Pending (reading_header s) a = a ≡ read_header s
  Pending (writing_header s) a = (m : Message) × (a ≡ write_header s m)
  Pending (reading s) a = a ≡ read s
  Pending (writing s) a = (c : Chunk) × (a ≡ write s c)
  Pending finished a = Unit

  pub record Inv (m : Machine) : Type 0 where
    pub last : Action
    pub before : List Action
    pub trace_is : m.trace ≡ last ∷ before
    pub ordered : Ordered construct (Follows b x sem) (last ∷ before)
    pub pending : Pending m.point last

  pub set_half-trace : (s : Side) (h : Half) (m : Machine) → (set_half s h m).trace ≡ m.trace
  unfolding set_half
  set_half-trace request h m = refl
  set_half-trace response h m = refl

  -- One more action, launched by a machine with the same trace.
  pub push :
      (m m' : Machine) (p q : Action) (pt : Point) (v : Inv m)
      → v.last ≡ p
      → Follows b x sem p q
      → m'.trace ≡ m.trace
      → Pending pt q
      → Inv (yield q pt m')
  push m m' p q pt v e f t w = record {
    last = q;
    before = v.last ∷ v.before;
    trace_is = ap (◌∷◌ q) (t ∙ v.trace_is);
    ordered = then_ (rw e f) v.ordered;
    pending = w;
  }

  -- The same after one side has changed.
  pub push_half :
      (m m' : Machine) (s : Side) (h : Half) (p q : Action) (pt : Point) (v : Inv m)
      → v.last ≡ p
      → Follows b x sem p q
      → m'.trace ≡ m.trace
      → Pending pt q
      → Inv (yield q pt (set_half s h m'))
  push_half m m' s h p q pt v e f t w =
      push m (set_half s h m') p q pt v e f (set_half-trace s h m' ∙ t) w

  pub outgoing-IsForwarded :
      (close : Bool) (source : Message) (exported : Fields)
      → has_foxy_via b x source.fields ≡ false
      → (close ≡ false → sem.keep_alive source ≡ true)
      → IsForwarded b x sem (outgoing b x sem close source exported)
  unfolding outgoing
  outgoing-IsForwarded close source exported e k = record {
    source = source;
    close = close;
    no_loop = e;
    persists = k;
    header = _;
    header_is =
        ap
          (λ fs.
            marked sem.set_chunked (sem.chunked source)
              (marked sem.set_close close (record source { fields = fs })))
          (export_connect_fields-left b source.fields exported);
    sent_is = refl;
  }

  pub closes : (a k : Bool) → (a || not k) ≡ false → k ≡ true
  closes a k h = ground arith
