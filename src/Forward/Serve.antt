-- ===== src/Forward/Serve.antt =====
-- pkg/forward/plane.go: `Run` with its collector, side by side. What the socket and the ticker give, and
-- the end of the context, are events.
pub mod Lasting
use outrelay_relay.Common.{
  ℕ, Bool, true, false, Bytes, List, [], ◌∷◌, ◌++◌, Option, none, some, ltb, if◌then◌else◌,
}
use outrelay_relay.Forward.State.{AddrPort, Plane}
use outrelay_relay.Forward.Alloc.{gc_once}
use outrelay_relay.Forward.Register.{receive}

pub data PlaneEvent : Type 0 where
  datagram : Bytes → AddrPort → ℕ → ℕ → PlaneEvent
  read_error : PlaneEvent
  tick : ℕ → PlaneEvent
  context_ends : PlaneEvent
  collector_sees_end : PlaneEvent

-- The loop of `Run`: it reads, or it has returned without an error or with one.
pub data Reader : Type 0 where
  reading closed broken : Reader

pub record PlaneService : Type 0 where
  pub plane : Plane
  pub writes : List (AddrPort × Bytes)
  pub reader : Reader
  pub collecting : Bool
  pub ended : Bool

-- `if p.idleTTL > 0 { go p.gcLoop(ctx) }`
unfoldable pub run_plane : Plane → PlaneService
run_plane p = record {
  plane = p;
  writes = [];
  reader = reading;
  collecting = ltb 0 p.idle_ttl;
  ended = false;
}

unfoldable pub written : Option (AddrPort × Bytes) → List (AddrPort × Bytes)
written none = []
written (some w) = w ∷ []

-- A turn of the loop of `Run` over a datagram.
unfoldable pub on_datagram : Reader → Bytes → AddrPort → ℕ → ℕ → PlaneService → PlaneService
unfolding written
on_datagram reading buf src now checked s =
    let (plane, write) = receive buf src now checked s.plane in
    record s { plane = plane; writes = s.writes ++ written write }
on_datagram _ buf src now checked s = s

unfoldable pub on_read_error : Reader → Bool → Reader
on_read_error reading true = closed
on_read_error reading false = broken
on_read_error r _ = r

-- What happens to the goroutines that have not returned. The collector looks at the context between two
-- ticks, so that a tick may still be served after its end.
unfoldable pub on_event : PlaneEvent → PlaneService → PlaneService
unfolding on_datagram on_read_error
on_event (datagram buf src now checked) s = on_datagram s.reader buf src now checked s
on_event read_error s = record s { reader = on_read_error s.reader s.ended }
on_event (tick now) s = if s.collecting then record s { plane = gc_once now s.plane } else s
on_event context_ends s = record s { ended = true }
on_event collector_sees_end s = if s.ended then record s { collecting = false } else s

unfoldable pub serve_plane : List PlaneEvent → PlaneService → PlaneService
unfolding on_event
serve_plane [] s = s
serve_plane (e ∷ es) s = serve_plane es (on_event e s)
