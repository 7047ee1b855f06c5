-- ===== src/Intra.antt =====
-- pkg/intra/pool.go: the connections to peer relays. A connection is told by its number; dialing
-- (`transport.DialQUIC`) and what a peer answers are arguments.
pub mod Account
mod Samples
use outrelay_relay.Common.{
  ℕ, Bytes, bytes_eq, Dict, get, put, del, Option, none, some, List, [], ◌∷◌, entries, Bool, true,
  false,
}
use outrelay_relay.Edge.Frames.{IncomingStream}

-- The cached connections, and the ones that were closed, the newest first.
pub record Pool : Type 0 where
  pub conns : Dict Bytes ℕ
  pub closed : List ℕ

unfoldable pub new_pool : Pool
new_pool = record { conns = []; closed = [] }

-- `Get` in two steps, since the lock is not held while it dials: the lookup, and what is done with the
-- connection that the dial gave, which is closed where another caller was first.
unfoldable pub lookup_conn : Bytes → Pool → Option ℕ
lookup_conn relay_id p = get relay_id p.conns

unfoldable pub keep_conn : Bytes → ℕ → Pool → ℕ × Pool
keep_conn relay_id c p = elim (get relay_id p.conns) [
  | none ↦ (c, record p { conns = put relay_id c p.conns })
  | some existing ↦ (existing, record p { closed = c ∷ p.closed })
]

unfoldable pub keep_dialed : Bytes → Option ℕ → Pool → Option ℕ × Pool
unfolding keep_conn
keep_dialed relay_id none p = (none, p)
keep_dialed relay_id (some c) p = let (kept, q) = keep_conn relay_id c p in (some kept, q)

-- `Get` where nobody else comes in between.
unfoldable pub get_conn : Bytes → Option ℕ → Pool → Option ℕ × Pool
unfolding lookup_conn keep_dialed
get_conn relay_id dialed p = elim (lookup_conn relay_id p) [
  | none ↦ keep_dialed relay_id dialed p
  | some c ↦ (some c, p)
]

abbrev also_closed : Option ℕ → List ℕ → List ℕ
also_closed none closed = closed
also_closed (some c) closed = c ∷ closed

unfoldable pub drop_conn : Bytes → Pool → Pool
drop_conn relay_id p = record {
  conns = del relay_id p.conns;
  closed = also_closed (get relay_id p.conns) p.closed;
}

unfoldable pub close_conns : Dict Bytes ℕ → List ℕ → List ℕ
close_conns [] closed = closed
close_conns ((id, c) ∷ conns) closed = close_conns conns (c ∷ closed)

unfoldable pub close_pool : Pool → Pool
unfolding close_conns
close_pool p = record { conns = []; closed = close_conns (entries p.conns) p.closed }

-- What comes of opening a stream to the peer and writing FORWARD_STREAM: it fails, or the peer's reply
-- cannot be read, or it is read.
pub data PeerReply : Type 0 where
  not_opened not_written not_read accepted rejected unexpected : PeerReply

-- `ForwardStream`: whether the caller gets a stream. In the other cases the stream is closed.
unfoldable pub forward_stream : PeerReply → Bool
forward_stream accepted = true
forward_stream _ = false

-- The frame that `ForwardStream` writes; it leaves the stream's id out.
unfoldable pub forward_frame : Bytes → Bytes → Bytes → IncomingStream
forward_frame target method caller_uri = record {
  target_service = target;
  method = method;
  source_agent_uri = caller_uri;
  stream_id = 0;
  resume_relays = [];
}
