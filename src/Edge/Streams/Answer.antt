-- ===== src/Edge/Streams/Answer.antt =====
-- pkg/edge/edge.go: `handleConsumerStream` from the provider's answer on: the grant of two allocations
-- or the splice, and the deferred calls. `fwd_endpoint` stands for the address of the plane's socket.
use outrelay_relay.Common.{
  ℕ, Bytes, Option, none, some, List, [], ◌∷◌, Bool, codes, if◌then◌else◌, not,
}
use outrelay_relay.Policy.Rules.{RelayMode, splice, forward}
use outrelay_relay.Forward.State.{Plane}
use outrelay_relay.Forward.Alloc.{Allocation, granted, panicked, out_of_fuel, allocate, forget}
use outrelay_relay.Registry.{Provider, lookup_agent}
use outrelay_relay.Edge.Pairs.{forget_pair}
use outrelay_relay.Edge.Frames.{
  Write, AllocGranted, alloc_granted, stream_ready, StreamReady, reject_consumer,
}
use outrelay_relay.Edge.Streams.{Relay, Waiting}

-- The next frame on the provider's stream.
pub data Ack : Type 0 where
  unreadable stream_accept stream_reject_frame other_frame : Ack

-- How the stream goes on: the handler returns, having granted these allocations; the agents talk
-- through the plane, with these allocations; or the relay splices. Allocate may panic.
pub data Course : Type 0 where
  returns : List ℕ → Course
  forwarding : ℕ → ℕ → Course
  splicing : Course
  crashes : Course

pub record Answered : Type 0 where
  pub course : Course
  pub writes : List Write
  pub relay : Relay

unfoldable pub refuse : Waiting → ℕ → Bytes → Relay → Answered
refuse w code reason r = record {
  course = returns [];
  writes = reject_consumer (some w.caller) w.open_frame.stream_id code reason;
  relay = r;
}

abbrev pub ready_writes : Option Provider → ℕ → StreamReady → List Write
ready_writes none caller ready = stream_ready caller ready ∷ []
ready_writes (some prov) caller ready =
    stream_ready caller ready ∷ stream_ready prov.conn ready ∷ []

unfoldable pub splice_streams : Waiting → Relay → Answered
splice_streams w r = record {
  course = splicing;
  writes =
      ready_writes (lookup_agent w.provider.uri r.reg) w.caller.conn
        (record { stream_id = w.open_frame.stream_id; resume_relays = r.successors });
  relay = r;
}

module _ (fwd_endpoint : Bytes) where
  unfoldable pub grant : Waiting → ℕ → ℕ → List Bytes → AllocGranted
  grant w mine peers relays = record {
    stream_id = w.open_frame.stream_id;
    my_allocation = mine;
    peer_allocation = peers;
    forward_endpoint = fwd_endpoint;
    resume_relays = relays;
  }

  -- Whether the frame to the consumer and that to the provider could be written.
  unfoldable pub write_grants : Waiting → Provider → ℕ → ℕ → Bool → Bool → Relay → Answered
  unfolding grant
  write_grants w prov c p consumer_ok provider_ok r =
      let to_consumer = alloc_granted w.caller.conn (grant w c p r.successors) in
      let to_provider = alloc_granted prov.conn (grant w p c r.successors) in
      if not consumer_ok
      then record { course = returns (p ∷ c ∷ []); writes = []; relay = r }
      else if not provider_ok
      then record { course = returns (p ∷ c ∷ []); writes = to_consumer ∷ []; relay = r }
      else record { course = forwarding c p; writes = to_consumer ∷ to_provider ∷ []; relay = r }

  unfoldable pub second_grant : Waiting → Provider → ℕ → Bool → Bool → Relay → Allocation → Answered
  unfolding write_grants
  second_grant w prov c consumer_ok provider_ok r (granted p plane) =
      write_grants w prov c p consumer_ok provider_ok (record r { forward = some plane })
  second_grant w prov c consumer_ok provider_ok r panicked = record {
    course = crashes;
    writes = [];
    relay = r;
  }
  second_grant w prov c consumer_ok provider_ok r out_of_fuel = record {
    course = crashes;
    writes = [];
    relay = r;
  }

  unfoldable pub first_grant : Waiting → Provider → ℕ → Bool → Bool → Relay → Allocation → Answered
  unfolding second_grant
  first_grant w prov now consumer_ok provider_ok r (granted c plane) =
      second_grant w prov c consumer_ok provider_ok r (allocate prov.uri now plane)
  first_grant w prov now consumer_ok provider_ok r panicked = record {
    course = crashes;
    writes = [];
    relay = r;
  }
  first_grant w prov now consumer_ok provider_ok r out_of_fuel = record {
    course = crashes;
    writes = [];
    relay = r;
  }

  -- The clock is read once for each of the two allocations.
  unfoldable pub grant_allocs :
      Waiting → Plane → Option Provider → ℕ → ℕ → Bool → Bool → Relay → Answered
  unfolding refuse first_grant
  grant_allocs w plane none now later consumer_ok provider_ok r =
      refuse w 502 (codes "forward: provider control channel unavailable") r
  grant_allocs w plane (some prov) now later consumer_ok provider_ok r =
      first_grant w prov later consumer_ok provider_ok r (allocate w.caller.uri now plane)

  unfoldable pub start_stream :
      Waiting → RelayMode → Option Plane → ℕ → ℕ → Bool → Bool → Relay → Answered
  unfolding grant_allocs splice_streams
  start_stream w forward (some plane) now later consumer_ok provider_ok r =
      grant_allocs w plane (lookup_agent w.provider.uri r.reg) now later consumer_ok provider_ok r
  start_stream w forward none now later consumer_ok provider_ok r = splice_streams w r
  start_stream w splice plane now later consumer_ok provider_ok r = splice_streams w r

  unfoldable pub on_ack : Waiting → Ack → ℕ → ℕ → Bool → Bool → Relay → Answered
  unfolding refuse start_stream
  on_ack w stream_accept now later consumer_ok provider_ok r =
      start_stream w w.relay_mode r.forward now later consumer_ok provider_ok r
  on_ack w stream_reject_frame now later consumer_ok provider_ok r =
      refuse w 503 (codes "provider rejected") r
  on_ack w unreadable now later consumer_ok provider_ok r = record {
    course = returns [];
    writes = [];
    relay = r;
  }
  on_ack w other_frame now later consumer_ok provider_ok r = record {
    course = returns [];
    writes = [];
    relay = r;
  }

abbrev pub allocs_of : Course → List ℕ
allocs_of (returns ids) = ids
allocs_of (forwarding c p) = p ∷ c ∷ []
allocs_of splicing = []
allocs_of crashes = []

unfoldable pub forget_all : List ℕ → Plane → Plane
forget_all [] p = p
forget_all (id ∷ ids) p = forget_all ids (forget id p)

abbrev pub forget_in : List ℕ → Option Plane → Option Plane
forget_in ids none = none
forget_in ids (some p) = some (forget_all ids p)

-- The deferred calls, when the handler returns or the stream has ended, the last one first.
unfoldable pub finish : Waiting → Course → Relay → Relay
unfolding forget_all
finish w course r = record r {
  forward = forget_in (allocs_of course) r.forward;
  pairs = forget_pair w.open_frame.stream_id r.pairs;
}
