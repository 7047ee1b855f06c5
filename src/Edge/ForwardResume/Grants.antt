-- ===== src/Edge/ForwardResume/Grants.antt =====
-- pkg/edge/edge.go: `driveForwardResume`, once the matcher has given it the peer. `fwd_endpoint` stands
-- for the address of the plane's socket.
use outrelay_relay.Forward.State.{Plane}
use outrelay_relay.Forward.Index.{Inv}
use outrelay_relay.Forward.Alloc.{Allocation, granted, panicked, out_of_fuel, allocate, u32_mod}
use outrelay_relay.Forward.Grants.{PairGrant, grants, allocate_pair}
use outrelay_relay.Registry.{Provider}
use outrelay_relay.Edge.Frames.{Write, AllocGranted, alloc_granted}
use outrelay_relay.Common.{List, Bytes, ℕ, ◌∷◌, ◌≢◌, [], ◌+◌, ◌<◌, ◌≡◌, arith}

-- The frames and the plane; `Allocate` may panic.
pub data Driven : Type 0 where
  reissued : List Write → Plane → Driven
  crashed : Driven

module _ (fwd_endpoint : Bytes) (successors : List Bytes) (stream_id : ℕ) where
  unfoldable pub resume_grant : ℕ → ℕ → AllocGranted
  resume_grant mine peers = record {
    stream_id = stream_id;
    my_allocation = mine;
    peer_allocation = peers;
    forward_endpoint = fwd_endpoint;
    resume_relays = successors;
  }

  -- The second frame is written whether or not the first one could be.
  unfoldable pub reissue : Provider → Provider → ℕ → Allocation → Driven
  unfolding resume_grant
  reissue self peer c (granted d plane) =
      reissued
        (alloc_granted self.conn (resume_grant c d)
          ∷ alloc_granted peer.conn (resume_grant d c)
          ∷ [])
        plane
  reissue self peer c panicked = crashed
  reissue self peer c out_of_fuel = crashed

  unfoldable pub allocate_peer : Provider → Provider → ℕ → Allocation → Driven
  unfolding reissue
  allocate_peer self peer later (granted c plane) =
      reissue self peer c (allocate peer.uri later plane)
  allocate_peer self peer later panicked = crashed
  allocate_peer self peer later out_of_fuel = crashed

  -- The clock is read once for each of the two allocations.
  unfoldable pub drive_forward_resume : Provider → Provider → ℕ → ℕ → Plane → Driven
  unfolding allocate_peer
  drive_forward_resume self peer now later p =
      allocate_peer self peer later (allocate self.uri now p)

  -- On tables that agree, for names that are not empty and while ids have not run out, both agents of
  -- a resumed stream are granted two different free allocations, each told its own and the other one's.
  pub resume_grants_pair :
      (self peer : Provider) (now later : ℕ) (p : Plane)
      → Inv p
      → self.uri ≢ []
      → peer.uri ≢ []
      → p.next_id + 2 < u32_mod
      → (c : ℕ) × (d : ℕ) × (q : Plane) × PairGrant p self.uri peer.uri c d q
        × (drive_forward_resume self peer now later p
            ≡ reissued
                (alloc_granted self.conn (resume_grant c d)
                  ∷ alloc_granted peer.conn (resume_grant d c)
                  ∷ [])
                q)
  unfolding drive_forward_resume
  resume_grants_pair self peer now later p v named also room =
      elim (allocate_pair self.uri peer.uri now later p v named also room) [
        | grants c d between q one two g ↦ (c, d, q, g, ground (arith, one, two))
      ]
