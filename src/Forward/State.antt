-- ===== src/Forward/State.antt =====
-- pkg/forward/plane.go: the tables of the forwarding plane. Time is a clock reading in nanoseconds.
-- A duration that is not positive is 0.
use outrelay_relay.Common.{
  ℕ, ◌*◌, Bool, true, false, ◌&&◌, Option, none, some, [], ◌≡◌, ◌↔◌, arith, Eq, ◌==◌, nat_eq,
  bytes_eq, Bytes, Dict, get,
}

-- `netip.AddrPort`; `unset` is its zero value.
pub data AddrPort : Type 0 where
  unset : AddrPort
  endpoint : ℕ → ℕ → AddrPort

unfoldable pub is_valid : AddrPort → Bool
is_valid unset = false
is_valid (endpoint ip port) = true

unfoldable pub addr_beq : AddrPort → AddrPort → Bool
addr_beq unset unset = true
addr_beq (endpoint a p) (endpoint b q) = a == b && p == q
addr_beq _ _ = false

pub addr_beq_iff : (a b : AddrPort) → (addr_beq a b ≡ true) ↔ (a ≡ b)
unfolding addr_beq
addr_beq_iff unset unset = ground arith
addr_beq_iff unset (endpoint b q) = ground arith
addr_beq_iff (endpoint a p) unset = ground arith
addr_beq_iff (endpoint a p) (endpoint b q) = ground arith

instance abbrev pub addr_eq : Eq AddrPort
addr_eq = record { same_iff = addr_beq_iff; same = addr_beq }

abbrev pub second : ℕ
second = 1_000_000_000

abbrev pub default_alloc_idle_ttl : ℕ
default_alloc_idle_ttl = 60 * second

abbrev pub punch_nonce_size : ℕ
punch_nonce_size = 16

abbrev pub default_pending_ttl : ℕ
default_pending_ttl = 5 * second

pub record PendingEntry : Type 0 where
  pub uri : Bytes
  pub nonce : Bytes
  pub expires : ℕ

pub record QueuedPunch : Type 0 where
  pub src : AddrPort
  pub nonce : Bytes
  pub expires : ℕ

pub data ArmError : Type 0 where
  err_unknown_alloc err_owner_mismatch : ArmError

pub record AllocEntry : Type 0 where
  pub uri : Bytes
  pub src : AddrPort
  pub last_seen : ℕ

-- `map[uint32]struct{}`
abbrev pub IdSet : Type 0
IdSet = Dict ℕ (Unit {0})

pub record Plane : Type 0 where
  pub by_alloc : Dict ℕ AllocEntry
  pub by_uri : Dict Bytes IdSet
  pub src2id : Dict AddrPort ℕ
  pub pending : Dict ℕ PendingEntry
  pub queued : Dict ℕ QueuedPunch
  pub next_id : ℕ
  pub idle_ttl : ℕ
  pub pending_ttl : ℕ

unfoldable pub new_plane : Plane
new_plane = record {
  by_alloc = [];
  by_uri = [];
  src2id = [];
  pending = [];
  queued = [];
  next_id = 0;
  idle_ttl = default_alloc_idle_ttl;
  pending_ttl = default_pending_ttl;
}

unfoldable pub set_idle_ttl : ℕ → Plane → Plane
set_idle_ttl d p = record p { idle_ttl = d }

unfoldable pub set_pending_ttl : ℕ → Plane → Plane
set_pending_ttl d p = record p { pending_ttl = d }

unfoldable pub owner_of : ℕ → Plane → Option Bytes
owner_of id p = elim (get id p.by_alloc) [ none ↦ none | some entry ↦ some entry.uri ]

unfoldable pub lookup : ℕ → Plane → Option AddrPort
lookup id p = elim (get id p.by_alloc) [ none ↦ none | some entry ↦ some entry.src ]
