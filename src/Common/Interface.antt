-- ===== src/Common/Interface.antt =====
-- Equality tests as an interface: keys of maps, identifiers, addresses.
use Prim.Native.Nat.{ℕ}
use Prim.Native.Char.{code}
use Prim.Native.String.{String}
use mathlib.Core.Path.{◌≡◌, refl}
use mathlib.Core.Logic.{◌↔◌}
use mathlib.Core.Bool.{Bool, true, false, ◌&&◌}
use mathlib.Core.List.{List, [], ◌∷◌}
use native.Mathlib.Omega.{arith}
use outrelay_relay.Common.Tests.{nat_beq, nat_beq_iff}

-- The test agrees with equality.
pub record Eq {κ} (K : Type κ) : Type κ where
  pub same : K → K → Bool
  pub same_iff : (x y : K) → (same x y ≡ true) ↔ (x ≡ y)

module _ {κ} {K : Type κ} ⦃keyed : Eq K⦄ where
  infix 50 ◌==◌
  -- Go's `==` on the values of a comparable type.
  abbrev pub ◌==◌ : K → K → Bool
  ◌==◌ x y = keyed.same x y

  pub eq_iff : (x y : K) → ((x == y) ≡ true) ↔ (x ≡ y)
  eq_iff x y = keyed.same_iff x y

  pub eq_refl : (x : K) → (x == x) ≡ true
  eq_refl x = (keyed.same_iff x x).1 refl

instance abbrev pub nat_eq : Eq ℕ
nat_eq = record { same_iff = nat_beq_iff; same = nat_beq }

-- A string of the program is its bytes.
abbrev pub Bytes : Type 0
Bytes = List ℕ

unfoldable pub bytes_beq : Bytes → Bytes → Bool
bytes_beq [] [] = true
bytes_beq (a ∷ s) (b ∷ t) = nat_beq a b && bytes_beq s t
bytes_beq _ _ = false

bytes_beq→eq : (s t : Bytes) → bytes_beq s t ≡ true → s ≡ t
unfolding bytes_beq
bytes_beq→eq [] [] h = refl
bytes_beq→eq [] (b ∷ t) h = ground arith
bytes_beq→eq (a ∷ s) [] h = ground arith
bytes_beq→eq (a ∷ s) (b ∷ t) h = ground (arith, bytes_beq→eq s t)

bytes_beq_refl : (s : Bytes) → bytes_beq s s ≡ true
unfolding bytes_beq
bytes_beq_refl [] = refl
bytes_beq_refl (a ∷ s) = ground (arith, bytes_beq_refl s)

pub bytes_beq_iff : (s t : Bytes) → (bytes_beq s t ≡ true) ↔ (s ≡ t)
bytes_beq_iff s t = (bytes_beq→eq s t, λ e. ground (arith, bytes_beq_refl s))

instance abbrev pub bytes_eq : Eq Bytes
bytes_eq = record { same_iff = bytes_beq_iff; same = bytes_beq }

-- The bytes of an ASCII text.
abbrev pub codes : String → Bytes
codes String.[] = []
codes (String.◌∷◌ c s) = code c ∷ codes s
