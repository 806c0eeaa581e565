-- ===== src/Base/Bits.antt =====
-- The masks on one byte that the packet header uses, as arithmetic. Each law is a table over the
-- byte's values.
use Prim.Native.Nat.{ℕ, zero, suc, ◌+◌, ◌*◌, ◌/◌, ◌%◌, ◌<◌, bit_and, bit_or}
use mathlib.Core.Path.{◌≡◌, refl}
use mathlib.Core.Bool.{Bool, true, ◌&&◌}
use native.Mathlib.Omega.{arith}
use stupid_simple.Base.Tests.{◌==◌, ==_iff}

holds_below : ℕ → (ℕ → Bool) → Bool
holds_below zero p = true
holds_below (suc n) p = p n && holds_below n p

holds_below_at : (n : ℕ) (p : ℕ → Bool) (x : ℕ) → holds_below n p ≡ true → x < n → p x ≡ true
unfolding holds_below
holds_below_at zero p x h lt = absurd (omega arith)
holds_below_at (suc n) p x h lt = ground (arith, holds_below_at n p x)

nibbles_table : holds_below 256 (λ x. bit_or (x / 16 * 16) (x % 16) == x) ≡ true
unfolding holds_below
nibbles_table = refl

low_nibble_table : holds_below 256 (λ x. bit_and x 0x0f == x % 16) ≡ true
unfolding holds_below
low_nibble_table = refl

zero_table : holds_below 256 (λ x. bit_or 0 x == x) ≡ true
unfolding holds_below
zero_table = refl

pub zero-bit_or : (x : ℕ) → x < 256 → bit_or 0 x ≡ x
zero-bit_or x h = (==_iff _ x).0 (holds_below_at 256 _ x zero_table h)

pub low_nibble : (x : ℕ) → x < 256 → bit_and x 0x0f ≡ x % 16
low_nibble x h = (==_iff _ _).0 (holds_below_at 256 _ x low_nibble_table h)

byte_of_nibbles : (x : ℕ) → x < 256 → bit_or (x / 16 * 16) (x % 16) ≡ x
byte_of_nibbles x h = (==_iff _ x).0 (holds_below_at 256 _ x nibbles_table h)

-- The high and the low half of a byte, put together and taken apart.
pub join_nibbles : (hi lo : ℕ) → hi < 16 → lo < 16 → bit_or (hi * 16) lo ≡ hi * 16 + lo
join_nibbles hi lo hh hl = ground (arith, byte_of_nibbles (hi * 16 + lo), quotient, remainder)
  where
    quotient : (hi * 16 + lo) / 16 ≡ hi
    quotient = omega arith

    remainder : (hi * 16 + lo) % 16 ≡ lo
    remainder = omega arith
