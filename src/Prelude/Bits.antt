-- ===== src/Prelude/Bits.antt =====
-- The masks that the parsers apply to a byte, as arithmetic. Each law is a table of 256 entries.
use Prim.Native.Nat.{ℕ, zero, suc, ◌*◌, ◌/◌, ◌%◌, ◌<◌, bit_and}
use mathlib.Core.Bool.{Bool, false, true}
use mathlib.Core.Path.{refl, ◌≡◌}
use native.Mathlib.Omega.{arith}
use sip_exporter.Prelude.Tests.{◌==◌, if◌then◌else◌}

-- Two functions on bytes give the same values at the first `n`.
same_up_to : (ℕ → ℕ) → (ℕ → ℕ) → ℕ → Bool
same_up_to f g zero = true
same_up_to f g (suc n) = if f n == g n then same_up_to f g n else false

same_up_to_lem : (f g : ℕ → ℕ) (n b : ℕ) → same_up_to f g n ≡ true → b < n → f b ≡ g b
unfolding same_up_to
same_up_to_lem f g zero b ok h = absurd (omega arith)
same_up_to_lem f g (suc n) b ok h = ground (arith, same_up_to_lem f g n b)

by_table : (f g : ℕ → ℕ) (b : ℕ) → same_up_to f g 256 ≡ true → b < 256 → f b ≡ g b
by_table f g b table h = same_up_to_lem f g 256 b table h

pub mask_0x20 : (b : ℕ) → b < 256 → bit_and b 0x20 ≡ b / 32 % 2 * 32
unfolding same_up_to
mask_0x20 b = by_table (λ b. bit_and b 0x20) (λ b. b / 32 % 2 * 32) b refl

pub mask_0x10 : (b : ℕ) → b < 256 → bit_and b 0x10 ≡ b / 16 % 2 * 16
unfolding same_up_to
mask_0x10 b = by_table (λ b. bit_and b 0x10) (λ b. b / 16 % 2 * 16) b refl

pub mask_0x80 : (b : ℕ) → b < 256 → bit_and b 0x80 ≡ b / 128 * 128
unfolding same_up_to
mask_0x80 b = by_table (λ b. bit_and b 0x80) (λ b. b / 128 * 128) b refl

pub mask_0xc0 : (b : ℕ) → b < 256 → bit_and b 0xc0 ≡ b / 64 * 64
unfolding same_up_to
mask_0xc0 b = by_table (λ b. bit_and b 0xc0) (λ b. b / 64 * 64) b refl

pub mask_0x0f : (b : ℕ) → b < 256 → bit_and b 0x0f ≡ b % 16
unfolding same_up_to
mask_0x0f b = by_table (λ b. bit_and b 0x0f) (λ b. b % 16) b refl

pub mask_0x1f : (b : ℕ) → b < 256 → bit_and b 0x1f ≡ b % 32
unfolding same_up_to
mask_0x1f b = by_table (λ b. bit_and b 0x1f) (λ b. b % 32) b refl

pub mask_0x7f : (b : ℕ) → b < 256 → bit_and b 0x7f ≡ b % 128
unfolding same_up_to
mask_0x7f b = by_table (λ b. bit_and b 0x7f) (λ b. b % 128) b refl
