-- ===== src/Base/Bits.antt =====
-- Laws of the native bit operations at variables, by recursion on the lowest binary digit.
use Prim.Native.Nat.{
  ℕ, zero, suc, ◌+◌, ◌-◌, ◌*◌, ◌/◌, ◌%◌, ◌^◌, ◌≤◌, ◌<◌, min, max, bit_and, bit_or, bit_xor,
  bit_and-bitwise, bit_or-bitwise, bit_xor-bitwise, digits, differ,
}
use mathlib.Core.Path.{◌≡◌, refl, ap, sym, ◌∙◌}
use native.Mathlib.Nat.{
  pow-suc, one-le-pow, mod-lt, mod-eq_of_lt, mod-add-div', add-mul-mod_self_right,
}
use native.Mathlib.Omega.{arith}

infixl 75 ◌<<<◌ ◌>>>◌
abbrev pub ◌<<<◌ : ℕ → ℕ → ℕ
x <<< k = x * 2 ^ k

abbrev pub ◌>>>◌ : ℕ → ℕ → ℕ
x >>> k = x / 2 ^ k

-- The recursion of the native operations counts down from the first number; any count that is
-- large enough serves.
module _ (z : ℕ → ℕ) (f : ℕ → ℕ → ℕ) where
  digits_enough : (n m a b : ℕ) → a ≤ n → a ≤ m → digits z f n a b ≡ digits z f m a b
  digits_enough zero zero a b p q = refl
  digits_enough zero (suc m) zero b p q = refl
  digits_enough zero (suc m) (suc a) b p q = absurd (omega arith)
  digits_enough (suc n) zero zero b p q = refl
  digits_enough (suc n) zero (suc a) b p q = absurd (omega arith)
  digits_enough (suc n) (suc m) zero b p q = refl
  digits_enough (suc n) (suc m) (suc a) b p q =
      rw (digits_enough n m (suc a / 2) (b / 2) (omega arith) (omega arith))

pub bit_and_digit : (a b : ℕ) → bit_and a b ≡ bit_and (a / 2) (b / 2) * 2 + min (a % 2) (b % 2)
bit_and_digit zero b = simp bit_and-bitwise (omega arith)
bit_and_digit (suc a) b = omega (
  arith,
  bit_and-bitwise (suc a) b,
  bit_and-bitwise (suc a / 2) (b / 2),
  digits_enough (λ y. 0) min a (suc a / 2) (suc a / 2) (b / 2) (omega arith) (omega arith),
)

pub bit_or_digit : (a b : ℕ) → bit_or a b ≡ bit_or (a / 2) (b / 2) * 2 + max (a % 2) (b % 2)
bit_or_digit zero b = simp bit_or-bitwise (omega arith)
bit_or_digit (suc a) b = omega (
  arith,
  bit_or-bitwise (suc a) b,
  bit_or-bitwise (suc a / 2) (b / 2),
  digits_enough (λ y. y) max a (suc a / 2) (suc a / 2) (b / 2) (omega arith) (omega arith),
)

-- A digit of an exclusive or is the sum of the digits, modulo two.
differ_mod : (x y : ℕ) → x < 2 → y < 2 → differ x y ≡ (x + y) % 2
differ_mod zero zero h k = refl
differ_mod zero (suc zero) h k = refl
differ_mod zero (suc (suc y)) h k = absurd (omega arith)
differ_mod (suc zero) zero h k = refl
differ_mod (suc zero) (suc zero) h k = refl
differ_mod (suc zero) (suc (suc y)) h k = absurd (omega arith)
differ_mod (suc (suc x)) y h k = absurd (omega arith)

pub bit_xor_digit : (a b : ℕ) → bit_xor a b ≡ bit_xor (a / 2) (b / 2) * 2 + (a % 2 + b % 2) % 2
bit_xor_digit zero b = simp bit_xor-bitwise (omega arith)
bit_xor_digit (suc a) b = omega (
  arith,
  bit_xor-bitwise (suc a) b,
  bit_xor-bitwise (suc a / 2) (b / 2),
  digits_enough (λ y. y) differ a (suc a / 2) (suc a / 2) (b / 2) (omega arith) (omega arith),
  differ_mod (suc a % 2) (b % 2) (omega arith) (omega arith),
)

pub zero-bit_xor : (b : ℕ) → bit_xor 0 b ≡ b
zero-bit_xor b = bit_xor-bitwise 0 b

pub zero-bit_or : (b : ℕ) → bit_or 0 b ≡ b
zero-bit_or b = bit_or-bitwise 0 b

xor_comm_upto : (n a b : ℕ) → a ≤ n → b ≤ n → bit_xor a b ≡ bit_xor b a
xor_comm_upto zero zero zero h k = refl
xor_comm_upto zero zero (suc b) h k = absurd (omega arith)
xor_comm_upto zero (suc a) b h k = absurd (omega arith)
xor_comm_upto (suc n) zero zero h k = refl
xor_comm_upto (suc n) zero (suc b) h k = omega (
  arith,
  bit_xor_digit zero (suc b),
  bit_xor_digit (suc b) zero,
  xor_comm_upto n 0 (suc b / 2) (omega arith) (omega arith),
)
xor_comm_upto (suc n) (suc a) b h k = omega (
  arith,
  bit_xor_digit (suc a) b,
  bit_xor_digit b (suc a),
  xor_comm_upto n (suc a / 2) (b / 2) (omega arith) (omega arith),
)

pub bit_xor_comm : (a b : ℕ) → bit_xor a b ≡ bit_xor b a
bit_xor_comm a b = xor_comm_upto (a + b) a b (omega arith) (omega arith)

pub bit_xor-zero : (a : ℕ) → bit_xor a 0 ≡ a
bit_xor-zero a = bit_xor_comm a 0 ∙ zero-bit_xor a

xor_self_upto : (n a : ℕ) → a ≤ n → bit_xor a a ≡ 0
xor_self_upto n zero h = refl
xor_self_upto zero (suc a) h = absurd (omega arith)
xor_self_upto (suc n) (suc a) h =
    omega (arith, bit_xor_digit (suc a) (suc a), xor_self_upto n (suc a / 2) (omega arith))

pub bit_xor_self : (a : ℕ) → bit_xor a a ≡ 0
bit_xor_self a = xor_self_upto a a (omega arith)

-- The halves and the lowest digit of an exclusive or.
xor_half : (a b : ℕ) → bit_xor a b / 2 ≡ bit_xor (a / 2) (b / 2)
xor_half a b = omega (arith, bit_xor_digit a b)

xor_low : (a b : ℕ) → bit_xor a b % 2 ≡ (a % 2 + b % 2) % 2
xor_low a b = omega (arith, bit_xor_digit a b)

xor_assoc_upto : (n a b c : ℕ) → a ≤ n → bit_xor (bit_xor a b) c ≡ bit_xor a (bit_xor b c)
xor_assoc_upto n zero b c h = rw (zero-bit_xor b, zero-bit_xor (bit_xor b c))
xor_assoc_upto zero (suc a) b c h = absurd (omega arith)
xor_assoc_upto (suc n) (suc a) b c h =
    let left : bit_xor (bit_xor (suc a) b) c
        ≡ bit_xor (bit_xor (suc a / 2) (b / 2)) (c / 2) * 2
          + ((suc a % 2 + b % 2) % 2 + c % 2) % 2 =
      rw (bit_xor_digit (bit_xor (suc a) b) c, xor_half (suc a) b, xor_low (suc a) b) in
    let right : bit_xor (suc a) (bit_xor b c)
        ≡ bit_xor (suc a / 2) (bit_xor (b / 2) (c / 2)) * 2
          + (suc a % 2 + (b % 2 + c % 2) % 2) % 2 =
      rw (bit_xor_digit (suc a) (bit_xor b c), xor_half b c, xor_low b c) in
    omega (arith, left, right, xor_assoc_upto n (suc a / 2) (b / 2) (c / 2) (omega arith))

pub bit_xor_assoc : (a b c : ℕ) → bit_xor (bit_xor a b) c ≡ bit_xor a (bit_xor b c)
bit_xor_assoc a b c = xor_assoc_upto a a b c (omega arith)

-- Applying the same mask twice gives the value back.
pub bit_xor-bit_xor : (a k : ℕ) → bit_xor (bit_xor a k) k ≡ a
bit_xor-bit_xor a k = rw (bit_xor_assoc a k k, bit_xor_self k) (bit_xor-zero a)

-- Two masks may be applied in either order.
pub bit_xor_swap : (a b c : ℕ) → bit_xor (bit_xor a b) c ≡ bit_xor (bit_xor a c) b
bit_xor_swap a b c =
    bit_xor_assoc a b c ∙ ap (bit_xor a) (bit_xor_comm b c) ∙ sym (bit_xor_assoc a c b)

-- No operation leaves the range of a width.
pub bit_xor-lt : (k a b : ℕ) → a < 2 ^ k → b < 2 ^ k → bit_xor a b < 2 ^ k
bit_xor-lt zero zero zero h h' = omega arith
bit_xor-lt zero zero (suc b) h h' = absurd (omega arith)
bit_xor-lt zero (suc a) b h h' = absurd (omega arith)
bit_xor-lt (suc k) a b h h' = omega (
  arith,
  pow-suc 2 k,
  bit_xor_digit a b,
  bit_xor-lt k (a / 2) (b / 2) (omega (arith, pow-suc 2 k)) (omega (arith, pow-suc 2 k)),
)

double_shift : (y k : ℕ) → y * 2 ^ suc k ≡ 2 * (y * 2 ^ k)
double_shift y k = omega (arith, ap (λ (t : ℕ). y * t) (pow-suc 2 k))

-- The fields of `x | (y << k)` do not overlap when `x` fits `k` bits.
pub bit_or-shift : (k x y : ℕ) → x < 2 ^ k → bit_or x (y <<< k) ≡ x + y * 2 ^ k
bit_or-shift zero zero y h = omega (arith, zero-bit_or (y * 2 ^ 0))
bit_or-shift zero (suc x) y h = absurd (omega arith)
bit_or-shift (suc k) x y h = omega (
  arith,
  pow-suc 2 k,
  double_shift y k,
  bit_or_digit x (2 * (y * 2 ^ k)),
  ap (λ t. bit_or x t) (double_shift y k),
  ap (λ t. bit_or (x / 2) t) (half_double (y * 2 ^ k)),
  bit_or-shift k (x / 2) y (omega (arith, pow-suc 2 k)),
)
  where
    half_double : (t : ℕ) → 2 * t / 2 ≡ t
    half_double t = omega arith

or_comm_upto : (n a b : ℕ) → a ≤ n → b ≤ n → bit_or a b ≡ bit_or b a
or_comm_upto zero zero zero h k = refl
or_comm_upto zero zero (suc b) h k = absurd (omega arith)
or_comm_upto zero (suc a) b h k = absurd (omega arith)
or_comm_upto (suc n) zero zero h k = refl
or_comm_upto (suc n) zero (suc b) h k = omega (
  arith,
  bit_or_digit zero (suc b),
  bit_or_digit (suc b) zero,
  or_comm_upto n 0 (suc b / 2) (omega arith) (omega arith),
)
or_comm_upto (suc n) (suc a) b h k = omega (
  arith,
  bit_or_digit (suc a) b,
  bit_or_digit b (suc a),
  or_comm_upto n (suc a / 2) (b / 2) (omega arith) (omega arith),
)

pub bit_or_comm : (a b : ℕ) → bit_or a b ≡ bit_or b a
bit_or_comm a b = or_comm_upto (a + b) a b (omega arith) (omega arith)

and_zero_upto : (n a : ℕ) → a ≤ n → bit_and a 0 ≡ 0
and_zero_upto n zero h = bit_and-bitwise 0 0
and_zero_upto zero (suc a) h = absurd (omega arith)
and_zero_upto (suc n) (suc a) h =
    omega (arith, bit_and_digit (suc a) 0, and_zero_upto n (suc a / 2) (omega arith))

-- The remainder is the one number below the modulus that differs by a multiple of it.
pub mod_unique : (a t q r : ℕ) → a ≡ r + t * q → r < q → a % q ≡ r
mod_unique a t q r e h = ap (λ u. u % q) e ∙ add-mul-mod_self_right r t q ∙ mod-eq_of_lt h

mask_step : (a p q r : ℕ) → 1 ≤ p → q ≡ p * 2 → r ≡ a / 2 % p * 2 + min (a % 2) 1 → r ≡ a % q
mask_step a p q r h e d = sym (
    mod_unique a (a / 2 / p) q r
      (omega (arith, mod-add-div' (a / 2) p, ap (λ (u : ℕ). a / 2 / p * u) e))
      (omega (arith, mod-lt (a / 2) h)))

-- A mask of the `k` lowest bits is the remainder by `2 ^ k`.
pub bit_and-mask : (k a : ℕ) → bit_and a (2 ^ k - 1) ≡ a % 2 ^ k
bit_and-mask zero a = omega (arith, and_zero_upto a a (omega arith))
bit_and-mask (suc k) a =
    let half : (2 ^ suc k - 1) / 2 ≡ 2 ^ k - 1 = omega (arith, pow-suc 2 k, one-le-pow k 2) in
    let low : (2 ^ suc k - 1) % 2 ≡ 1 = omega (arith, pow-suc 2 k, one-le-pow k 2) in
    let digit : bit_and a (2 ^ suc k - 1) ≡ bit_and (a / 2) (2 ^ k - 1) * 2 + min (a % 2) 1 =
      rw (bit_and_digit a (2 ^ suc k - 1), half, low) in
    mask_step a (2 ^ k) (2 ^ suc k) (bit_and a (2 ^ suc k - 1)) (one-le-pow k 2 (omega arith))
      (pow-suc 2 k) (rw (bit_and-mask k (a / 2)) at digit)

-- The remainder by a product: the digit above the remainder by the first factor.
digit_below : (y p r q b : ℕ) → y < b → r < p → q ≡ p * b → r + y * p < q
digit_below y p r q b h h' e = grind arith

pub mod_digit : (p b q v : ℕ) → 1 ≤ p → 1 ≤ b → q ≡ p * b → v % q ≡ v % p + v / p % b * p
mod_digit p b q v pos pos' e =
    mod_unique v (v / p / b) q (v % p + v / p % b * p)
      (omega (
        arith,
        mod-add-div' v p,
        ap (λ (u : ℕ). u * p) (sym (mod-add-div' (v / p) b)),
        ap (λ (u : ℕ). v / p / b * u) e,
      ))
      (digit_below (v / p % b) p (v % p) q b (mod-lt (v / p) pos') (mod-lt v pos) e)
