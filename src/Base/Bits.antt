-- ===== src/Base/Bits.antt =====
-- Laws of `&`, `|` on bit patterns. Each is proved digit by digit.
use Prim.Native.Nat.{bit_and, bit_or, digits, bit_and-bitwise, bit_or-bitwise, min, max}
use native.Mathlib.Nat.{pow-suc, one-le-pow, mul_comm, div-div-eq-div-mul}
use libjit.Base.{
  ℕ, zero, suc, ◌+◌, ◌-◌, ◌*◌, ◌/◌, ◌%◌, ◌^◌, ◌≤◌, ◌<◌, ◌≡◌, refl, arith, ap, sym, ◌∙◌,
}

-- Digits from the lowest to the top one: the fuel does not matter once it reaches the top.
module _ (z : ℕ → ℕ) (f : ℕ → ℕ → ℕ) where
  digits-top : (fuel b : ℕ) → digits z f fuel 0 b ≡ z b
  digits-top zero b = refl
  digits-top (suc fuel) b = refl

  digits_settle :
      (a b fuel more : ℕ) → a ≤ fuel → a ≤ more → digits z f fuel a b ≡ digits z f more a b
  digits_settle zero b fuel more p q = digits-top fuel b ∙ sym (digits-top more b)
  digits_settle (suc a) b zero more p q = absurd (omega arith)
  digits_settle (suc a) b (suc fuel) zero p q = absurd (omega arith)
  digits_settle (suc a) b (suc fuel) (suc more) p q =
      omega (arith, digits_settle (suc a / 2) (b / 2) fuel more (omega arith) (omega arith))

-- The lowest digit of a result, and the digits above it.
pub or_digit : (a b : ℕ) → bit_or a b ≡ bit_or (a / 2) (b / 2) * 2 + max (a % 2) (b % 2)
or_digit zero b = rw (bit_or-bitwise zero b, bit_or-bitwise (zero / 2) (b / 2)) (omega arith)
or_digit (suc a) b = omega (
  arith,
  bit_or-bitwise (suc a) b,
  bit_or-bitwise (suc a / 2) (b / 2),
  digits_settle (λ y. y) max (suc a / 2) (b / 2) a (suc a / 2) (omega arith) (omega arith),
)

pub and_digit : (a b : ℕ) → bit_and a b ≡ bit_and (a / 2) (b / 2) * 2 + min (a % 2) (b % 2)
and_digit zero b = rw (bit_and-bitwise zero b, bit_and-bitwise (zero / 2) (b / 2)) (omega arith)
and_digit (suc a) b = omega (
  arith,
  bit_and-bitwise (suc a) b,
  bit_and-bitwise (suc a / 2) (b / 2),
  digits_settle (λ y. zero) min (suc a / 2) (b / 2) a (suc a / 2) (omega arith) (omega arith),
)

-- The laws below are first proved for numbers below 2 ^ n, by induction on n.
or_zero_below : (n a : ℕ) → a < 2 ^ n → bit_or a 0 ≡ a
or_zero_below zero a lt = ground (arith, or_digit a 0)
or_zero_below (suc n) a lt =
    omega (arith, or_digit a 0, pow-suc 2 n, or_zero_below n (a / 2) (omega (arith, pow-suc 2 n)))

lt-two_pow : (a : ℕ) → a < 2 ^ a
lt-two_pow zero = omega arith
lt-two_pow (suc a) = omega (arith, lt-two_pow a, pow-suc 2 a)

pub or-zero : (a : ℕ) → bit_or a 0 ≡ a
or-zero a = or_zero_below a a (lt-two_pow a)

and_zero_below : (n a : ℕ) → a < 2 ^ n → bit_and a 0 ≡ 0
and_zero_below zero a lt = ground (arith, and_digit a 0)
and_zero_below (suc n) a lt =
    omega (arith, and_digit a 0, pow-suc 2 n, and_zero_below n (a / 2) (omega (arith, pow-suc 2 n)))

pub and-zero : (a : ℕ) → bit_and a 0 ≡ 0
and-zero a = and_zero_below a a (lt-two_pow a)

times_pow-suc : (q k : ℕ) → q * 2 ^ suc k ≡ 2 * (q * 2 ^ k)
times_pow-suc q k = omega (arith, ap (λ (t : ℕ). q * t) (pow-suc 2 k))

bit_or_comm_below : (n a b : ℕ) → a < 2 ^ n → b < 2 ^ n → bit_or a b ≡ bit_or b a
bit_or_comm_below zero a b la lb =
    let ea : a ≡ 0 = omega arith in let eb : b ≡ 0 = omega arith in rw (ea, eb)
bit_or_comm_below (suc n) a b la lb = omega (
  arith,
  or_digit a b,
  or_digit b a,
  bit_or_comm_below n (a / 2) (b / 2) (omega (arith, pow-suc 2 n)) (omega (arith, pow-suc 2 n)),
)

pub bit_or_comm : (a b : ℕ) → bit_or a b ≡ bit_or b a
bit_or_comm a b =
    bit_or_comm_below (a + b) a b (omega (arith, lt-two_pow (a + b)))
      (omega (arith, lt-two_pow (a + b)))

-- `(q << k) | r` is a sum where `r` has k bits.
pub or_disjoint : (k q r : ℕ) → r < 2 ^ k → bit_or (q * 2 ^ k) r ≡ q * 2 ^ k + r
or_disjoint zero q r lt = ground (arith, or-zero q)
or_disjoint (suc k) q r lt =
    ground
      (arith, or_digit (q * 2 ^ suc k) r, times_pow-suc q k, pow-suc 2 k, or_disjoint k q (r / 2))

and_low_parts : (k q r : ℕ) → r < 2 ^ k → bit_and (q * 2 ^ k + r) (2 ^ k - 1) ≡ r
and_low_parts zero q r lt = rw and-zero (omega arith)
and_low_parts (suc k) q r lt = ground (
  arith,
  and_digit (q * 2 ^ suc k + r) (2 ^ suc k - 1),
  times_pow-suc q k,
  pow-suc 2 k,
  one-le-pow k 2,
  and_low_parts k q (r / 2),
)

-- A mask of k ones is the remainder by 2 ^ k.
pub and_low : (k a : ℕ) → bit_and a (2 ^ k - 1) ≡ a % 2 ^ k
and_low k a = ground (arith, one-le-pow k 2, and_low_parts k (a / 2 ^ k) (a % 2 ^ k))

-- A mask of one bit.
pub and_high : (k a : ℕ) → bit_and a (2 ^ k) ≡ a / 2 ^ k % 2 * 2 ^ k
and_high zero a = ground (arith, and_digit a 1, and-zero (a / 2))
and_high (suc k) a =
    let half : 2 ^ suc k / 2 ≡ 2 ^ k = omega (arith, pow-suc 2 k) in
    let even : 2 ^ suc k % 2 ≡ 0 = omega (arith, pow-suc 2 k) in
    let twice : a / 2 ^ suc k ≡ a / 2 / 2 ^ k =
      rw (pow-suc 2 k, mul_comm (2 ^ k) 2) (sym (div-div-eq-div-mul a 2 (2 ^ k))) in
    ground (
      arith,
      and_digit a (2 ^ suc k),
      half,
      even,
      twice,
      times_pow-suc (a / 2 / 2 ^ k % 2) k,
      and_high k (a / 2),
    )

or_half :
    (a b : ℕ) → (bit_or a b / 2 ≡ bit_or (a / 2) (b / 2)) × (bit_or a b % 2 ≡ max (a % 2) (b % 2))
or_half a b = omega (arith, or_digit a b)

and_half :
    (a b : ℕ)
    → (bit_and a b / 2 ≡ bit_and (a / 2) (b / 2)) × (bit_and a b % 2 ≡ min (a % 2) (b % 2))
and_half a b = omega (arith, and_digit a b)

pub and-or_absorb : (n a b : ℕ) → b < 2 ^ n → bit_and (bit_or a b) b ≡ b
and-or_absorb zero a b lt = let e : b ≡ 0 = omega arith in rw (e, and-zero (bit_or a 0))
and-or_absorb (suc n) a b lt =
    ground
      (arith, and_digit (bit_or a b) b, or_half a b, pow-suc 2 n, and-or_absorb n (a / 2) (b / 2))

-- What a mask clears is gone.
pub and-and_complement : (n a b : ℕ) → b < 2 ^ n → bit_and (bit_and a (2 ^ n - 1 - b)) b ≡ 0
and-and_complement zero a b lt = let e : b ≡ 0 = omega arith in rw (e, and-zero (bit_and a _))
and-and_complement (suc n) a b lt =
    let half : (2 ^ suc n - 1 - b) / 2 ≡ 2 ^ n - 1 - b / 2 = omega (arith, pow-suc 2 n) in
    let other : (2 ^ suc n - 1 - b) % 2 ≡ 1 - b % 2 = omega (arith, pow-suc 2 n) in
    ground (
      arith,
      and_digit (bit_and a (2 ^ suc n - 1 - b)) b,
      and_half a (2 ^ suc n - 1 - b),
      half,
      other,
      pow-suc 2 n,
      and-and_complement n (a / 2) (b / 2),
    )

pub or-lt : (n a b : ℕ) → a < 2 ^ n → b < 2 ^ n → bit_or a b < 2 ^ n
or-lt zero a b la lb = ground (arith, or_digit a b, or-zero 0)
or-lt (suc n) a b la lb = ground (arith, or_digit a b, pow-suc 2 n, or-lt n (a / 2) (b / 2))

pub and-le : (n a b : ℕ) → a < 2 ^ n → bit_and a b ≤ a
and-le zero a b la = let e : a ≡ 0 = omega arith in rw (e, bit_and-bitwise zero b) (omega arith)
and-le (suc n) a b la = ground (arith, and_digit a b, pow-suc 2 n, and-le n (a / 2) (b / 2))

pub and-or_absorb_left : (n a b : ℕ) → a < 2 ^ n → bit_and (bit_or a b) a ≡ a
and-or_absorb_left zero a b lt = let e : a ≡ 0 = omega arith in rw (e, and-zero (bit_or 0 b))
and-or_absorb_left (suc n) a b lt = ground (
  arith,
  and_digit (bit_or a b) a,
  or_half a b,
  pow-suc 2 n,
  and-or_absorb_left n (a / 2) (b / 2),
)
