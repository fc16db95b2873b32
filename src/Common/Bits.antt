-- ===== src/Common/Bits.antt =====
-- The bitwise operations on native numbers, as sums and remainders.
use Prim.Native.Nat.{
  ℕ, zero, suc, ◌+◌, ◌*◌, ◌/◌, ◌%◌, ◌^◌, ◌≤◌, ◌<◌, digits, bitwise, bit_or, bit_or-bitwise, bit_and,
  bit_and-bitwise, min, max,
}
use mathlib.Core.Path.{◌≡◌, refl, sym, ap, ◌∙◌}
use native.Mathlib.Nat.{pow-suc, mul_assoc}
use native.Mathlib.Omega.{arith}

-- The count of digits does not matter, where it is large enough.
digits_count :
    (z : ℕ → ℕ) (f : ℕ → ℕ → ℕ) (n m a b : ℕ) → a ≤ n → a ≤ m → digits z f n a b ≡ digits z f m a b
digits_count z f zero zero a b h k = refl
digits_count z f zero (suc m) zero b h k = refl
digits_count z f zero (suc m) (suc a) b h k = absurd (omega arith)
digits_count z f (suc n) zero zero b h k = refl
digits_count z f (suc n) zero (suc a) b h k = absurd (omega arith)
digits_count z f (suc n) (suc m) zero b h k = refl
digits_count z f (suc n) (suc m) (suc a) b h k =
    ap (λ r. r * 2 + f (suc a % 2) (b % 2))
      (digits_count z f n m (suc a / 2) (b / 2) (omega arith) (omega arith))

to_digits : (a b : ℕ) → bit_or a b ≡ bitwise (λ b. b) max a b
to_digits a b = λ i. bit_or-bitwise a b i

bit_or_zero : (b : ℕ) → bit_or 0 b ≡ b
bit_or_zero b = to_digits 0 b

bit_or_step :
    (a b : ℕ) → bit_or (suc a) b ≡ bit_or (suc a / 2) (b / 2) * 2 + max (suc a % 2) (b % 2)
bit_or_step a b =
    to_digits (suc a) b
    ∙ ap (λ r. r * 2 + max (suc a % 2) (b % 2))
        (digits_count (λ b. b) max a (suc a / 2) (suc a / 2) (b / 2) (omega arith) (omega arith)
          ∙ sym (to_digits (suc a / 2) (b / 2)))

max_zero : (a : ℕ) → max a 0 ≡ a
max_zero zero = refl
max_zero (suc a) = omega arith

double_half : (q : ℕ) → (q * 2 / 2 ≡ q) × (q * 2 % 2 ≡ 0)
double_half q = (omega arith, omega arith)

zero_plus : (q : ℕ) → q ≡ 0 + q
zero_plus q = omega arith

regroup : (a q : ℕ) → (suc a / 2 + q) * 2 + suc a % 2 ≡ suc a + q * 2
regroup a q = omega arith

doubled : (k b : ℕ) → b * 2 ^ suc k ≡ b * 2 ^ k * 2
doubled k b = ap (◌*◌ b) (pow-suc 2 k) ∙ sym (mul_assoc b (2 ^ k) 2)

-- A number whose digits lie above those of another is added by `|`.
pub bit_or-add : (k a b : ℕ) → a < 2 ^ k → bit_or a (b * 2 ^ k) ≡ a + b * 2 ^ k
bit_or-add zero zero b h = bit_or_zero (b * 2 ^ 0) ∙ omega arith
bit_or-add zero (suc a) b h = absurd (omega arith)
bit_or-add (suc k) zero b h = let q = b * 2 ^ suc k in bit_or_zero q ∙ zero_plus q
bit_or-add (suc k) (suc a) b h =
    let p = pow-suc 2 k in
    let q = b * 2 ^ k in
    let half = double_half q in
    ap (bit_or (suc a)) (doubled k b)
    ∙ bit_or_step a (q * 2)
    ∙ ap (λ r. bit_or (suc a / 2) r * 2 + max (suc a % 2) (q * 2 % 2)) half.0
    ∙ ap (λ r. bit_or (suc a / 2) q * 2 + max (suc a % 2) r) half.1
    ∙ ap (λ r. bit_or (suc a / 2) q * 2 + r) (max_zero (suc a % 2))
    ∙ ap (λ r. r * 2 + suc a % 2) (bit_or-add k (suc a / 2) b (omega arith))
    ∙ regroup a q
    ∙ ap (λ r. suc a + r) (sym (doubled k b))

and_to_digits : (a b : ℕ) → bit_and a b ≡ bitwise (λ b. zero) min a b
and_to_digits a b = λ i. bit_and-bitwise a b i

lower : (a n : ℕ) → n % 2 ≡ 1 → min (suc a % 2) (n % 2) ≡ suc a % 2
lower a n k = omega arith

-- One binary digit of a mask of ones.
bit_and_step : (a m n : ℕ) → n / 2 ≡ m → n % 2 ≡ 1 → bit_and a n ≡ bit_and (a / 2) m * 2 + a % 2
bit_and_step zero m n h k = and_to_digits 0 n ∙ ap (λ r. r * 2 + 0) (sym (and_to_digits 0 m))
bit_and_step (suc a) m n h k =
    and_to_digits (suc a) n
    ∙ ap (λ r. r * 2 + min (suc a % 2) (n % 2))
        (digits_count (λ b. zero) min a (suc a / 2) (suc a / 2) (n / 2) (omega arith) (omega arith)
          ∙ sym (and_to_digits (suc a / 2) (n / 2)))
    ∙ ap (λ r. bit_and (suc a / 2) r * 2 + min (suc a % 2) (n % 2)) h
    ∙ ap (λ r. bit_and (suc a / 2) m * 2 + r) (lower a n k)

nothing : (x : ℕ) → 0 * 2 + min x 0 ≡ 0
nothing x = omega arith

digits_none : (n a : ℕ) → digits (λ b. zero) min n a 0 ≡ 0
digits_none zero a = refl
digits_none (suc n) zero = refl
digits_none (suc n) (suc a) =
    ap (λ r. r * 2 + min (suc a % 2) 0) (digits_none n (suc a / 2)) ∙ nothing (suc a % 2)

-- `& 0xff` is the lowest byte.
pub bit_and-byte : (a : ℕ) → bit_and a 255 ≡ a % 256
bit_and-byte a =
    let b0 = bit_and_step a 127 255 refl refl in
    let b1 = bit_and_step (a / 2) 63 127 refl refl in
    let b2 = bit_and_step (a / 2 / 2) 31 63 refl refl in
    let b3 = bit_and_step (a / 2 / 2 / 2) 15 31 refl refl in
    let b4 = bit_and_step (a / 2 / 2 / 2 / 2) 7 15 refl refl in
    let b5 = bit_and_step (a / 2 / 2 / 2 / 2 / 2) 3 7 refl refl in
    let b6 = bit_and_step (a / 2 / 2 / 2 / 2 / 2 / 2) 1 3 refl refl in
    let b7 = bit_and_step (a / 2 / 2 / 2 / 2 / 2 / 2 / 2) 0 1 refl refl in
    let last = a / 2 / 2 / 2 / 2 / 2 / 2 / 2 / 2 in
    let b8 = and_to_digits last 0 ∙ digits_none last last in omega arith
