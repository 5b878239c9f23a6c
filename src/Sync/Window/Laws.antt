-- ===== src/Sync/Window/Laws.antt =====
-- The integer square root, and the window made of it.
use duet.Prelude.{
  sym, ◌-◌, ℕ, zero, suc, ◌+◌, ◌*◌, ◌/◌, ◌^◌, ◌≤◌, ◌<◌, min, max, ◌≡◌, refl, arith, ltb, leb,
  Bool-cases, inl, inr, ok,
}
use duet.Sync.Window.{
  add_u64, mean, descend, integer_sqrt, SignatureWindowConfig, normalized, window_for_size,
}

-- `r` is the square root of `n`, rounded down.
abbrev pub IsSqrt : ℕ → ℕ → Type 0
IsSqrt n r = (r * r ≤ n) × (n < (r + 1) * (r + 1))

div_mul : (n x : ℕ) → 0 < x → (n / x) * x ≤ n
div_mul n x h = grind arith

div_next : (n x : ℕ) → 0 < x → n < (n / x + 1) * x
div_next n x h = grind arith

mul_le : (s t u : ℕ) → t ≤ u → s * t ≤ s * u
mul_le zero t u h = omega arith
mul_le (suc s) t u h = grind (arith, mul_le s t u h)

square_below : (s i t : ℕ) → t ≤ s + 2 * i → s * t ≤ (s + i) * (s + i)
square_below s i t h = grind (arith, mul_le s t (s + 2 * i) h)

-- A product is at most the square of half the sum.
product_le : (s t m : ℕ) → s + t ≤ 2 * m → s * t ≤ m * m
product_le s t m h = elim (Bool-cases (leb s m)) [
  | inl y ↦ grind (arith, square_below s (m - s) t)
  | inr n ↦ grind (arith, square_below t (m - t) s)
]

square_mean : (a b y : ℕ) → a + b ≤ 2 * y + 1 → a * (b + 1) ≤ (y + 1) * (y + 1)
square_mean a b y h = product_le a (b + 1) (y + 1) (omega (arith, h))

sum_le : (n x q : ℕ) → 0 < x → x ≤ n → q * x ≤ n → x + q ≤ n + 1
sum_le n zero q h k l = omega (arith, h)
sum_le n (suc x) zero h k l = omega (arith, k)
sum_le n (suc x) (suc q) h k l = grind (arith, h, k, l)

upper : (n x : ℕ) → 0 < x → n < ((x + n / x) / 2 + 1) * ((x + n / x) / 2 + 1)
upper n x h = grind (arith, div_next n x h, square_mean x (n / x) ((x + n / x) / 2))

lower : (n x : ℕ) → 0 < x → x ≤ (x + n / x) / 2 → x * x ≤ n
lower n x h k = grind (arith, div_mul n x h)

mean_lem : (n x : ℕ) → n + 1 < 2 ^ 64 → 0 < x → x ≤ n → mean n x ≡ ok ((x + n / x) / 2)
unfolding mean add_u64
mean_lem n x small h k = ground (arith, small, sum_le n x (n / x) h k (div_mul n x h))

positive : (n y : ℕ) → 0 < n → n < (y + 1) * (y + 1) → 0 < y
positive n zero h k = omega (arith, h, k)
positive n (suc y) h k = omega arith

descend_lem :
    (fuel n x y : ℕ)
    → n + 1 < 2 ^ 64
    → 0 < n
    → 0 < x
    → x ≤ n
    → x ≤ fuel
    → n < (x + 1) * (x + 1)
    → y ≡ (x + n / x) / 2
    → (r : ℕ) × (descend fuel n x y ≡ ok r) × IsSqrt n r
unfolding descend
descend_lem zero n x y small pos h k f u e = absurd (omega (arith, h, f))
descend_lem (suc fuel) n x y small pos h k f u e = elim (Bool-cases (ltb y x)) [
  | inl lower_y ↦
      let above = rw (sym e) at (upper n x h) in
      let pos_y = positive n y pos above in
      let below : y < x = ground (arith, lower_y) in
      let (r, found, root) =
        descend_lem fuel n y ((y + n / y) / 2) small pos pos_y (omega (arith, below, k))
          (omega (arith, below, f)) above refl in
      (r, ground (arith, lower_y, mean_lem n y small pos_y (omega (arith, below, k)), found), root)
  | inr stop ↦
      let reached : x ≤ (x + n / x) / 2 = ground (arith, stop, e) in
      (x, ground (arith, stop), (lower n x h reached, u))
]

square_above : (n : ℕ) → n < (n + 1) * (n + 1)
square_above n = grind arith

integer_sqrt_large :
    (n : ℕ) → n + 1 < 2 ^ 64 → 1 < n → (r : ℕ) × (integer_sqrt n ≡ ok r) × IsSqrt n r
unfolding integer_sqrt
integer_sqrt_large n small large =
    let (r, found, root) =
      descend_lem n n n ((n + n / n) / 2) small (omega (arith, large)) (omega (arith, large))
        (omega arith) (omega arith) (square_above n) refl in
    (r, ground (arith, large, mean_lem n n small (omega (arith, large)) (omega arith), found), root)

-- For every size whose successor fits 64 bits the loop ends without an overflow, and its result is
-- the square root rounded down.
pub integer_sqrt_lem : (n : ℕ) → n + 1 < 2 ^ 64 → (r : ℕ) × (integer_sqrt n ≡ ok r) × IsSqrt n r
integer_sqrt_lem zero small = unfold integer_sqrt in (0, refl, (omega arith, omega arith))
integer_sqrt_lem (suc zero) small = unfold integer_sqrt in (1, refl, (omega arith, omega arith))
integer_sqrt_lem (suc (suc n)) small = integer_sqrt_large (suc (suc n)) small (omega arith)

-- For every size whose successor fits 64 bits the window lies between the normalized bounds, of
-- which the lower one is positive.
pub window_for_size_lem :
    (c : SignatureWindowConfig) (size : ℕ)
    → size + 1 < 2 ^ 64
    → (w : ℕ) × (window_for_size c size ≡ ok w)
      × (0 < (normalized c).min_window)
      × ((normalized c).min_window ≤ w)
      × (w ≤ (normalized c).max_window)
unfolding window_for_size normalized
window_for_size_lem c size small =
    let (r, found, root) = integer_sqrt_lem size small in
    (
      min (max r (normalized c).min_window) (normalized c).max_window,
      ground (arith, found),
      omega arith,
      omega arith,
      omega arith,
    )
