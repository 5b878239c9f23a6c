-- ===== src/Sync/Window.antt =====
-- `SignatureWindowConfig`: the length of the blocks of a file's signature. An addition of `u64` that
-- does not fit is an error value.
pub mod Laws
use duet.Prelude.{
  ℕ, zero, suc, ◌+◌, ◌*◌, ◌/◌, ◌^◌, max, min, Bool, true, false, ltb, leb, if◌then◌else◌, Result,
  ok, err, ◌>>=◌,
}

pub data WindowFault : Type 0 where
  overflow : WindowFault
  -- the fuel of the model ran out
  endless : WindowFault

unfoldable pub add_u64 : ℕ → ℕ → Result WindowFault ℕ
add_u64 a b = if ltb (a + b) (2 ^ 64) then ok (a + b) else err overflow

-- `(x + n / x) / 2`
unfoldable pub mean : ℕ → ℕ → Result WindowFault ℕ
mean n x = do s ← add_u64 x (n / x); ok (s / 2)

-- The `while`.
unfoldable pub descend : ℕ → ℕ → ℕ → ℕ → Result WindowFault ℕ
descend zero n x y = elim (ltb y x) [ true ↦ err endless | false ↦ ok x ]
descend (suc fuel) n x y = elim (ltb y x) [ true ↦ mean n y >>= descend fuel n y | false ↦ ok x ]

unfoldable pub integer_sqrt : ℕ → Result WindowFault ℕ
integer_sqrt n = if leb n 1 then ok n else (do y ← mean n n; descend n n n y)

pub record SignatureWindowConfig : Type 0 where
  pub min_window : ℕ
  pub max_window : ℕ

unfoldable pub normalized : SignatureWindowConfig → SignatureWindowConfig
normalized c =
    let low = max c.min_window 1 in record { min_window = low; max_window = max c.max_window low }

unfoldable pub window_for_size : SignatureWindowConfig → ℕ → Result WindowFault ℕ
window_for_size c size = do
  root ← integer_sqrt size
  let config = normalized c
  ok (min (max root config.min_window) config.max_window)
