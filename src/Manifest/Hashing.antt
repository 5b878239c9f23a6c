-- ===== src/Manifest/Hashing.antt =====
-- The limits of the content hash workers of state.rs. A setting of the environment is its text's
-- parse as a `usize`, where there is one.
use duet.Prelude.{ℕ, ◌*◌, ◌≤◌, ◌<◌, min, max, ltb, if◌then◌else◌, Option, none, some, arith}

abbrev pub max_hash_workers : ℕ
max_hash_workers = 64

abbrev pub max_hash_buffer_size : ℕ
max_hash_buffer_size = 4 * 1024 * 1024

-- A setting: absent, unparsable, or a number.
abbrev pub Setting : Type 0
Setting = Option (Option ℕ)

unfoldable pub hash_worker_limit_from : Setting → ℕ → ℕ
hash_worker_limit_from (some (some value)) available =
    min (if ltb 0 value then value else max available 1) max_hash_workers
hash_worker_limit_from (some none) available = min (max available 1) max_hash_workers
hash_worker_limit_from none available = min (max available 1) max_hash_workers

unfoldable pub positive_env_usize : Setting → ℕ → ℕ
positive_env_usize (some (some value)) default = if ltb 0 value then value else default
positive_env_usize (some none) default = default
positive_env_usize none default = default

abbrev pub default_hash_buffer_size : ℕ
default_hash_buffer_size = 1024 * 1024

unfoldable pub hash_buffer_size : Setting → ℕ
hash_buffer_size setting =
    min (positive_env_usize setting default_hash_buffer_size) max_hash_buffer_size

-- Whatever is set, at least one worker hashes and at most 64 do, and a buffer holds at least one byte
-- and at most 4 MiB.
pub hash_limits_lem :
    (setting : Setting) (available : ℕ)
    → (0 < hash_worker_limit_from setting available)
      × (hash_worker_limit_from setting available ≤ 64)
      × (0 < hash_buffer_size setting)
      × (hash_buffer_size setting ≤ 4 * 1024 * 1024)
unfolding hash_worker_limit_from hash_buffer_size positive_env_usize
hash_limits_lem (some (some value)) available =
    (ground arith, ground arith, ground arith, ground arith)
hash_limits_lem (some none) available = (omega arith, omega arith, omega arith, omega arith)
hash_limits_lem none available = (omega arith, omega arith, omega arith, omega arith)
