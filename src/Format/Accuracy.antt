-- ===== src/Format/Accuracy.antt =====
-- How far a printed size is from the bytes that it stands for, and how the two clients compare.
use zhici_photo_upload_platf.Format.{
  FileSize, format_file_size, format_file_size_mobile, gb, kb, mb, plain, round_div, to_fixed_1,
  whole_kb,
}
use zhici_photo_upload_platf.Prelude.{arith, ℕ, ◌*◌, ◌+◌, ◌<◌, ◌≤◌}

-- The bytes that a printed size stands for, times 10.
abbrev pub tenfold_bytes : FileSize → ℕ
tenfold_bytes (plain n) = 10 * n
tenfold_bytes (kb t) = 1024 * t
tenfold_bytes (mb t) = 1024 * 1024 * t
tenfold_bytes (gb t) = 1024 * 1024 * 1024 * t
tenfold_bytes (whole_kb n) = 10 * 1024 * n

-- The last printed digit, in bytes times 10.
abbrev pub resolution : FileSize → ℕ
resolution (plain n) = 0
resolution (kb t) = 1024
resolution (mb t) = 1024 * 1024
resolution (gb t) = 1024 * 1024 * 1024
resolution (whole_kb n) = 10 * 1024

-- The printed number is at least one of its unit, and at most 1024 of it.
abbrev pub IsScaled : FileSize → Type 0
IsScaled (plain n) = n < 1024
IsScaled (kb t) = (10 ≤ t) × (t ≤ 10240)
IsScaled (mb t) = (10 ≤ t) × (t ≤ 10240)
IsScaled (gb t) = 10 ≤ t
IsScaled (whole_kb n) = (1 ≤ n) × (n ≤ 1024)

-- The printed size is scaled to its unit, and differs from the bytes by at most half of its last digit.
abbrev pub IsAccurate : ℕ → FileSize → Type 0
IsAccurate bytes s =
    IsScaled s
    × (2 * (10 * bytes) ≤ 2 * tenfold_bytes s + resolution s)
    × (2 * tenfold_bytes s ≤ 2 * (10 * bytes) + resolution s)

web_size-IsAccurate : (bytes : ℕ) → IsAccurate bytes (format_file_size bytes)
unfolding format_file_size to_fixed_1
web_size-IsAccurate bytes = ground arith

mobile_size-IsAccurate : (bytes : ℕ) → IsAccurate bytes (format_file_size_mobile bytes)
unfolding format_file_size_mobile to_fixed_1 round_div
mobile_size-IsAccurate bytes = ground arith

-- The size that either client prints differs from the bytes by at most half of its last digit; and it
-- is scaled to its unit: a number of plain bytes is below 1024, 0 among them, and any other size is at
-- least one of its unit and, below gigabytes, at most 1024 of it.
pub format_file_size-IsAccurate :
    (bytes : ℕ)
    → IsAccurate bytes (format_file_size bytes) × IsAccurate bytes (format_file_size_mobile bytes)
format_file_size-IsAccurate bytes = (web_size-IsAccurate bytes, mobile_size-IsAccurate bytes)
