-- ===== src/Format.antt =====
-- frontend/src/utils/format.ts and mobile/src/utils/format.ts: sizes in bytes, as printed.
pub mod Accuracy
mod Tests
use zhici_photo_upload_platf.Prelude.{if◌then◌else◌, leb, ltb, ℕ, ◌*◌, ◌+◌, ◌/◌}

-- The number that is printed and its unit. `KB`, `MB` and `GB` of the web client and `MB` and `GB`
-- of the mobile client are in tenths, as `toFixed(1)` prints them.
pub data FileSize : Type 0 where
  plain kb mb gb : ℕ → FileSize
  whole_kb : ℕ → FileSize

-- `(n / d).toFixed(1)` in tenths: the nearest tenth, the larger of two equally near. The division by
-- a power of two is exact in a double.
unfoldable pub to_fixed_1 : ℕ → ℕ → ℕ
to_fixed_1 n d = (20 * n + d) / (2 * d)

-- `Math.round(n / d)`.
unfoldable pub round_div : ℕ → ℕ → ℕ
round_div n d = (2 * n + d) / (2 * d)

unfoldable pub format_file_size : ℕ → FileSize
format_file_size bytes =
    if ltb bytes 1024
    then plain bytes
    else if ltb bytes (1024 * 1024)
    then kb (to_fixed_1 bytes 1024)
    else if ltb bytes (1024 * 1024 * 1024)
    then mb (to_fixed_1 bytes (1024 * 1024))
    else gb (to_fixed_1 bytes (1024 * 1024 * 1024))

-- The mobile client's version.
unfoldable pub format_file_size_mobile : ℕ → FileSize
format_file_size_mobile bytes =
    if leb 1073741824 bytes
    then gb (to_fixed_1 bytes 1073741824)
    else if leb 1048576 bytes
    then mb (to_fixed_1 bytes 1048576)
    else if leb 1024 bytes
    then whole_kb (round_div bytes 1024)
    else plain bytes
