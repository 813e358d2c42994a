-- ===== src/Format/Tests.antt =====
-- Sizes as printed, and the theorems at an input.
use zhici_photo_upload_platf.Format.{
  format_file_size, format_file_size_mobile, kb, round_div, to_fixed_1, whole_kb,
}
use zhici_photo_upload_platf.Format.Accuracy.{IsAccurate, format_file_size-IsAccurate}
use zhici_photo_upload_platf.Prelude.{refl, ◌≡◌}

-- 1 536 bytes are "1.5 KB", and "2 KB" on the mobile client.
kb_and_a_half : (format_file_size 1536 ≡ kb 15) × (format_file_size_mobile 1536 ≡ whole_kb 2)
unfolding format_file_size format_file_size_mobile to_fixed_1 round_div
kb_and_a_half = (refl, refl)

-- One byte below a megabyte prints as "1024.0 KB".
almost_mb : format_file_size 1048575 ≡ kb 10240
unfolding format_file_size to_fixed_1
almost_mb = refl

size_1536-IsAccurate :
    IsAccurate 1536 (format_file_size 1536) × IsAccurate 1536 (format_file_size_mobile 1536)
size_1536-IsAccurate = format_file_size-IsAccurate 1536
