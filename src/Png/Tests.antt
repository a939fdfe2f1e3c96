-- ===== src/Png/Tests.antt =====
-- The checksum of the digits 1 to 9, which the PNG specification's algorithm gives.
use or_isy_vra.Base.{◌≡◌, refl, codes}
use or_isy_vra.Png.{crc32, crc_bytes}

crc32_check : crc32 (codes "123456789") ≡ 0xcbf43926
unfolding crc32 crc_bytes
crc32_check = refl
