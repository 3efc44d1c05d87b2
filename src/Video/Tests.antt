-- ===== src/Video/Tests.antt =====
-- Video rooms of two browsers, and a path that leaves the folder of its drone.
use vdt_provisioning_service.Prelude.{String, ◌≡◌, refl, none}
use vdt_provisioning_service.Video.{without_slashes, query_of, media_path}
use vdt_provisioning_service.Prelude.Text.{trim}

abbrev plain : String → String
plain s = s

-- The router decodes a name such as `..%2FD4%2Findex.m3u8`.
climbs : media_path plain "D3" "../D4/index.m3u8" none ≡ "/live/D3/../D4/index.m3u8"
unfolding without_slashes query_of trim
climbs = refl
