-- ===== src/Wireguard/Dump/Tests.antt =====
-- A dump of one interface with two peers.
use vdt_provisioning_service.Prelude.{String, ◌≡◌, refl, true, false, [], ◌∷◌, map, All}
use vdt_provisioning_service.Prelude.Map
use vdt_provisioning_service.Prelude.Text.{trim, split, parse_int}
use vdt_provisioning_service.Wireguard.{
  PeerStats, online, parse_dump, stats_of, read_line, read_lines,
}
use vdt_provisioning_service.Wireguard.Dump.{IsEntry, parse_dump-All}

abbrev dump : String
dump =
    "priv\tpub\t51820\toff\nKEY1\t(none)\t1.2.3.4:5\t10.13.37.2/32\t900\t10\t20\t25\nKEY2\t(none)\t(none)\t10.13.37.3/32\t0\t0\t0\toff\n"

reads : map (λ (p : PeerStats). p.is_online) (Map.values (parse_dump 1000 dump)) ≡ true ∷ false ∷ []
unfolding trim split parse_int online parse_dump Map.set stats_of read_line read_lines
reads = refl

parse_dump-All_example : All (IsEntry 1000) (parse_dump 1000 dump)
parse_dump-All_example = parse_dump-All 1000 dump
