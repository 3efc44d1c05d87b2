-- ===== src/Browser/Sdp/Tests.antt =====
-- An answer with two addresses, of which one is private.
use vdt_provisioning_service.Prelude.{String, ◌≡◌, refl, some, [], ◌∷◌}
use vdt_provisioning_service.Prelude.Text.{starts_with}
use vdt_provisioning_service.Browser.Sdp.{
  is_private_ip, split_lines, join_lines, candidate_host, public_host, with_public_host, is_kept,
  sanitize_whep_answer_sdp,
}

abbrev public_line : String
public_line = "a=candidate:1 1 UDP 21 203.0.113.7 8189 typ host"

abbrev private_line : String
private_line = "a=candidate:2 1 udp 21 172.18.0.3 8189 typ host"

finds :
    (candidate_host public_line ≡ some "203.0.113.7")
    × (candidate_host private_line ≡ some "172.18.0.3")
unfolding candidate_host
finds = (refl, refl)

cleans :
    sanitize_whep_answer_sdp
      (join_lines ("v=0" ∷ "c=IN IP4 10.0.0.1" ∷ private_line ∷ public_line ∷ "" ∷ []))
    ≡ join_lines ("v=0" ∷ "c=IN IP4 203.0.113.7" ∷ public_line ∷ "" ∷ [])
unfolding sanitize_whep_answer_sdp with_public_host is_kept join_lines split_lines public_host
    is_private_ip candidate_host starts_with
cleans = refl
