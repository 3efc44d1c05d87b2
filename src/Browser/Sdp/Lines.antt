-- ===== src/Browser/Sdp/Lines.antt =====
-- drone-fleet-manager/public/js/video/video-webrtc.js: the lines of the answer that the page uses.
use Prim.Native.Char.{Char}
use vdt_provisioning_service.Prelude.{
  ℕ, zero, suc, ◌+◌, String, ◌≡◌, Bool, true, false, not, none, some, List, ◌==◌, ◌&&◌, ◌||◌, eqb,
}
use vdt_provisioning_service.Prelude.Text.{every, show, starts_with}
use vdt_provisioning_service.Browser.Sdp.{concat, split_lines, candidate_host, with_public_host}

-- A text of one line.
abbrev IsLine : String → Type 0
IsLine l = every (λ c. not (eqb c 10)) l ≡ true

-- The private addresses: 10/8, 192.168/16, 127/8, 169.254/16, and 172.16/12 by its second number.
in_block_172 : ℕ → ℕ → String → Bool
in_block_172 zero n host = false
in_block_172 (suc more) n host =
    let rest = in_block_172 more (n + 1) host in
    starts_with (concat "172." (concat (show n) ".")) host || rest

unfoldable pub is_private : String → Bool
unfolding in_block_172
is_private host =
    (starts_with "10." host || starts_with "192.168." host)
    || ((starts_with "127." host || starts_with "169.254." host) || in_block_172 16 16 host)

-- A candidate line with a private address.
abbrev pub gives_private : String → Bool
gives_private l =
    starts_with "a=candidate:" l
    && elim (candidate_host l) [ none ↦ false | some host ↦ is_private host ]

-- A candidate line whose address is not private.
abbrev pub IsPublicCandidate : String → Type 0
IsPublicCandidate l = (host : String) × (candidate_host l ≡ some host) × (is_private host ≡ false)

module _ (sdp : String) (given : (sdp == "") ≡ false) where
  abbrev changed : List String
  changed = split_lines (with_public_host sdp)
