-- ===== src/Wireguard/Dump.antt =====
-- What `getLivePeerStats` reads from `wg show <interface> dump`.
mod Tests
use vdt_provisioning_service.Prelude.{
  ℕ, ◌+◌, ◌≤◌, ◌<◌, String, ◌≡◌, ◌⊎◌, ◌↔◌, inl, inr, refl, sym, ap, subst, ◌∙◌, Bool, true, false,
  ◌&&◌, Option, none, some, List, [], ◌∷◌, ◌==◌, All, arith, eq_iff, Bool-cases, ltb, leb,
  if◌then◌else◌,
}
use vdt_provisioning_service.Prelude.Map
use vdt_provisioning_service.Prelude.Map.{Map}
use vdt_provisioning_service.Prelude.Entries.{All-set}
use vdt_provisioning_service.Prelude.Text.{trim, split}
use vdt_provisioning_service.Wireguard.{
  PeerStats, online, stats_of, record_stats, read_line, read_lines, parse_dump,
}

-- An entry of the map: under its own key, and online if and only if the last handshake is a time
-- no more than three minutes ago.
pub record IsEntry (now : ℕ) (e : String × PeerStats) : Type 0 where
  pub key : e.1.public_key ≡ e.0
  pub recent :
      (e.1.is_online ≡ true) ↔ ((0 < e.1.latest_handshake) × (now ≤ e.1.latest_handshake + 180))

online_iff :
    (now handshake : ℕ)
    → (online now handshake ≡ true) ↔ ((0 < handshake) × (now ≤ handshake + 180))
unfolding online
online_iff now handshake = (λ h. (ground arith, ground arith), λ h. ground (arith, h))

none-ne-some : {p : PeerStats} → none ≡ some p → ⊥
none-ne-some e = cc

same_stats : {p q : PeerStats} → some p ≡ some q → p ≡ q
same_stats e = cc

stats_entry :
    (now : ℕ) (fields : List String) (p : PeerStats)
    → stats_of now fields ≡ some p
    → p.is_online ≡ online now p.latest_handshake
unfolding stats_of
stats_entry now [] p h = absurd (none-ne-some h)
stats_entry now (a ∷ []) p h = absurd (none-ne-some h)
stats_entry now (a ∷ b ∷ []) p h = absurd (none-ne-some h)
stats_entry now (a ∷ b ∷ c ∷ []) p h = absurd (none-ne-some h)
stats_entry now (a ∷ b ∷ c ∷ d ∷ []) p h = absurd (none-ne-some h)
stats_entry now (a ∷ b ∷ c ∷ d ∷ e ∷ []) p h = absurd (none-ne-some h)
stats_entry now (a ∷ b ∷ c ∷ d ∷ e ∷ f ∷ []) p h = absurd (none-ne-some h)
stats_entry now (a ∷ b ∷ c ∷ d ∷ e ∷ f ∷ g ∷ more) p h =
    subst (λ (x : PeerStats). x.is_online ≡ online now x.latest_handshake) (same_stats h) refl

record-All :
    (now : ℕ) (o : Option PeerStats) (m : Map PeerStats)
    → ((p : PeerStats) → o ≡ some p → p.is_online ≡ online now p.latest_handshake)
    → All (IsEntry now) m
    → All (IsEntry now) (record_stats o m)
record-All now none m h hs = hs
record-All now (some p) m h hs =
    All-set (IsEntry now) m p.public_key p
      (record {
        key = refl;
        recent =
            subst (λ b. (b ≡ true) ↔ ((0 < p.latest_handshake) × (now ≤ p.latest_handshake + 180)))
              (sym (h p refl)) (online_iff now p.latest_handshake);
      })
      hs

lines-All :
    (now : ℕ) (lines : List String) (m : Map PeerStats)
    → All (IsEntry now) m
    → All (IsEntry now) (read_lines now lines m)
unfolding read_lines
lines-All now [] m hs = hs
lines-All now (line ∷ lines) m hs =
    lines-All now lines (read_line now line m) (one (Bool-cases (trim line == "")))
  where
    one :
        ((trim line == "") ≡ true) ⊎ ((trim line == "") ≡ false)
        → All (IsEntry now) (read_line now line m)
    one (inl e) = rw (e, read_line) hs
    one (inr e) =
        rw (e, read_line)
          (record-All now (stats_of now (split b'\t' (trim line))) m
            (stats_entry now (split b'\t' (trim line))) hs)

-- In the statistics read from a dump, every peer stands under its own key, and is online if and
-- only if its last handshake is a time that is no more than 180 seconds before `now`.
pub parse_dump-All : (now : ℕ) (out : String) → All (IsEntry now) (parse_dump now out)
unfolding parse_dump
parse_dump-All now out = from_lines (split b'\n' (trim out))
  where
    from_lines :
        (ls : List String)
        → All (IsEntry now) (elim ls [ [] ↦ [] | first ∷ lines ↦ read_lines now lines [] ])
    from_lines [] = tt
    from_lines (l ∷ ls) = lines-All now ls [] tt
