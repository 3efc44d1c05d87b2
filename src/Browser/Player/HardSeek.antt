-- ===== src/Browser/Player/HardSeek.antt =====
-- drone-fleet-manager/public/js/video/video-hls.js: the jumps to the live edge at LEVEL_UPDATED. Whether
-- the element is too far behind is an argument.
use vdt_provisioning_service.Prelude.{
  ℕ, ◌+◌, ◌-◌, ◌<◌, inl, inr, Bool, true, false, List, [], ◌∷◌, ◌&&◌, ltb, arith, Bool-cases,
  if◌then◌else◌,
}

-- `lastHlsHardSeekTime` after the event, and whether the element jumps.
unfoldable pub level_updated : ℕ → Bool → ℕ → ℕ × Bool
level_updated now is_far last =
    if is_far && ltb 3000 (now - last) then (now, true) else (last, false)

-- The times of the jumps.
pub jumps : List (ℕ × Bool) → ℕ → List ℕ
jumps [] last = []
jumps ((now, is_far) ∷ es) last =
    let rest = jumps es (level_updated now is_far last).0 in
    if (level_updated now is_far last).1 then now ∷ rest else rest

abbrev pub IsSpaced : ℕ → List ℕ → Type 0
IsSpaced last [] = Unit
IsSpaced last (t ∷ ts) = (last + 3000 < t) × IsSpaced t ts

-- The element jumps more than three seconds after it jumped before.
pub jumps-IsSpaced : (es : List (ℕ × Bool)) (last : ℕ) → IsSpaced last (jumps es last)
unfolding jumps level_updated
jumps-IsSpaced [] last = tt
jumps-IsSpaced ((now, is_far) ∷ es) last = elim (Bool-cases (is_far && ltb 3000 (now - last))) [
  | inl e ↦ rw e (ground (arith, e), jumps-IsSpaced es now)
  | inr e ↦ rw e (jumps-IsSpaced es last)
]
