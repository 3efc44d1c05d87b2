-- ===== src/Provisioning/Gate.antt =====
-- Who gets past the checks of `registerDevice`.
use Prim.Native.String.{len}
use vdt_provisioning_service.Prelude.{
  String, ◌≡◌, ◌≢◌, ◌↔◌, ◌⊎◌, inl, inr, refl, ap, ◌∙◌, true, Option, none, some, ◌==◌, eq_iff,
  first, arith, Bool-cases,
}
use vdt_provisioning_service.Prelude.Effect.{
  Result, err, Failure, internal, unauthorized, conflict, ◌>>=◌, bind_rule,
}
use vdt_provisioning_service.Services.{Services, World}
use vdt_provisioning_service.Services.Tables.{Device}
use vdt_provisioning_service.Device.{find_by_device_id}
use vdt_provisioning_service.Device.Laws.{devices}
use vdt_provisioning_service.Provisioning.{
  RegisterDto, Response, secure_compare, authorised, handle_existing, register_device,
}

-- The comparison by length and then by content is equality.
pub secure_compare_iff : (a b : String) → (secure_compare a b ≡ true) ↔ (a ≡ b)
unfolding secure_compare
secure_compare_iff a b = (
  λ h. (eq_iff a b).0 (ground arith),
  λ e. let same : len a ≡ len b = ap len e in ground (arith, eq_iff a b),
)

module _ {v : Services} (w : World v) (dto : RegisterDto) where
  authorised_refuses :
      (o : Option String)
      → ((o ≢ some dto.provision_token) ⊎ (dto.provision_token ≡ ""))
      → (authorised dto o w ≡ (err internal, w)) ⊎ (authorised dto o w ≡ (err unauthorized, w))
  unfolding authorised
  authorised_refuses none h = inl refl
  authorised_refuses (some t) h =
      ground (arith, secure_compare_iff dto.provision_token t, eq_iff t "")

  -- A token that is empty or not the configured one gets an error, and nothing has changed.
  pub register_device_refuses :
      (v.config "PROVISION_SECRET_TOKEN" ≢ some dto.provision_token) ⊎ (dto.provision_token ≡ "")
      → (register_device dto w ≡ (err internal, w))
        ⊎ (register_device dto w ≡ (err unauthorized, w))
  unfolding register_device
  register_device_refuses h = authorised_refuses (v.config "PROVISION_SECRET_TOKEN") h

  abbrev pub Blocked : Result Response × World v → Type 0
  Blocked x = ((e : Failure) × (x.0 ≡ err e)) × (devices x.1 ≡ devices w) × (x.1.host ≡ w.host)

  module _ (d : Device) (is_row : first (λ r. r.device_id == dto.device_id) (devices w) ≡ some d)
      (revoked : d.status ≡ "REVOKED") where
    revoked-Blocked :
        (o : Option Device) (s : World v)
        → o ≡ some d
        → devices s ≡ devices w
        → s.host ≡ w.host
        → Blocked (handle_existing dto o s)
    unfolding handle_existing
    revoked-Blocked none s e same host = absurd (cc)
    revoked-Blocked (some x) s e same host =
        let same_row : x ≡ d = cc in
        let is_revoked : (x.status == "REVOKED") ≡ true =
          (eq_iff x.status "REVOKED").1 (ap (λ (r : Device). r.status) same_row ∙ revoked) in
        rw is_revoked ((conflict, refl), same, host)

    found-Blocked : Blocked ((find_by_device_id dto.device_id >>= handle_existing dto) w)
    unfolding find_by_device_id
    found-Blocked =
        let keeps = v.database.find_by_device_id_keeps dto.device_id w.db in
        bind_rule Blocked (find_by_device_id dto.device_id) (handle_existing dto) w
          (λ o q.
            revoked-Blocked o _ (v.database.find_by_device_id_finds dto.device_id w.db o q ∙ is_row)
              keeps refl)
          (λ e q. ((e, refl), keeps, refl))

    authorised-Blocked : (o : Option String) → Blocked (authorised dto o w)
    unfolding authorised
    authorised-Blocked none = ((internal, refl), refl, refl)
    authorised-Blocked (some expected) = elim (Bool-cases (expected == "")) [
      | inl empty ↦ rw empty ((internal, refl), refl, refl)
      | inr set ↦ elim (Bool-cases (secure_compare dto.provision_token expected)) [
        | inl same ↦ rw (set, same) found-Blocked
        | inr other ↦ rw (set, other) ((unauthorized, refl), refl, refl)
      ]
    ]

    -- A device whose row says REVOKED is never provisioned, whatever the token.
    pub register_device_revoked : Blocked (register_device dto w)
    unfolding register_device
    register_device_revoked = authorised-Blocked (v.config "PROVISION_SECRET_TOKEN")
