-- ===== src/Routes/Login.antt =====
-- drone-fleet-manager/src/auth: what JwtAuthGuard and the strategy leave when they let a request pass.
use vdt_provisioning_service.Prelude.{
  String, ◌≡◌, refl, sym, ap, ◌∙◌, Option, none, some, ◌==◌, first-keep, Elem, eq_iff,
}
use vdt_provisioning_service.Prelude.Effect.{
  Result, ok, err, pure, resume, bind-eq-ok, ok-injective, ok-ne-err,
}
use vdt_provisioning_service.Services.{Services, World, in_db}
use vdt_provisioning_service.Services.Tables.{User}
use vdt_provisioning_service.Device.Laws.{devices}
use vdt_provisioning_service.Auth.{Crypto, Account, Payload, account_of, validate, validated}
use vdt_provisioning_service.Routes.{Request, validated_payload, authenticate}

module _ {v : Services} (k : Crypto) where
  -- The token of the request verifies and names a row of the users, which the account shows.
  pub record IsLoggedIn (q : Request) (s : World v) (u : Account) : Type 0 where
    pub token : String
    pub payload : Payload
    pub row : User
    pub given : q.token ≡ some token
    pub verifies : k.verify s.now token ≡ some payload
    pub there : Elem row (v.database.users s.db)
    pub named : row.id ≡ payload.sub
    pub shown : u ≡ account_of row

  found_row :
      (p : Payload) (s t : World v) (u : Account) (found : Option User)
      → (v.database.find_user p.sub s.db).0 ≡ ok found
      → (validated found t).0 ≡ ok u
      → (x : User) × Elem x (v.database.users s.db) × (x.id ≡ p.sub) × (u ≡ account_of x)
  unfolding validated
  found_row p s t u none q h = absurd (ok-ne-err (sym h))
  found_row p s t u (some x) q h =
      let (there, named) =
        first-keep (λ y. y.id == p.sub) (v.database.users s.db) x
          (sym (v.database.find_user_finds p.sub s.db (some x) q)) in
      (x, there, (eq_iff x.id p.sub).0 named, sym (ok-injective h))

  validated_row :
      (p : Payload) (s : World v) (u : Account)
      → (validate p s).0 ≡ ok u
      → (x : User) × Elem x (v.database.users s.db) × (x.id ≡ p.sub) × (u ≡ account_of x)
  unfolding validate
  validated_row p s u h =
      let (found, q, e) = bind-eq-ok (in_db (v.database.find_user p.sub)) validated s u h in
      found_row p s (in_db (v.database.find_user p.sub) s).1 u found q
        (sym (ap (λ (x : Result Account × World v). x.0) e) ∙ h)

  reads_only : (r : Result (Option User)) (t : World v) → (resume validated r t).1 ≡ t
  unfolding validated
  reads_only (ok none) t = refl
  reads_only (ok (some u)) t = refl
  reads_only (err e) t = refl

  validate-devices : (p : Payload) (s : World v) → devices (validate p s).1 ≡ devices s
  unfolding validate
  validate-devices p s =
      ap devices
        (reads_only (v.database.find_user p.sub s.db).0 (in_db (v.database.find_user p.sub) s).1)
      ∙ (v.database.user_reads_keep p.sub s.db).2

  -- What JwtAuthGuard leaves when it passes.
  pub authenticated :
      (q : Request) (s : World v) (o : Option Account)
      → (authenticate k q.token s).0 ≡ ok o
      → (u : Account) × (o ≡ some u)
        × IsLoggedIn q s u
        × (devices (authenticate k q.token s).1 ≡ devices s)
  unfolding authenticate
  authenticated q s o h = by_token q.token refl h
    where
      by_payload :
          (t : String) (r : Option Payload)
          → q.token ≡ some t
          → k.verify s.now t ≡ r
          → (validated_payload k r s).0 ≡ ok o
          → (u : Account) × (o ≡ some u)
            × IsLoggedIn q s u
            × (devices (validated_payload k r s).1 ≡ devices s)
      by_payload t none given verifies h = absurd (ok-ne-err (sym h))
      by_payload t (some p) given verifies h =
          let (u, valid, e) = bind-eq-ok (validate p) (λ u. pure (some u)) s o h in
          let (x, there, named, shown) = validated_row p s u valid in
          (
            u,
            sym (ok-injective (sym (ap (λ (r : Result (Option Account) × World v). r.0) e) ∙ h)),
            record {
              token = t;
              payload = p;
              row = x;
              given = given;
              verifies = verifies;
              there = there;
              named = named;
              shown = shown;
            },
            ap (λ (r : Result (Option Account) × World v). devices r.1) e ∙ validate-devices p s,
          )

      by_token :
          (t : Option String)
          → q.token ≡ t
          → (authenticate k t s).0 ≡ ok o
          → (u : Account) × (o ≡ some u)
            × IsLoggedIn q s u
            × (devices (authenticate k t s).1 ≡ devices s)
      by_token none given h = absurd (ok-ne-err (sym h))
      by_token (some t) given h = by_payload t (k.verify s.now t) given refl h
