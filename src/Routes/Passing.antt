-- ===== src/Routes/Passing.antt =====
-- The controllers of drone-fleet-manager/src: what the guards before a handler let pass.
use vdt_provisioning_service.Prelude.{
  String, ◌≡◌, ◌⊎◌, inl, inr, refl, sym, ap, subst, ◌∙◌, true, false, Option, none, some, List, [],
  ◌∷◌, ◌==◌, first, Elem, eq_iff, arith,
}
use vdt_provisioning_service.Prelude.Effect.{
  Result, ok, err, pure, bind-eq-ok, ok-injective, ok-ne-err, ◌>>=◌,
}
use vdt_provisioning_service.Services.{Services, World}
use vdt_provisioning_service.Services.Tables.{Device}
use vdt_provisioning_service.Device.Laws.{devices}
use vdt_provisioning_service.Auth.{Crypto, Account}
use vdt_provisioning_service.Auth.Guards.{device_id_of, can_activate_roles, can_activate_device}
use vdt_provisioning_service.Auth.Claims.{can_activate_device-owner}
use vdt_provisioning_service.Routes.{
  Route, Call, Guard, Request, guards, handler, target, jwt, roles, device_ownership, authenticate,
  passed, guarded, all_guarded, served,
}
use vdt_provisioning_service.Routes.Calls.{is_open, is_for_admins, is_blank, drone_of, ActsFor}
use vdt_provisioning_service.Routes.Login.{IsLoggedIn, authenticated}

admin :
    (role : String) → can_activate_roles (some ("ADMIN" ∷ [])) (some role) ≡ ok tt → role ≡ "ADMIN"
unfolding can_activate_roles
admin role h = ground (arith, eq_iff role "ADMIN", eq_iff "ADMIN" role)

module _ {v : Services} (k : Crypto) where
  -- What a method that is reached tells of its caller.
  pub record IsAllowed (q : Request) (s : World v) (c : Call) : Type 0 where
    pub account : Account
    pub login : IsLoggedIn k q s account
    pub for_account : ActsFor c account
    pub for_admins : (is_for_admins c ≡ false) ⊎ (account.role ≡ "ADMIN")
    pub for_owner :
        (drone_of c ≡ none)
        ⊎ (account.role ≡ "ADMIN")
        ⊎ ((d : Device) × Elem d (devices s)
            × (drone_of c ≡ some d.device_id)
            × (d.user_id ≡ some account.id))

  -- The first guard is JwtAuthGuard; `t` is the state in which the others run.
  record IsPeeled (gs : List Guard) (r : Route) (q : Request) (s : World v) (c : Call)
      : Type 0 where
    account : Account
    login : IsLoggedIn k q s account
    later : World v
    user : Option Account
    same_devices : devices later ≡ devices s
    passes : (all_guarded k gs r q (some account) later).0 ≡ ok user
    reached : c ≡ handler r user

  peeled :
      (gs : List Guard) (r : Route) (q : Request) (s : World v) (c : Call)
      → guards r ≡ jwt ∷ gs
      → (served k r q s).0 ≡ ok c
      → IsPeeled gs r q s c
  unfolding served all_guarded guarded
  peeled gs r q s c same h =
      let (user, all, e) =
        bind-eq-ok (all_guarded k (guards r) r q none) (λ u. pure (handler r u)) s c h in
      let (o, first, e2) =
        bind-eq-ok (authenticate k q.token) (all_guarded k gs r q) s user
          (subst (λ gs. (all_guarded k gs r q none s).0 ≡ ok user) same all) in
      let (u, found, login, kept) = authenticated k q s o first in
      record {
        account = u;
        login = login;
        later = (authenticate k q.token s).1;
        user = user;
        same_devices = kept;
        passes =
            subst (λ o. (all_guarded k gs r q o (authenticate k q.token s).1).0 ≡ ok user) found
              (sym (ap (λ (x : Result (Option Account) × World v). x.0) e2)
                ∙ subst (λ gs. (all_guarded k gs r q none s).0 ≡ ok user) same all);
        reached = sym (ok-injective (sym (ap (λ (x : Result Call × World v). x.0) e) ∙ h));
      }

  role_passed :
      (x : Result Unit) (r : Route) (q : Request) (u : Account) (t : World v) (o : Option Account)
      → ((passed k x (some u) >>= all_guarded k [] r q) t).0 ≡ ok o
      → (o ≡ some u) × (x ≡ ok tt)
  unfolding passed all_guarded
  role_passed (ok x) r q u t o h = (sym (ok-injective h), refl)
  role_passed (err e) r q u t o h = absurd (ok-ne-err (sym h))

  by_roles :
      (names : List String) (r : Route) (q : Request) (u : Account) (t : World v)
      (o : Option Account)
      → (all_guarded k (roles names ∷ []) r q (some u) t).0 ≡ ok o
      → (o ≡ some u) × (can_activate_roles (some names) (some u.role) ≡ ok tt)
  unfolding all_guarded guarded
  by_roles names r q u t o h =
      role_passed (can_activate_roles (some names) (some u.role)) r q u t o h

  by_device :
      (r : Route) (q : Request) (u : Account) (t : World v) (o : Option Account)
      → (all_guarded k (device_ownership ∷ []) r q (some u) t).0 ≡ ok o
      → (o ≡ some u) × ((can_activate_device (some u) (target r q) t).0 ≡ ok tt)
  unfolding all_guarded guarded
  by_device r q u t o h =
      let allows = can_activate_device (some u) (target r q) in
      let (o1, h1, e1) = bind-eq-ok (allows >>= λ _. pure (some u)) (all_guarded k [] r q) t o h in
      let (x, allowed, e2) = bind-eq-ok allows (λ _. pure (some u)) t o1 h1 in
      let value = λ (a : Result (Option Account) × World v). a.0 in
      (
        sym (ok-injective (sym (ap value e1) ∙ h)) ∙ sym (ok-injective (sym (ap value e2) ∙ h1)),
        allowed,
      )

  -- The three kinds of routes that ask for an account.
  module _ (q : Request) (s : World v) (c : Call) where
    pub for_anyone :
        (r : Route)
        → guards r ≡ jwt ∷ []
        → (served k r q s).0 ≡ ok c
        → ((u : Account) → ActsFor (handler r (some u)) u)
        → ((u : Account) → is_for_admins (handler r (some u)) ≡ false)
        → ((u : Account) → drone_of (handler r (some u)) ≡ none)
        → IsAllowed q s c
    unfolding all_guarded
    for_anyone r by h acts admins drone =
        let p = peeled [] r q s c by h in
        let same : c ≡ handler r (some p.account) =
          p.reached ∙ ap (handler r) (sym (ok-injective p.passes)) in
        record {
          account = p.account;
          login = p.login;
          for_account = subst (λ x. ActsFor x p.account) (sym same) (acts p.account);
          for_admins = inl (ap is_for_admins same ∙ admins p.account);
          for_owner = inl (ap drone_of same ∙ drone p.account);
        }

    pub for_an_admin :
        (r : Route)
        → guards r ≡ jwt ∷ roles ("ADMIN" ∷ []) ∷ []
        → (served k r q s).0 ≡ ok c
        → ((u : Account) → ActsFor (handler r (some u)) u)
        → ((u : Account) → drone_of (handler r (some u)) ≡ none)
        → IsAllowed q s c
    for_an_admin r by h acts drone =
        let p = peeled (roles ("ADMIN" ∷ []) ∷ []) r q s c by h in
        let (same_user, allowed) = by_roles ("ADMIN" ∷ []) r q p.account p.later p.user p.passes in
        let same : c ≡ handler r (some p.account) = p.reached ∙ ap (handler r) same_user in
        record {
          account = p.account;
          login = p.login;
          for_account = subst (λ x. ActsFor x p.account) (sym same) (acts p.account);
          for_admins = inr (admin p.account.role allowed);
          for_owner = inl (ap drone_of same ∙ drone p.account);
        }

    pub for_the_owner :
        (r : Route) (d : String)
        → guards r ≡ jwt ∷ device_ownership ∷ []
        → (served k r q s).0 ≡ ok c
        → is_blank (drone_of c) ≡ false
        → ((d == "") ≡ false → device_id_of (target r q) ≡ some d)
        → ((u : Account) → ActsFor (handler r (some u)) u)
        → ((u : Account) → is_for_admins (handler r (some u)) ≡ false)
        → ((u : Account) → drone_of (handler r (some u)) ≡ some d)
        → IsAllowed q s c
    for_the_owner r d by h named asked acts admins drone =
        let p = peeled (device_ownership ∷ []) r q s c by h in
        let (same_user, allowed) = by_device r q p.account p.later p.user p.passes in
        let same : c ≡ handler r (some p.account) = p.reached ∙ ap (handler r) same_user in
        let about : drone_of c ≡ some d = ap drone_of same ∙ drone p.account in
        let given : (d == "") ≡ false = sym (ap is_blank about) ∙ named in
        record {
          account = p.account;
          login = p.login;
          for_account = subst (λ x. ActsFor x p.account) (sym same) (acts p.account);
          for_admins = inl (ap is_for_admins same ∙ admins p.account);
          for_owner =
              inr
                (elim (can_activate_device-owner p.later p.account (target r q) d given
                  (asked given) allowed) [
                    | inl admin ↦ inl admin
                    | inr (x, there, same_id, owner) ↦ inr (
                      x,
                      subst (Elem x) p.same_devices there,
                      about ∙ ap (λ i. some i) (sym same_id),
                      owner,
                    )
                  ]);
        }

  -- A method that is reached without a guard is open to all.
  pub not_open :
      (r : Route) (q : Request) (s : World v) (c : Call)
      → (served k r q s).0 ≡ ok c
      → is_open c ≡ false
      → guards r ≡ []
      → ((o : Option Account) → is_open (handler r o) ≡ true)
      → ⊥
  unfolding served all_guarded
  not_open r q s c h closed free opens =
      let (o, all, e) =
        bind-eq-ok (all_guarded k (guards r) r q none) (λ u. pure (handler r u)) s c h in
      let same : handler r o ≡ c =
        ok-injective (sym (ap (λ (x : Result Call × World v). x.0) e) ∙ h) in
      cc (opens o, ap is_open same)
