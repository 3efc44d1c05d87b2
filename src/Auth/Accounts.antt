-- ===== src/Auth/Accounts.antt =====
-- What registering and logging in do.
use vdt_provisioning_service.Prelude.{
  ℕ, String, ◌≡◌, refl, sym, ap, subst, ◌∙◌, true, Option, none, some, List, [], ◌∷◌, map, ◌==◌,
  first, arith, eq_iff, if◌then◌else◌,
}
use vdt_provisioning_service.Prelude.Effect.{
  Act, resume, Result, ok, bind_rule, ok-injective, ok-ne-err, ◌>>=◌,
}
use vdt_provisioning_service.Services.{Services, in_db}
use vdt_provisioning_service.Services.Tables.{Devices, User}
use vdt_provisioning_service.Auth.{
  Crypto, State, RegisterDto, LoginDto, Login, Account, in_world, in_salt, generate_token,
  payload_of, account_of, all_fleet, only, is_owned_by, summary_of, register, register_unused,
  login, login_found,
}

abbrev granted : Crypto → User → ℕ → Devices → Login
granted k u now owned = record {
  access_token = k.sign now (payload_of u);
  user = account_of u;
  assigned_devices = if u.role == "ADMIN" then all_fleet else only (map summary_of owned);
}

module _ {v : Services} {k : Crypto} where
  abbrev pub users : State v k → List User
  users s = v.database.users s.world.db

  abbrev pub user_by_email : State v k → String → Option User
  user_by_email s email = first (λ u. u.email == email) (users s)

  -- What a registration has done when it returns: a new account, a pilot's, whose password hash
  -- accepts the password and whose token carries that account.
  pub record IsRegistered (dto : RegisterDto) (before after : State v k) (r : Login) : Type 0 where
    pub user : User
    pub free : user_by_email before dto.email ≡ none
    pub added : users after ≡ user ∷ users before
    pub email : user.email ≡ dto.email
    pub pilot : user.role ≡ "PILOT"
    pub accepts : k.compare dto.password user.password_hash ≡ true
    pub token :
        k.verify after.world.now r.access_token
        ≡ some (record { sub = user.id; email = user.email; role = user.role })
    pub shown : r.user ≡ account_of user
    pub devices : v.database.devices after.world.db ≡ v.database.devices before.world.db

  -- Two answers that let the same account in, that of the row of this e-mail address, a pilot's.
  pub record IsSameLogin (email : String) (s : State v k) (r l : Login) : Type 0 where
    pub user : User
    pub row : user_by_email s email ≡ some user
    pub first_account : (r.user.id ≡ user.id) × (r.user.email ≡ email) × (r.user.role ≡ "PILOT")
    pub same_account : l.user ≡ r.user
    pub first_token :
        k.verify s.world.now r.access_token
        ≡ some (record { sub = user.id; email = email; role = "PILOT" })
    pub second_token :
        k.verify s.world.now l.access_token
        ≡ some (record { sub = user.id; email = email; role = "PILOT" })

  login_found_lem :
      (dto : LoginDto) (u : User) (s : State v k) (owned : Devices)
      → (v.database.find_many (is_owned_by u.id) s.world.db).0 ≡ ok owned
      → k.compare dto.password u.password_hash ≡ true
      → (login_found dto (some u) s).0 ≡ ok (granted k u s.world.now owned)
  unfolding login_found
  login_found_lem dto u s owned p c = rw (p, c) refl

  module _ (s : State v k) (dto : RegisterDto) where
    abbrev Registered : Result Login × State v k → Type 0
    Registered x = (r : Login) → x.0 ≡ ok r → IsRegistered dto s x.1 r

    abbrev read : Act (State v k) (Option User)
    read = in_world (in_db (v.database.find_user_by_email dto.email))

    abbrev hashing : Act (State v k) String
    hashing = in_salt (k.hash dto.password)

    abbrev creating : String → Act (State v k) User
    creating hashed =
        in_world (in_db (v.database.create_user dto.email hashed dto.full_name "PILOT"))

    abbrev answer : User → Act (State v k) Login
    answer user x = (
      ok (record {
        access_token = generate_token user x;
        user = account_of user;
        assigned_devices = only [];
      }),
      x,
    )

    made :
        (hashed : String) (user : User) (r : Login) (x : State v k)
        → user_by_email s dto.email ≡ none
        → v.database.users x.world.db ≡ users s
        → v.database.devices x.world.db ≡ v.database.devices s.world.db
        → k.compare dto.password hashed ≡ true
        → (creating hashed x).0 ≡ ok user
        → (answer user (creating hashed x).1).0 ≡ ok r
        → IsRegistered dto s (creating hashed x).1 r
    made hashed user r x free same_users same_devices good q h =
        let (email, hash_eq, _, role, added, rows) =
          v.database.create_user_creates dto.email hashed dto.full_name "PILOT" x.world.db user q in
        subst (IsRegistered dto s (creating hashed x).1) (ok-injective h) (record {
          user = user;
          free = free;
          added = added ∙ ap (λ us. user ∷ us) same_users;
          email = email;
          pilot = role;
          accepts = ap (k.compare dto.password) hash_eq ∙ good;
          token = k.verify_sign x.world.now (payload_of user);
          shown = refl;
          devices = rows ∙ same_devices;
        })

    -- A registration that returns found no account of that e-mail address and has made one: a
    -- pilot's, whose password hash accepts the password, and whose token carries that account.
    pub register-IsRegistered :
        (r : Login) → (register dto s).0 ≡ ok r → IsRegistered dto s (register dto s).1 r
    unfolding register register_unused
    register-IsRegistered =
        bind_rule Registered read (register_unused dto) s (λ found q. on_user found q)
          (λ e q r h. absurd (ok-ne-err (sym h)))
      where
        on_user :
            (found : Option User)
            → (read s).0 ≡ ok found
            → Registered (register_unused dto found (read s).1)
        on_user (some u) q r h = absurd (ok-ne-err (sym h))
        on_user none q r h =
            let (rows, us, _, _) = v.database.user_reads_keep dto.email s.world.db in
            bind_rule Registered hashing (λ hashed. creating hashed >>= answer) (read s).1
              (λ hashed p.
                bind_rule Registered (creating hashed) answer (hashing (read s).1).1
                  (λ user c r h.
                    made hashed user r (hashing (read s).1).1
                      (sym (v.database.find_user_by_email_finds dto.email s.world.db none q)) us
                      rows (k.compare_hash dto.password hashed s.salt p) c h)
                  (λ e c r h. absurd (ok-ne-err (sym h))))
              (λ e p r h. absurd (ok-ne-err (sym h))) r h

    abbrev after : State v k
    after = (register dto s).1

    abbrev same_login : LoginDto
    same_login = record { email = dto.email; password = dto.password }

    same_email : {a b : String} → a ≡ b → (a == b) ≡ true
    same_email {a} {b} e = ground (arith, eq_iff a b)

    registered_found :
        (r : Login) (found : Option User)
        → (i : IsRegistered dto s after r)
        → (v.database.find_user_by_email dto.email after.world.db).0 ≡ ok found
        → found ≡ some i.user
    registered_found r found i q =
        v.database.find_user_by_email_finds dto.email after.world.db found q
        ∙ ap (first (λ u. u.email == dto.email)) i.added
        ∙ ap (λ t. if t then some i.user else user_by_email s dto.email) (same_email i.email)

    -- After a registration, a login with the same e-mail address and password returns, if its two
    -- reads return: both answers show the account of the row that has this e-mail address, a
    -- pilot's, and both tokens verify and carry the id of that row, the address and the role.
    pub register-login :
        (r : Login) (found : Option User) (owned : Devices)
        → (register dto s).0 ≡ ok r
        → (v.database.find_user_by_email dto.email after.world.db).0 ≡ ok found
        → (v.database.find_many
            (is_owned_by r.user.id)
            (v.database.find_user_by_email dto.email after.world.db).1).0
          ≡ ok owned
        → (l : Login) × ((login same_login after).0 ≡ ok l) × IsSameLogin dto.email after r l
    unfolding login
    register-login r found owned h q p =
        let i = register-IsRegistered r h in
        let same = q ∙ ap ok (registered_found r found i q) in
        let owned_eq =
          subst
            (λ (a : Account).
              (v.database.find_many (is_owned_by a.id)
                (v.database.find_user_by_email dto.email after.world.db).1).0
              ≡ ok owned)
            i.shown p in
        let carried : some (payload_of i.user)
            ≡ some (record { sub = i.user.id; email = dto.email; role = "PILOT" }) =
          rw (i.email, i.pilot) refl in
        let out =
          ap (λ o. (resume (login_found same_login) o (read after).1).0) same
          ∙ login_found_lem same_login i.user (read after).1 owned owned_eq i.accepts in
        (
          granted k i.user after.world.now owned,
          out,
          record {
            user = i.user;
            row =
                ap (first (λ u. u.email == dto.email)) i.added
                ∙ ap (λ t. if t then some i.user else user_by_email s dto.email)
                    (same_email i.email);
            first_account = (
              ap (λ (a : Account). a.id) i.shown,
              ap (λ (a : Account). a.email) i.shown ∙ i.email,
              ap (λ (a : Account). a.role) i.shown ∙ i.pilot,
            );
            same_account = sym i.shown;
            first_token = i.token ∙ carried;
            second_token = k.verify_sign after.world.now (payload_of i.user) ∙ carried;
          },
        )
