-- ===== src/Auth/Memory.antt =====
-- Tokens and passwords held in memory, as a concrete instance of the packages' interface.
use Prim.Native.Char.{Char, code}
use vdt_provisioning_service.Prelude.{
  eqb, if◌then◌else◌, String, ◌≡◌, refl, ap, some, ◌==◌, arith, eq_iff,
}
use vdt_provisioning_service.Prelude.Effect.{ok, ok-injective}
use vdt_provisioning_service.Auth.{Crypto, Payload}

-- A token that can be read back: each character after the letter a, a text ends with b.
abbrev enc : String → String → String
enc String.[] rest = String.◌∷◌ "b" rest
enc (String.◌∷◌ c s) rest = String.◌∷◌ "a" (String.◌∷◌ c (enc s rest))

abbrev push : Char → String × String → String × String
push c r = (String.◌∷◌ c r.0, r.1)

abbrev dec : String → String × String
dec String.[] = ("", "")
dec (String.◌∷◌ x String.[]) = ("", "")
dec (String.◌∷◌ x (String.◌∷◌ y s)) =
    let r = dec s in if eqb (code x) b'a' then push y r else ("", String.◌∷◌ y s)

dec-enc : (s rest : String) → dec (enc s rest) ≡ (s, rest)
dec-enc String.[] String.[] = refl
dec-enc String.[] (String.◌∷◌ c rest) = refl
dec-enc (String.◌∷◌ c s) rest = ap (push c) (dec-enc s rest)

abbrev pub token : Payload → String
token p = enc p.sub (enc p.email (enc p.role ""))

abbrev untoken : String → Payload
untoken t = record { sub = (dec t).0; email = (dec (dec t).1).0; role = (dec (dec (dec t).1).1).0 }

pub untoken-token : (p : Payload) → untoken (token p) ≡ p
untoken-token p =
    rw
      (
        dec-enc p.sub (enc p.email (enc p.role "")),
        dec-enc p.email (enc p.role ""),
        dec-enc p.role "",
      )
      refl

-- A password stands for its own hash.
abbrev pub toy : Crypto
toy = record {
  Salt = Unit;
  hash = λ p s. (ok p, s);
  compare = λ p h. p == h;
  sign = λ now p. token p;
  verify = λ now t. some (untoken t);
  compare_hash = λ p h s q. ground (arith, eq_iff p h, ok-injective q);
  verify_sign = λ now p. ap some (untoken-token p);
}
