-- ===== src/Auth/Passing.antt =====
-- Which requests pass the layers of `protect`, and which configurations are accepted
-- (crates/analyzer/src/auth.rs).
use newhatch.Common.{
  ◌↔◌, ℕ, ◌≤◌, ◌≡◌, ◌⊎◌, inl, inr, refl, arith, leb, Bool, true, false, not, ◌&&◌, Option, none,
  some, List, [], ◌∷◌, length, is_empty, Result, ok, err, ok_or, ensure, ◌>>=◌, ◌>>◌, Bool-cases,
}
use newhatch.Common.Text.{trim_str}
use newhatch.Auth.Expiration.{
  IsTime, IsFlag, parse_expiration-IsTime, parse_bool-IsFlag, IsTime-parse_expiration,
  IsFlag-parse_bool,
}
use newhatch.Auth.{
  ConfigError, AuthConfig, parse_expiration, parse_bool, parse_config, bad_username, bad_password,
  bad_expiration, bad_secure, no_verifier, Response, passed, Request, HttpLibrary, is_safe,
  public_health, is_login, is_local, is_cross_site, is_invalid_origin, require_local_and_origin,
  require_session, protect,
}

require_session-passed :
    (library : HttpLibrary) (session : Option (Option Bool)) (request : Request)
    → require_session library session request passed ≡ passed
    → public_health request ≡ false
    → (is_login request ≡ true) ⊎ (session ≡ some (some true))
unfolding require_session
require_session-passed library none request e p = inl (ground (arith, e, p))
require_session-passed library (some none) request e p = inl (ground (arith, e, p))
require_session-passed library (some (some true)) request e p = inr refl
require_session-passed library (some (some false)) request e p = inl (ground (arith, e, p))

local_passed :
    (library : HttpLibrary) (request : Request) (next : Response)
    → require_local_and_origin library request next ≡ passed
    → public_health request ≡ false
    → (next ≡ passed)
      × (is_local request.peer ≡ true)
      × ((is_safe request.method ≡ true)
          ⊎ ((is_cross_site request.sec_fetch_site ≡ false)
              × (is_invalid_origin library request.origin request.host ≡ false)))
unfolding require_local_and_origin
local_passed library request next e p = (
  ground (arith, e, p),
  ground (arith, e, p),
  elim (Bool-cases (is_safe request.method)) [
    | inl safe ↦ inl safe
    | inr unsafe ↦ inr (ground (arith, e, p, unsafe), ground (arith, e, p, unsafe))
  ],
)

-- A request that passes, other than one for the public health check, comes from a loopback address;
-- it is a login, or its session is authenticated; and if its method may change something, it is not
-- sent from another site and its origin, if it has one, is valid.
pub protect_passed :
    (library : HttpLibrary) (session : Option (Option Bool)) (request : Request)
    → protect library session request ≡ passed
    → public_health request ≡ false
    → (is_local request.peer ≡ true)
      × ((is_login request ≡ true) ⊎ (session ≡ some (some true)))
      × ((is_safe request.method ≡ true)
          ⊎ ((is_cross_site request.sec_fetch_site ≡ false)
              × (is_invalid_origin library request.origin request.host ≡ false)))
unfolding protect
protect_passed library session request e p =
    let next = require_session library session request passed in
    let (through, local, origin) = local_passed library request next e p in
    (local, require_session-passed library session request through p, origin)

-- What is known of the checks of a configuration where they succeed.
checked :
    (a b : Bool) (h : Option (List ℕ)) (p : Result ConfigError ℕ) (within : ℕ → Bool)
    (s : Option Bool) (make : List ℕ → ℕ → Bool → AuthConfig) (config : AuthConfig)
    → (ensure a bad_username
        >> (ensure b bad_password
            >> (ok_or h no_verifier >>= λ hash. p >>= λ ttl.
                ensure (within ttl) bad_expiration
                >> (ok_or s bad_secure >>= λ secure. ok (make hash ttl secure)))))
      ≡ ok config
    → (a ≡ true)
      × (b ≡ true)
      × (hash : List ℕ) × (ttl : ℕ) × (secure : Bool) × (h ≡ some hash)
      × (p ≡ ok ttl)
      × (within ttl ≡ true)
      × (s ≡ some secure)
      × (make hash ttl secure ≡ config)
checked false b h p within s make config e = absurd (cc)
checked true false h p within s make config e = absurd (cc)
checked true true none p within s make config e = absurd (cc)
checked true true (some hash) (err x) within s make config e = absurd (cc)
checked true true (some hash) (ok ttl) within none make config e = elim (Bool-cases (within ttl)) [
  | inl w ↦ absurd (cc (rw w at e))
  | inr w ↦ absurd (cc (rw w at e))
]
checked true true (some hash) (ok ttl) within (some secure) make config e =
    elim (Bool-cases (within ttl)) [
      | inl w ↦
          let made : ◌≡◌ {A = Result ConfigError AuthConfig} (ok (make hash ttl secure))
              (ok config) =
            rw w at e in
          (refl, refl, hash, ttl, secure, refl, refl, w, refl, (cc))
      | inr w ↦ absurd (cc (rw w at e))
    ]

some_password :
    (password : List ℕ)
    → not (is_empty password) && leb (length password) 1024 ≡ true
    → 1 ≤ length password
some_password [] h = absurd (cc)
some_password (byte ∷ password) h = omega arith

-- What the texts of a configuration are, and what they stand for.
abbrev pub IsConfig :
    (List ℕ → Option (List ℕ)) → List ℕ → List ℕ → List ℕ → List ℕ → AuthConfig → Type 0
IsConfig hash_password username password expiration secure config =
    (config.username ≡ username)
    × (is_empty (trim_str username) ≡ false)
    × (length username ≤ 128)
    × (1 ≤ length password)
    × (length password ≤ 1024)
    × (hash_password password ≡ some config.password_hash)
    × IsTime expiration config.ttl
    × (1 ≤ config.ttl)
    × (config.ttl ≤ 604800)
    × IsFlag secure config.secure

parse_config-IsConfig :
    (hash_password : List ℕ → Option (List ℕ)) (username password expiration secure : List ℕ)
    (config : AuthConfig)
    → parse_config hash_password username password expiration secure ≡ ok config
    → IsConfig hash_password username password expiration secure config
unfolding parse_config
parse_config-IsConfig hash_password username password expiration secure config e =
    let (named, guarded, hash, ttl, is_secure, hashed, timed, within, read, same) =
      checked _ _ (hash_password password) (parse_expiration expiration)
        (λ ttl. leb 1 ttl && leb ttl 604800) (parse_bool secure)
        (λ hash ttl is_secure. record {
          username = username;
          password_hash = hash;
          ttl = ttl;
          secure = is_secure;
        })
        config e in
    rw (← same) (
      refl,
      ground (arith, named),
      ground (arith, named),
      some_password password guarded,
      ground (arith, guarded),
      hashed,
      parse_expiration-IsTime expiration ttl timed,
      ground (arith, within),
      ground (arith, within),
      parse_bool-IsFlag secure is_secure read,
    )

filled : (password : List ℕ) → 1 ≤ length password → is_empty password ≡ false
filled [] h = absurd (omega arith)
filled (byte ∷ password) h = refl

IsConfig-parse_config :
    (hash_password : List ℕ → Option (List ℕ)) (username password expiration secure : List ℕ)
    (config : AuthConfig)
    → IsConfig hash_password username password expiration secure config
    → parse_config hash_password username password expiration secure ≡ ok config
unfolding parse_config
IsConfig-parse_config hash_password username password expiration secure config
      (named, visible, short, some_bytes, few_bytes, hashed, time, least, most, flag) =
    let name_fits : leb (length username) 128 ≡ true = ground (arith, short) in
    let password_fits : leb (length password) 1024 ≡ true = ground (arith, few_bytes) in
    let within : leb 1 config.ttl ≡ true = ground (arith, least) in
    let within' : leb config.ttl 604800 ≡ true = ground (arith, most) in
    rw
      (
        visible,
        name_fits,
        filled password some_bytes,
        password_fits,
        hashed,
        IsTime-parse_expiration expiration config.ttl time (omega arith),
        within,
        within',
        IsFlag-parse_bool secure config.secure flag,
        ← named,
      )
      refl

-- A configuration is accepted exactly when its name is not blank and has at most 128 bytes, its
-- password has 1 to 1024 bytes and is hashed, its time is 1 to 604800 seconds, and its flag is `true`
-- or `false`; it then has the name, the hash, the seconds and the flag. A time is written as decimal
-- digits and a unit, for seconds, minutes, hours or days of 1, 60, 3600 or 86400 seconds each.
pub parse_config_iff :
    (hash_password : List ℕ → Option (List ℕ)) (username password expiration secure : List ℕ)
    (config : AuthConfig)
    → (parse_config hash_password username password expiration secure ≡ ok config)
      ↔ IsConfig hash_password username password expiration secure config
parse_config_iff hash_password username password expiration secure config = (
  parse_config-IsConfig hash_password username password expiration secure config,
  IsConfig-parse_config hash_password username password expiration secure config,
)
