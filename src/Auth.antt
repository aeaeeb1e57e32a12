-- ===== src/Auth.antt =====
-- crates/analyzer/src/auth.rs: the configuration, and the checks before each request. Text is its
-- bytes; the password hash, the reading of header values and of URIs, and the session are parameters.
pub mod Store
pub mod Expiration
pub mod Passing
use newhatch.Common.{
  ℕ, zero, suc, ◌+◌, ◌-◌, ◌*◌, ◌^◌, ltb, leb, ◌==◌, bytes_eq, if◌then◌else◌, Bool, true, false, not,
  ◌&&◌, ◌||◌, Option, none, some, List, [], ◌∷◌, length, is_empty, Result, ok, err, ok_or, ensure,
  ◌>>=◌, ◌>>◌,
}
use newhatch.Common.Text.{in_range, trim_str}

pub data ConfigError : Type 0 where
  bad_username bad_password no_verifier bad_expiration bad_secure : ConfigError

pub record AuthConfig : Type 0 where
  pub username : List ℕ
  pub password_hash : List ℕ
  pub ttl : ℕ
  pub secure : Bool

-- The digits at the beginning of a text, and the rest.
unfoldable pub split_digits : List ℕ → List ℕ × List ℕ
split_digits [] = ([], [])
split_digits (byte ∷ text) =
    let (digits, rest) = split_digits text in
    if in_range b'0' b'9' byte then (byte ∷ digits, rest) else ([], byte ∷ text)

unfoldable pub digits_value : ℕ → List ℕ → ℕ
digits_value acc [] = acc
digits_value acc (byte ∷ digits) = digits_value (acc * 10 + (byte - b'0')) digits

-- `parse` of digits to an i64.
unfoldable pub parse_i64 : List ℕ → Option ℕ
parse_i64 digits =
    if is_empty digits || leb (2 ^ 63) (digits_value 0 digits)
    then none
    else some (digits_value 0 digits)

unfoldable pub multiplier_of : List ℕ → Option ℕ
multiplier_of unit_text =
    if bytes_eq unit_text (b's' ∷ [])
    then some 1
    else if bytes_eq unit_text (b'm' ∷ [])
    then some 60
    else if bytes_eq unit_text (b'h' ∷ [])
    then some 3600
    else if bytes_eq unit_text (b'd' ∷ [])
    then some 86400
    else none

-- i64::checked_mul of numbers that are not negative.
unfoldable pub checked_mul : ℕ → ℕ → Option ℕ
checked_mul value multiplier =
    if ltb (value * multiplier) (2 ^ 63) then some (value * multiplier) else none

unfoldable pub parse_expiration : List ℕ → Result ConfigError ℕ
parse_expiration raw = do
  let (digits, unit_text) = split_digits raw
  value ← ok_or (parse_i64 digits) bad_expiration
  multiplier ← ok_or (multiplier_of unit_text) bad_expiration
  ok_or (checked_mul value multiplier) bad_expiration

unfoldable pub parse_bool : List ℕ → Option Bool
parse_bool text =
    if bytes_eq text (b't' ∷ b'r' ∷ b'u' ∷ b'e' ∷ [])
    then some true
    else if bytes_eq text (b'f' ∷ b'a' ∷ b'l' ∷ b's' ∷ b'e' ∷ [])
    then some false
    else none

-- AuthConfig::parse
unfoldable pub parse_config :
    (List ℕ → Option (List ℕ)) → List ℕ → List ℕ → List ℕ → List ℕ → Result ConfigError AuthConfig
parse_config hash_password username password expiration secure = do
  ensure (not (is_empty (trim_str username)) && leb (length username) 128) bad_username
  ensure (not (is_empty password) && leb (length password) 1024) bad_password
  password_hash ← ok_or (hash_password password) no_verifier
  ttl ← parse_expiration expiration
  ensure (leb 1 ttl && leb ttl 604800) bad_expiration
  is_secure ← ok_or (parse_bool secure) bad_secure
  ok (record { username = username; password_hash = password_hash; ttl = ttl; secure = is_secure })

pub data Method : Type 0 where
  get head options post other_method : Method

pub data StatusCode : Type 0 where
  forbidden unauthorized internal_server_error : StatusCode

-- What the layers make of a request: an error, or what is behind them answers.
pub data Response : Type 0 where
  rejected : StatusCode → Response
  passed : Response

-- `http::Uri`
pub record Uri : Type 0 where
  pub scheme : Option (List ℕ)
  pub authority : Option (List ℕ)
  pub path : List ℕ
  pub query : Option (List ℕ)

-- A request, as far as the layers look at it: `peer` tells whether its address is a loopback address.
pub record Request : Type 0 where
  pub method : Method
  pub path : List ℕ
  pub peer : Option Bool
  pub sec_fetch_site : Option (List ℕ)
  pub origin : Option (List ℕ)
  pub host : Option (List ℕ)

-- `HeaderValue::to_str`, and `parse::<Uri>` of the result.
pub record HttpLibrary : Type 0 where
  pub to_str : List ℕ → Option (List ℕ)
  pub parse_uri : List ℕ → Option Uri

-- "/api/health" and "/api/auth/login"
abbrev pub health_path : List ℕ
health_path = b'/' ∷ b'a' ∷ b'p' ∷ b'i' ∷ b'/' ∷ b'h' ∷ b'e' ∷ b'a' ∷ b'l' ∷ b't' ∷ b'h' ∷ []

abbrev pub login_path : List ℕ
login_path =
    b'/' ∷ b'a' ∷ b'p' ∷ b'i' ∷ b'/' ∷ b'a' ∷ b'u' ∷ b't' ∷ b'h' ∷ b'/' ∷ b'l' ∷ b'o' ∷ b'g' ∷ b'i'
    ∷ b'n' ∷ []

abbrev pub same_origin : List ℕ
same_origin = b's' ∷ b'a' ∷ b'm' ∷ b'e' ∷ b'-' ∷ b'o' ∷ b'r' ∷ b'i' ∷ b'g' ∷ b'i' ∷ b'n' ∷ []

abbrev pub no_site : List ℕ
no_site = b'n' ∷ b'o' ∷ b'n' ∷ b'e' ∷ []

abbrev pub http_scheme : List ℕ
http_scheme = b'h' ∷ b't' ∷ b't' ∷ b'p' ∷ []

abbrev pub https_scheme : List ℕ
https_scheme = b'h' ∷ b't' ∷ b't' ∷ b'p' ∷ b's' ∷ []

unfoldable pub is_get : Method → Bool
is_get get = true
is_get head = false
is_get options = false
is_get post = false
is_get other_method = false

unfoldable pub is_post : Method → Bool
is_post get = false
is_post head = false
is_post options = false
is_post post = true
is_post other_method = false

unfoldable pub is_safe : Method → Bool
is_safe get = true
is_safe head = true
is_safe options = true
is_safe post = false
is_safe other_method = false

unfoldable pub public_health : Request → Bool
public_health request = is_get request.method && bytes_eq request.path health_path

unfoldable pub is_login : Request → Bool
is_login request = is_post request.method && bytes_eq request.path login_path

unfoldable pub is_local : Option Bool → Bool
is_local none = false
is_local (some loopback) = loopback

unfoldable pub is_cross_site : Option (List ℕ) → Bool
is_cross_site none = false
is_cross_site (some site) = not (bytes_eq site same_origin) && not (bytes_eq site no_site)

-- The equality of two `Option<&str>`.
unfoldable pub same_text : Option (List ℕ) → Option (List ℕ) → Bool
same_text none none = true
same_text none (some b) = false
same_text (some a) none = false
same_text (some a) (some b) = bytes_eq a b

unfoldable pub is_web_scheme : Option (List ℕ) → Bool
is_web_scheme none = false
is_web_scheme (some scheme) = bytes_eq scheme http_scheme || bytes_eq scheme https_scheme

unfoldable pub lacks_query : Option (List ℕ) → Bool
lacks_query none = true
lacks_query (some query) = false

unfoldable pub and_then {ℓ} : {A B : Type ℓ} → Option A → (A → Option B) → Option B
and_then none f = none
and_then (some a) f = f a

module _ (library : HttpLibrary) where
  unfoldable pub names_host : Option (List ℕ) → Option Uri → Bool
  names_host host none = false
  names_host host (some uri) =
      is_web_scheme uri.scheme
      && same_text uri.authority (and_then host library.to_str)
      && bytes_eq uri.path (b'/' ∷ [])
      && lacks_query uri.query

  unfoldable pub is_invalid_origin : Option (List ℕ) → Option (List ℕ) → Bool
  is_invalid_origin none host = false
  is_invalid_origin (some origin) host =
      not (names_host host (and_then (library.to_str origin) library.parse_uri))

  unfoldable pub require_local_and_origin : Request → Response → Response
  require_local_and_origin request next =
      if public_health request
      then next
      else if not (is_local request.peer)
      then rejected forbidden
      else if not (is_safe request.method)
          && (is_cross_site request.sec_fetch_site || is_invalid_origin request.origin request.host)
      then rejected forbidden
      else next

  -- `session` is what `session.get::<bool>("authenticated")` returns; `none` stands for its error.
  unfoldable pub require_session : Option (Option Bool) → Request → Response → Response
  require_session session request next =
      if public_health request || is_login request then next else elim session [
        | none ↦ rejected internal_server_error
        | some none ↦ rejected unauthorized
        | some (some authenticated) ↦ if authenticated then next else rejected unauthorized
      ]

  -- The layers of `protect`: the one that is added later runs first.
  unfoldable pub protect : Option (Option Bool) → Request → Response
  protect session request =
      require_local_and_origin request (require_session session request passed)
