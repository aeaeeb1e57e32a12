-- ===== src/Tests/Auth.antt =====
-- Sessions and checks of crates/analyzer/src/auth.rs: the theorems at concrete inputs.
use newhatch.Common.{
  ℕ, zero, suc, ◌≤◌, ◌≡◌, ◌↔◌, ◌⊎◌, refl, arith, ◌==◌, Bool, true, false, Option, none, some, List,
  [], ◌∷◌, length, All, Result, ok,
}
use newhatch.Common.Int.{pos}
use newhatch.Common.SortedMap.{lookup}
use newhatch.Common.Text.{
  trim_str, strip, reverse, space_at_start, space_at_end, is_space, in_range,
}
use newhatch.Auth.{
  AuthConfig, parse_config, parse_expiration, split_digits, parse_i64, digits_value, multiplier_of,
  checked_mul, parse_bool, post, Request, HttpLibrary, passed, protect, public_health, is_get,
  is_login, is_local, is_safe, is_cross_site, is_invalid_origin, require_local_and_origin,
  require_session, is_post,
}
use newhatch.Auth.Store.{Record, Store, StoreError, is_live, create, load, delete}
use newhatch.Auth.Store.Sessions.{saved, loaded, apply_calls, load-delete, load_iff}
use newhatch.Auth.Store.Creation.{AreDistinct, create-total}
use newhatch.Auth.Passing.{protect_passed, IsConfig, parse_config_iff}

abbrev first_record : Record
first_record = record { id = 4; expiry_date = pos 100; contents = b'x' ∷ [] }

abbrev one_record : Store
one_record = (4, first_record) ∷ []

load-delete_example :
    (load
      (pos 9)
      (apply_calls (delete one_record 4) (saved first_record (pos 8) ∷ loaded 4 (pos 8) ∷ []))
      4).1
    ≡ none
load-delete_example =
    load-delete one_record 4 (saved first_record (pos 8) ∷ loaded 4 (pos 8) ∷ []) (pos 9) (tt, tt)

load_iff_example :
    ((load (pos 9) one_record 4).1 ≡ some first_record)
    ↔ ((lookup 4 one_record ≡ some first_record) × (is_live (pos 9) first_record ≡ true))
load_iff_example = load_iff (pos 9) 4 first_record one_record (tt, tt)

abbrev count_down : ℕ → List ℕ
count_down zero = []
count_down (suc n) = n ∷ count_down n

count_down_below : (m n : ℕ) → n ≤ m → All (λ other. (m == other) ≡ false) (count_down n)
count_down_below m zero h = tt
count_down_below m (suc n) h = (ground (arith, h), count_down_below m n (omega arith))

count_down-AreDistinct : (n : ℕ) → AreDistinct (count_down n)
count_down-AreDistinct zero = tt
count_down-AreDistinct (suc n) = (count_down_below n n (omega arith), count_down-AreDistinct n)

length-count_down : (n : ℕ) → length (count_down n) ≡ n
length-count_down zero = refl
length-count_down (suc n) = omega (arith, length-count_down n)

-- A record whose id is above all draws.
abbrev high_record : Record
high_record = record { id = 1023; expiry_date = pos 100; contents = [] }

create-total_example :
    (result : Store × Result StoreError Record) × (create
        (pos 9)
        (count_down 1023)
        one_record
        high_record
      ≡ some result)
create-total_example =
    create-total (pos 9) (count_down 1023) one_record high_record
      (count_down_below 1023 1023 (omega arith), count_down-AreDistinct 1023)
      (omega (arith, length-count_down 1023))

abbrev second_record : Record
second_record = record { id = 5; expiry_date = pos 100; contents = b'x' ∷ [] }

abbrev library : HttpLibrary
library = record { to_str = λ value. some value; parse_uri = λ text. none }

abbrev change : Request
change = record {
  method = post;
  path = b'/' ∷ [];
  peer = some true;
  sec_fetch_site = none;
  origin = none;
  host = none;
}

change_passes : protect library (some (some true)) change ≡ passed
unfolding protect require_local_and_origin require_session public_health is_get is_login is_local
    is_safe is_cross_site is_invalid_origin is_post
change_passes = refl

change_is_private : public_health change ≡ false
unfolding public_health is_get
change_is_private = refl

protect_passed_example :
    (is_local change.peer ≡ true)
    × ((is_login change ≡ true)
        ⊎ (◌≡◌ {A = Option (Option Bool)} (some (some true)) (some (some true))))
    × ((is_safe change.method ≡ true)
        ⊎ ((is_cross_site change.sec_fetch_site ≡ false)
            × (is_invalid_origin library change.origin change.host ≡ false)))
protect_passed_example =
    protect_passed library (some (some true)) change change_passes change_is_private

abbrev keep_password : List ℕ → Option (List ℕ)
keep_password password = some password

abbrev user : List ℕ
user = b'u' ∷ []

abbrev password : List ℕ
password = b'p' ∷ []

abbrev ten_minutes : List ℕ
ten_minutes = b'1' ∷ b'0' ∷ b'm' ∷ []

abbrev false_text : List ℕ
false_text = b'f' ∷ b'a' ∷ b'l' ∷ b's' ∷ b'e' ∷ []

abbrev small_config : AuthConfig
small_config = record { username = b'u' ∷ []; password_hash = b'p' ∷ []; ttl = 600; secure = false }

small_accepted :
    parse_config keep_password (b'u' ∷ []) (b'p' ∷ []) ten_minutes false_text ≡ ok small_config
unfolding parse_config parse_expiration split_digits parse_i64 digits_value multiplier_of
    checked_mul parse_bool trim_str strip reverse space_at_start space_at_end is_space in_range
small_accepted = refl

parse_config_iff_example :
    (parse_config keep_password user password ten_minutes false_text ≡ ok small_config)
    ↔ IsConfig keep_password user password ten_minutes false_text small_config
parse_config_iff_example =
    parse_config_iff keep_password user password ten_minutes false_text small_config
