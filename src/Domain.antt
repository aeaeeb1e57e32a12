-- ===== src/Domain.antt =====
-- Sessions with their protocols and flag directions: crates/analyzer/src/domain.rs. Text is its bytes.
use newhatch.Common.{
  ℕ, zero, suc, ◌≡◌, refl, ◌↔◌, arith, ltb, bytes_eq, bytes_eq_iff, if◌then◌else◌, Bool, Option,
  none, some, List, [], ◌∷◌,
}
use newhatch.Common.Int.{ℤ, pos, negsuc}
use newhatch.Wire.Messages.{Endpoint}

pub data SessionProtocol : Type 0 where
  raw_tcp http web_socket : SessionProtocol

-- The number of a protocol in the catalog, `as i64`.
unfoldable pub protocol_to_db : SessionProtocol → ℤ
protocol_to_db raw_tcp = pos 0
protocol_to_db http = pos 1
protocol_to_db web_socket = pos 2

-- SessionProtocol::from_db
unfoldable pub protocol_from_db : ℤ → Option SessionProtocol
protocol_from_db (pos zero) = some raw_tcp
protocol_from_db (pos (suc zero)) = some http
protocol_from_db (pos (suc (suc zero))) = some web_socket
protocol_from_db (pos (suc (suc (suc n)))) = none
protocol_from_db (negsuc n) = none

-- fmt::Display
unfoldable pub protocol_name : SessionProtocol → List ℕ
protocol_name raw_tcp = b'r' ∷ b'a' ∷ b'w' ∷ b'_' ∷ b't' ∷ b'c' ∷ b'p' ∷ []
protocol_name http = b'h' ∷ b't' ∷ b't' ∷ b'p' ∷ []
protocol_name web_socket = b'w' ∷ b'e' ∷ b'b' ∷ b's' ∷ b'o' ∷ b'c' ∷ b'k' ∷ b'e' ∷ b't' ∷ []

-- FromStr
unfoldable pub protocol_from_name : List ℕ → Option SessionProtocol
protocol_from_name text =
    if bytes_eq text (b'r' ∷ b'a' ∷ b'w' ∷ b'_' ∷ b't' ∷ b'c' ∷ b'p' ∷ [])
    then some raw_tcp
    else if bytes_eq text (b'h' ∷ b't' ∷ b't' ∷ b'p' ∷ [])
    then some http
    else if bytes_eq text (b'w' ∷ b'e' ∷ b'b' ∷ b's' ∷ b'o' ∷ b'c' ∷ b'k' ∷ b'e' ∷ b't' ∷ [])
    then some web_socket
    else none

pub data FlagDirection : Type 0 where
  no_flag c2s_flag s2c_flag both_flags : FlagDirection

unfoldable pub flags_to_db : FlagDirection → ℤ
flags_to_db no_flag = pos 0
flags_to_db c2s_flag = pos 1
flags_to_db s2c_flag = pos 2
flags_to_db both_flags = pos 3

-- FlagDirection::from_db
unfoldable pub flags_from_db : ℤ → Option FlagDirection
flags_from_db (pos zero) = some no_flag
flags_from_db (pos (suc zero)) = some c2s_flag
flags_from_db (pos (suc (suc zero))) = some s2c_flag
flags_from_db (pos (suc (suc (suc zero)))) = some both_flags
flags_from_db (pos (suc (suc (suc (suc n))))) = none
flags_from_db (negsuc n) = none

-- FlagDirection::from_counts
unfoldable pub flags_from_counts : ℕ → ℕ → FlagDirection
flags_from_counts c2s s2c =
    if ltb 0 c2s
    then (if ltb 0 s2c then both_flags else c2s_flag)
    else if ltb 0 s2c
    then s2c_flag
    else no_flag

-- `HttpMetadata`: text is its bytes.
pub record HttpMetadata : Type 0 where
  pub method : Option (List ℕ)
  pub host : Option (List ℕ)
  pub path : Option (List ℕ)
  pub status : Option ℕ
  pub content_type : Option (List ℕ)

pub record CompletedSession : Type 0 where
  pub collector_id : List ℕ
  pub first_payload_to_server_at : Option ℤ
  pub first_payload_to_client_at : Option ℤ
  pub source_id : ℤ
  pub started_at : ℤ
  pub ended_at : ℤ
  pub client : Endpoint
  pub server : Endpoint
  pub protocol : SessionProtocol
  pub to_server : List ℕ
  pub to_client : List ℕ
  pub flag_direction : FlagDirection
  pub flag_count : ℕ
  pub incomplete : Bool
  pub metadata : HttpMetadata

from_name_sound :
    (text : List ℕ) (p : SessionProtocol)
    → protocol_from_name text ≡ some p
    → text ≡ protocol_name p
unfolding protocol_from_name protocol_name
from_name_sound text p e = ground (
  arith,
  e,
  (bytes_eq_iff text (b'r' ∷ b'a' ∷ b'w' ∷ b'_' ∷ b't' ∷ b'c' ∷ b'p' ∷ [])).0,
  (bytes_eq_iff text (b'h' ∷ b't' ∷ b't' ∷ b'p' ∷ [])).0,
  (bytes_eq_iff text (b'w' ∷ b'e' ∷ b'b' ∷ b's' ∷ b'o' ∷ b'c' ∷ b'k' ∷ b'e' ∷ b't' ∷ [])).0,
)

from_name-name : (p : SessionProtocol) → protocol_from_name (protocol_name p) ≡ some p
unfolding protocol_from_name protocol_name
from_name-name raw_tcp = refl
from_name-name http = refl
from_name-name web_socket = refl

-- A text is read as a protocol exactly when it is what the protocol is displayed as: the two tables of
-- texts agree.
pub protocol_from_name_iff :
    (text : List ℕ) (p : SessionProtocol)
    → (protocol_from_name text ≡ some p) ↔ (text ≡ protocol_name p)
protocol_from_name_iff text p = (from_name_sound text p, λ e. rw e (from_name-name p))

from_db_sound : (n : ℤ) (p : SessionProtocol) → protocol_from_db n ≡ some p → n ≡ protocol_to_db p
unfolding protocol_from_db protocol_to_db
from_db_sound n p e = ground (arith, e)

protocol_stored : (p : SessionProtocol) → protocol_from_db (protocol_to_db p) ≡ some p
unfolding protocol_from_db protocol_to_db
protocol_stored raw_tcp = refl
protocol_stored http = refl
protocol_stored web_socket = refl

-- A number in the catalog is a protocol exactly when it is the protocol's own.
pub protocol_from_db_iff :
    (n : ℤ) (p : SessionProtocol) → (protocol_from_db n ≡ some p) ↔ (n ≡ protocol_to_db p)
protocol_from_db_iff n p = (from_db_sound n p, λ e. rw e (protocol_stored p))

flags_sound : (n : ℤ) (f : FlagDirection) → flags_from_db n ≡ some f → n ≡ flags_to_db f
unfolding flags_from_db flags_to_db
flags_sound n f e = ground (arith, e)

flags_stored : (f : FlagDirection) → flags_from_db (flags_to_db f) ≡ some f
unfolding flags_from_db flags_to_db
flags_stored no_flag = refl
flags_stored c2s_flag = refl
flags_stored s2c_flag = refl
flags_stored both_flags = refl

-- A number in the catalog is a flag direction exactly when it is the direction's own.
pub flags_from_db_iff :
    (n : ℤ) (f : FlagDirection) → (flags_from_db n ≡ some f) ↔ (n ≡ flags_to_db f)
flags_from_db_iff n f = (flags_sound n f, λ e. rw e (flags_stored f))
