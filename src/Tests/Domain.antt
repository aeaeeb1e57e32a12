-- ===== src/Tests/Domain.antt =====
-- crates/analyzer/src/domain.rs: the theorems at concrete inputs.
use newhatch.Common.{◌≡◌, ◌↔◌, some, [], ◌∷◌}
use newhatch.Common.Int.{pos}
use newhatch.Domain.{
  web_socket, http, protocol_name, protocol_from_name, protocol_from_name_iff, protocol_to_db,
  protocol_from_db, protocol_from_db_iff,
}

protocol_from_name_iff_example :
    (protocol_from_name (b'h' ∷ b't' ∷ b't' ∷ b'p' ∷ []) ≡ some http)
    ↔ ((b'h' ∷ b't' ∷ b't' ∷ b'p' ∷ []) ≡ protocol_name http)
protocol_from_name_iff_example = protocol_from_name_iff (b'h' ∷ b't' ∷ b't' ∷ b'p' ∷ []) http

protocol_from_db_iff_example :
    (protocol_from_db (pos 2) ≡ some web_socket) ↔ (pos 2 ≡ protocol_to_db web_socket)
protocol_from_db_iff_example = protocol_from_db_iff (pos 2) web_socket
