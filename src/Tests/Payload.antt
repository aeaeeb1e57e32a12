-- ===== src/Tests/Payload.antt =====
-- Payload text and search (crates/analyzer/src/payload_text.rs, payload_search.rs): the theorems at
-- concrete inputs.
use newhatch.Common.{
  ℕ, ◌≡◌, ◌↔◌, ◌⊎◌, refl, arith, true, false, none, List, [], ◌∷◌, All, if◌then◌else◌,
}
use newhatch.Common.Text.{is_utf8, utf8_from, utf8_lead, in_range, starts_with}
use newhatch.Payload.Percent.{percent}
use newhatch.Payload.Encoded.{encode, percent-encode}
use newhatch.Payload.Json.{JsonLibrary}
use newhatch.Payload.Display.{display}
use newhatch.Payload.Plain.{display_plain}
use newhatch.Payload.Search.{search_matches}
use newhatch.Payload.Found.{Occurs, search_matches_iff}

-- A library that reads nothing as JSON.
abbrev library : JsonLibrary
library = record { parse = λ text. none; quote = λ text. text; number_text = λ text. text }

abbrev accented : List ℕ
accented = b'a' ∷ 0xc3 ∷ 0xa9 ∷ []

percent-encode_example :
    percent (encode accented) ≡ (if is_utf8 accented then accented else encode accented)
percent-encode_example = percent-encode accented (ground arith)

accented_utf8 : is_utf8 accented ≡ true
unfolding is_utf8 utf8_from utf8_lead in_range
accented_utf8 = refl

accented_unmarked : starts_with (0xef ∷ 0xbb ∷ 0xbf ∷ []) accented ≡ false
unfolding starts_with
accented_unmarked = refl

display_plain_example : display library accented true ≡ accented
display_plain_example =
    display_plain library accented true accented_utf8 accented_unmarked (ground arith) refl

search_matches_iff_example :
    (search_matches library (record { terms = accented ∷ [] }) accented [] ≡ true)
    ↔ All
        (λ term.
          Occurs term (display library accented false) ⊎ Occurs term (display library [] false))
        (accented ∷ [])
search_matches_iff_example =
    search_matches_iff library (record { terms = accented ∷ [] }) accented []
