-- ===== src/Payload/Search.antt =====
-- `PayloadSearch` of crates/analyzer/src/payload_search.rs.
use newhatch.Common.{
  ℕ, suc, leb, if◌then◌else◌, Bool, true, false, not, ◌&&◌, ◌||◌, List, [], ◌∷◌, length, is_empty,
  Result, ok, ensure, ◌>>=◌, ◌>>◌,
}
use newhatch.Common.Text.{contains, in_range}
use newhatch.Payload.Json.{JsonLibrary, js_trim}
use newhatch.Payload.Display.{display}

abbrev pub max_payload_terms : ℕ
max_payload_terms = 10

abbrev pub max_payload_term_chars : ℕ
max_payload_term_chars = 128

pub data SearchError : Type 0 where
  too_many_terms blank_term long_term : SearchError

pub record PayloadSearch : Type 0 where
  pub terms : List (List ℕ)

-- `chars().count()` of a text: its bytes but those that continue a character.
unfoldable pub count_chars : List ℕ → ℕ
count_chars [] = 0
count_chars (byte ∷ text) =
    if in_range 0x80 0xbf byte then count_chars text else suc (count_chars text)

unfoldable pub check_term : List ℕ → Result SearchError (List ℕ)
check_term term = do
  let trimmed = js_trim term
  ensure (not (is_empty trimmed)) blank_term
  ensure (leb (count_chars trimmed) max_payload_term_chars) long_term
  ok trimmed

unfoldable pub check_terms : List (List ℕ) → Result SearchError (List (List ℕ))
check_terms [] = ok []
check_terms (term ∷ terms) =
    let rest = check_terms terms in check_term term >>= λ t. rest >>= λ ts. ok (t ∷ ts)

-- PayloadSearch::new
unfoldable pub new_search : List (List ℕ) → Result SearchError PayloadSearch
new_search terms = do
  ensure (leb (length terms) max_payload_terms) too_many_terms
  checked ← check_terms terms
  ok (record { terms = checked })

unfoldable pub matches_all : List (List ℕ) → List ℕ → List ℕ → Bool
matches_all [] c2s s2c = true
matches_all (term ∷ terms) c2s s2c =
    (contains term c2s || contains term s2c) && matches_all terms c2s s2c

-- PayloadSearch::matches. `contains` here is `windows(term.len()).any(...)`; no term is empty.
unfoldable pub search_matches : JsonLibrary → PayloadSearch → List ℕ → List ℕ → Bool
search_matches json search c2s s2c =
    is_empty search.terms
    || matches_all search.terms (display json c2s false) (display json s2c false)
