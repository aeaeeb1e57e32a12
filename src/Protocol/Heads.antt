-- ===== src/Protocol/Heads.antt =====
-- What counts as the head of a request or of a response, told without the reading of its fields
-- (`parse_request`, `parse_response` and `for_each_header` of crates/analyzer/src/protocol.rs).
use newhatch.Common.{
  ℕ, zero, suc, ◌++◌, length, ◌≡◌, ◌≤◌, ◌<◌, refl, arith, true, false, ◌||◌, ◌==◌, bytes_eq, Option,
  none, some, List, [], ◌∷◌, Result, ok, err, Bool-cases, Option-cases, ◌⊎◌, inl, inr,
}
use newhatch.Http.Chunk.{Malformed, crlf}
use newhatch.Http.Framing.{
  Header, Outcome, complete, partial, too_many_headers, malformed_head, Httparse, is_usable,
  is_some, split_line, each_line, for_each_header, each_header, visit_headers,
}

-- The lines of the bytes are headers that the library reads, up to a blank line.
pub data HasHeaders (parser : Httparse) : List ℕ → Type 0 where
  blank :
      (bytes line rest : List ℕ)
      → split_line bytes ≡ some (line, rest)
      → (bytes_eq line crlf || bytes_eq line (10 ∷ [])) ≡ true
      → HasHeaders parser bytes
  header :
      (bytes line rest : List ℕ) (h : Header)
      → split_line bytes ≡ some (line, rest)
      → (bytes_eq line crlf || bytes_eq line (10 ∷ [])) ≡ false
      → parser.one_header (line ++ crlf) ≡ some h
      → HasHeaders parser rest
      → HasHeaders parser bytes

-- A head is whole where the library says so, or where it has more headers than the library's array
-- takes and all lines behind the first are headers, up to a blank one.
pub data IsWholeHead (parser : Httparse) (bytes : List ℕ) : Outcome → Type 0 where
  all_read : IsWholeHead parser bytes complete
  by_lines :
      (line rest : List ℕ)
      → split_line bytes ≡ some (line, rest)
      → HasHeaders parser rest
      → IsWholeHead parser bytes too_many_headers

-- The bytes begin with a request: a whole head with a method and a version.
abbrev pub BeginsRequest : Httparse → List ℕ → Type 0
BeginsRequest parser bytes =
    IsWholeHead parser bytes (parser.request bytes).outcome
    × (is_some (parser.request bytes).verb ≡ true)
    × (is_some (parser.request bytes).version ≡ true)

-- The bytes begin with a response: a whole head with a status and a version.
abbrev pub BeginsResponse : Httparse → List ℕ → Type 0
BeginsResponse parser bytes =
    IsWholeHead parser bytes (parser.response bytes).outcome
    × (is_some (parser.response bytes).code ≡ true)
    × (is_some (parser.response bytes).version ≡ true)

-- What is behind the line that was found is shorter than the bound.
abbrev IsShorter : ℕ → Option (List ℕ × List ℕ) → Type 0
IsShorter n none = Unit {0}
IsShorter n (some (line, rest)) = length rest < n

later-IsShorter :
    (byte n : ℕ) (o : Option (List ℕ × List ℕ))
    → IsShorter n o
    → IsShorter (suc n) (elim o [ none ↦ none | some (line, after) ↦ some (byte ∷ line, after) ])
later-IsShorter byte n none h = tt
later-IsShorter byte n (some (line, after)) h = omega arith

split_line-IsShorter : (bytes : List ℕ) → IsShorter (length bytes) (split_line bytes)
unfolding split_line
split_line-IsShorter [] = tt
split_line-IsShorter (byte ∷ bytes) = elim (Bool-cases (byte == 10)) [
  | inl b ↦ rw b (omega arith)
  | inr b ↦
      rw b (later-IsShorter byte (length bytes) (split_line bytes) (split_line-IsShorter bytes))
]

split_line-shorter :
    (bytes line rest : List ℕ) → split_line bytes ≡ some (line, rest) → length rest < length bytes
split_line-shorter bytes line rest e = rw e at (split_line-IsShorter bytes)

pub Result-cases :
    {A : Type 0} (r : Result Malformed A) → ((a : A) × (r ≡ ok a)) ⊎ ((x : Malformed) × (r ≡ err x))
Result-cases (ok a) = inl (a, refl)
Result-cases (err x) = inr (x, refl)

module _ {A : Type 0} (parser : Httparse) (visit : A → Header → Result Malformed A) where
  -- Whatever is visited, success tells that a usable head is whole.
  each_line-HasHeaders :
      (rounds : ℕ) (a a' : A) (bytes : List ℕ)
      → each_line parser visit rounds a bytes ≡ ok a'
      → HasHeaders parser bytes
  unfolding each_line
  each_line-HasHeaders zero a a' bytes e = absurd (cc)
  each_line-HasHeaders (suc rounds) a a' bytes e = elim (Option-cases (split_line bytes)) [
    | inl s ↦ absurd (cc (rw s at e))
    | inr ((line, rest), s) ↦ elim (Bool-cases (bytes_eq line crlf || bytes_eq line (10 ∷ []))) [
      | inl b ↦ blank bytes line rest s b
      | inr b ↦ elim (Option-cases (parser.one_header (line ++ crlf))) [
        | inl o ↦ absurd (cc (rw (s, b, o) at e))
        | inr (h, o) ↦ elim (Result-cases (visit a h)) [
          | inl (b', v) ↦
              header bytes line rest h s b o
                (each_line-HasHeaders rounds b' a' rest (rw (s, b, o, v) at e))
          | inr (x, v) ↦ absurd (cc (rw (s, b, o, v) at e))
        ]
      ]
    ]
  ]

  pub visit_headers-IsWholeHead :
      (a a' : A) (bytes : List ℕ) (outcome : Outcome) (headers : List Header)
      → is_usable outcome ≡ true
      → visit_headers parser visit a bytes outcome headers ≡ ok a'
      → IsWholeHead parser bytes outcome
  unfolding visit_headers for_each_header is_usable
  visit_headers-IsWholeHead a a' bytes complete headers u e = all_read
  visit_headers-IsWholeHead a a' bytes partial headers u e = absurd (cc)
  visit_headers-IsWholeHead a a' bytes malformed_head headers u e = absurd (cc)
  visit_headers-IsWholeHead a a' bytes too_many_headers headers u e =
      elim (Option-cases (split_line bytes)) [
        | inl s ↦ absurd (cc (rw s at e))
        | inr ((line, rest), s) ↦
            by_lines line rest s (each_line-HasHeaders (length rest) a a' rest (rw s at e))
      ]

  -- A visit that never fails succeeds on a whole head.
  module _ (total : (a : A) (h : Header) → (a' : A) × (visit a h ≡ ok a')) where
    each_header_ok :
        (a : A) (headers : List Header) → (a' : A) × (each_header parser visit a headers ≡ ok a')
    unfolding each_header
    each_header_ok a [] = (a, refl)
    each_header_ok a (h ∷ headers) =
        let (b, e) = total a h in let (c, f) = each_header_ok b headers in (c, rw e f)

    each_line_ok :
        (rounds : ℕ) (a : A) (bytes : List ℕ)
        → length bytes ≤ rounds
        → HasHeaders parser bytes
        → (a' : A) × (each_line parser visit rounds a bytes ≡ ok a')
    unfolding each_line
    each_line_ok zero a bytes le (blank _ line rest s b) =
        absurd (omega (arith, split_line-shorter bytes line rest s))
    each_line_ok zero a bytes le (header _ line rest h s b one more) =
        absurd (omega (arith, split_line-shorter bytes line rest s))
    each_line_ok (suc rounds) a bytes le (blank _ line rest s b) = (a, rw (s, b) refl)
    each_line_ok (suc rounds) a bytes le (header _ line rest h s b one more) =
        let (a', v) = total a h in
        let (c, f) =
          each_line_ok rounds a' rest (omega (arith, split_line-shorter bytes line rest s)) more in
        (c, rw (s, b, one, v) f)

    pub visit_headers_ok :
        (a : A) (bytes : List ℕ) (outcome : Outcome) (headers : List Header)
        → IsWholeHead parser bytes outcome
        → (a' : A) × (visit_headers parser visit a bytes outcome headers ≡ ok a')
    unfolding visit_headers for_each_header
    visit_headers_ok a bytes complete headers all_read = each_header_ok a headers
    visit_headers_ok a bytes too_many_headers headers (by_lines line rest s more) =
        let (c, f) = each_line_ok (length rest) a rest (omega arith) more in (c, rw s f)
    visit_headers_ok a bytes partial headers whole = elim whole [ ]
    visit_headers_ok a bytes malformed_head headers whole = elim whole [ ]
