-- ===== src/Payload/Display.antt =====
-- `display`, `stringify` and `normalize` of crates/analyzer/src/payload_text.rs.
use newhatch.Common.{
  ℕ, zero, suc, ◌+◌, leb, if◌then◌else◌, Bool, false, not, ◌&&◌, ◌||◌, Option, none, some, List, [],
  ◌∷◌, ◌++◌, take, drop,
}
use newhatch.Common.Text.{starts_with}
use newhatch.Common.Lossy.{from_utf8_lossy}
use newhatch.Http.Chunk.{ends_with}
use newhatch.Flow.Probe.{window_position}
use newhatch.Payload.Percent.{percent}
use newhatch.Payload.Escapes.{decode}
use newhatch.Payload.Json.{
  Value, null, boolean, number, string, array, object, Values, nil, cons, Entries, end, entry,
  JsonLibrary, valid_depth, js_trim, join_json, index_of_key, sort_entries, item_texts,
}

abbrev pub true_text : List ℕ
true_text = b't' ∷ b'r' ∷ b'u' ∷ b'e' ∷ []

abbrev pub false_text : List ℕ
false_text = b'f' ∷ b'a' ∷ b'l' ∷ b's' ∷ b'e' ∷ []

abbrev pub null_text : List ℕ
null_text = b'n' ∷ b'u' ∷ b'l' ∷ b'l' ∷ []

-- A text in braces or in brackets.
unfoldable pub is_bracketed : List ℕ → Bool
is_bracketed text =
    starts_with (b'{' ∷ []) text && ends_with (b'}' ∷ []) text
    || starts_with (b'[' ∷ []) text && ends_with (b']' ∷ []) text

-- The blank line that comes first, with its length.
unfoldable pub earlier_of : Option ℕ → Option ℕ → Option (ℕ × ℕ)
earlier_of none none = none
earlier_of (some n) none = some (n, 4)
earlier_of none (some m) = some (m, 2)
earlier_of (some n) (some m) = if leb n m then some (n, 4) else some (m, 2)

unfoldable pub boundary : List ℕ → Option (ℕ × ℕ)
boundary raw =
    earlier_of (window_position (13 ∷ 10 ∷ 13 ∷ 10 ∷ []) raw) (window_position (10 ∷ 10 ∷ []) raw)

unfoldable pub strip_mark : List ℕ → List ℕ
strip_mark raw = if starts_with (0xef ∷ 0xbb ∷ 0xbf ∷ []) raw then drop 3 raw else raw

-- `normalize` on all strings of a value, which a function is given for.
unfoldable mutual
  pub normalize_with : (List ℕ → Value) → Value → Value
  normalize_with on_string null = null
  normalize_with on_string (boolean b) = boolean b
  normalize_with on_string (number n) = number n
  normalize_with on_string (string s) = on_string s
  normalize_with on_string (array values) = array (normalize_values on_string values)
  normalize_with on_string (object entries) = object (normalize_entries on_string entries)

  pub normalize_values : (List ℕ → Value) → Values → Values
  normalize_values on_string nil = nil
  normalize_values on_string (cons v values) =
      cons (normalize_with on_string v) (normalize_values on_string values)

  pub normalize_entries : (List ℕ → Value) → Entries → Entries
  normalize_entries on_string end = end
  normalize_entries on_string (entry key v entries) =
      entry key (normalize_with on_string v) (normalize_entries on_string entries)

module _ (json : JsonLibrary) where
  unfoldable pub entry_text : List ℕ → Bool → List ℕ → List ℕ
  entry_text key pretty text = json.quote key ++ (b':' ∷ ((if pretty then 32 ∷ [] else []) ++ text))

  unfoldable mutual
    pub stringify : Bool → ℕ → Value → List ℕ
    stringify pretty depth null = null_text
    stringify pretty depth (boolean b) = if b then true_text else false_text
    stringify pretty depth (number n) = json.number_text n
    stringify pretty depth (string s) = json.quote s
    stringify pretty depth (array values) =
        join_json b'[' b']' (stringify_values pretty (depth + 1) values) pretty depth
    stringify pretty depth (object entries) =
        join_json b'{' b'}'
          (item_texts (sort_entries [] (stringify_entries pretty (depth + 1) entries))) pretty depth

    pub stringify_values : Bool → ℕ → Values → List (List ℕ)
    stringify_values pretty depth nil = []
    stringify_values pretty depth (cons v values) =
        stringify pretty depth v ∷ stringify_values pretty depth values

    pub stringify_entries : Bool → ℕ → Entries → List (Option ℕ × List ℕ)
    stringify_entries pretty depth end = []
    stringify_entries pretty depth (entry key v entries) =
        (index_of_key key, entry_text key pretty (stringify pretty depth v))
        ∷ stringify_entries pretty depth entries

  -- JSON in a string that decodes to it, with the strings of that normalized in turn.
  unfoldable pub expand_nested : (List ℕ → Value) → Bool → List ℕ → Value → Value
  expand_nested on_string expand decoded nested =
      let value = normalize_with on_string nested in
      if not (valid_depth 0 nested)
      then string decoded
      else if expand
      then value
      else string (stringify false 0 value)

  -- The string case of `normalize` with so many levels left: `depth` is 4 less them.
  unfoldable pub normalize_string : ℕ → Bool → List ℕ → Value
  normalize_string zero expand text = string (percent text)
  normalize_string (suc levels) expand text =
      let decoded = percent text in
      elim (if is_bracketed (js_trim decoded) then json.parse (js_trim decoded) else none) [
        | none ↦ string decoded
        | some nested ↦ expand_nested (normalize_string levels expand) expand decoded nested
      ]

  -- normalize
  unfoldable pub normalize : Bool → Value → Value
  normalize expand value = normalize_with (normalize_string 4 expand) value

  unfoldable pub json_text : List ℕ → Bool → Option (List ℕ)
  json_text text pretty = elim (json.parse (js_trim text)) [
    | none ↦ none
    | some value ↦
        if valid_depth 0 value then some (stringify pretty 0 (normalize pretty value)) else none
  ]

  unfoldable pub display_parts : List ℕ → Bool → Option (ℕ × ℕ) → List ℕ
  display_parts raw pretty (some (n, separator)) =
      elim (json_text (drop (n + separator) raw) pretty) [
        | none ↦ decode raw
        | some body ↦ decode (take n raw) ++ (take separator (drop n raw) ++ body)
      ]
  display_parts raw pretty none = elim (json_text raw pretty) [
    | none ↦ decode raw
    | some text ↦ text
  ]

  -- display
  unfoldable pub display : List ℕ → Bool → List ℕ
  display bytes pretty =
      let raw = strip_mark (from_utf8_lossy bytes) in display_parts raw pretty (boundary raw)
