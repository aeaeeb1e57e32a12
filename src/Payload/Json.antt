-- ===== src/Payload/Json.antt =====
-- JSON values of crates/analyzer/src/payload_text.rs: their depth, their text, and the expansion of
-- JSON inside strings. The library serde_json and the format of numbers are parameters.
use newhatch.Common.{
  ℕ, zero, suc, ◌+◌, ltb, leb, ◌==◌, if◌then◌else◌, Bool, true, false, not, ◌&&◌, ◌||◌, Option,
  none, some, List, [], ◌∷◌, ◌++◌, length, is_empty,
}
use newhatch.Common.Text.{in_range, is_space_of_three, strip, reverse}
use newhatch.Http.Chunk.{decimal_from}

-- `serde_json::Value`. A number is what the library keeps of it. Objects keep their order.
mutual
  pub data Value : Type 0 where
    null : Value
    boolean : Bool → Value
    number : List ℕ → Value
    string : List ℕ → Value
    array : Values → Value
    object : Entries → Value

  pub data Values : Type 0 where
    nil : Values
    cons : Value → Values → Values

  pub data Entries : Type 0 where
    end : Entries
    entry : List ℕ → Value → Entries → Entries

-- serde_json: reading a text, and the quoted text of a string; and the text that JavaScript has for
-- a number, "null" for one that is not finite.
pub record JsonLibrary : Type 0 where
  pub parse : List ℕ → Option Value
  pub quote : List ℕ → List ℕ
  pub number_text : List ℕ → List ℕ

unfoldable mutual
  -- Nothing is deeper than 64.
  pub valid_depth : ℕ → Value → Bool
  valid_depth depth null = leb depth 64
  valid_depth depth (boolean b) = leb depth 64
  valid_depth depth (number n) = leb depth 64
  valid_depth depth (string s) = leb depth 64
  valid_depth depth (array values) = leb depth 64 && valid_values (depth + 1) values
  valid_depth depth (object entries) = leb depth 64 && valid_entries (depth + 1) entries

  pub valid_values : ℕ → Values → Bool
  valid_values depth nil = true
  valid_values depth (cons v values) = valid_depth depth v && valid_values depth values

  pub valid_entries : ℕ → Entries → Bool
  valid_entries depth end = true
  valid_entries depth (entry key v entries) = valid_depth depth v && valid_entries depth entries

-- `trim`: the white space of JavaScript, U+FEFF included and U+0085 not.
unfoldable pub js_space_of_two : ℕ → ℕ → Bool
js_space_of_two b0 b1 = b0 == 0xc2 && b1 == 0xa0

unfoldable pub js_space_of_three : ℕ → ℕ → ℕ → Bool
js_space_of_three b0 b1 b2 = is_space_of_three b0 b1 b2 || b0 == 0xef && b1 == 0xbb && b2 == 0xbf

unfoldable pub js_space : ℕ → Bool
js_space byte = in_range 9 13 byte || byte == 32

unfoldable pub js_space_length : ℕ → Bool → Bool → ℕ
js_space_length byte two three =
    if js_space byte then 1 else if two then 2 else if three then 3 else 0

unfoldable pub js_space_at_start : List ℕ → ℕ
js_space_at_start [] = 0
js_space_at_start (a ∷ []) = js_space_length a false false
js_space_at_start (a ∷ b ∷ []) = js_space_length a (js_space_of_two a b) false
js_space_at_start (a ∷ b ∷ c ∷ text) =
    js_space_length a (js_space_of_two a b) (js_space_of_three a b c)

unfoldable pub js_space_at_end : List ℕ → ℕ
js_space_at_end [] = 0
js_space_at_end (a ∷ []) = js_space_length a false false
js_space_at_end (a ∷ b ∷ []) = js_space_length a (js_space_of_two b a) false
js_space_at_end (a ∷ b ∷ c ∷ text) =
    js_space_length a (js_space_of_two b a) (js_space_of_three c b a)

unfoldable pub js_trim : List ℕ → List ℕ
js_trim text =
    let rest = reverse (strip js_space_at_start (length text) text) in
    reverse (strip js_space_at_end (length rest) rest)

-- `items.join(separator)`
unfoldable pub join : List ℕ → List (List ℕ) → List ℕ
join separator [] = []
join separator (item ∷ []) = item
join separator (item ∷ next ∷ items) = item ++ (separator ++ join separator (next ∷ items))

-- `"  ".repeat(n)`
unfoldable pub indentation : ℕ → List ℕ
indentation zero = []
indentation (suc n) = 32 ∷ 32 ∷ indentation n

unfoldable pub join_json : ℕ → ℕ → List (List ℕ) → Bool → ℕ → List ℕ
join_json open_mark close_mark items pretty depth =
    let indent = indentation (depth + 1) in
    if is_empty items
    then open_mark ∷ close_mark ∷ []
    else if not pretty
    then open_mark ∷ (join (b',' ∷ []) items ++ (close_mark ∷ []))
    else open_mark
      ∷ 10
      ∷ (indent
          ++ (join (b',' ∷ 10 ∷ indent) items ++ (10 ∷ (indentation depth ++ (close_mark ∷ [])))))

-- An array index as a key: a decimal number below 2 ^ 32 - 1, written as JavaScript writes it.
unfoldable pub index_of_key : List ℕ → Option ℕ
index_of_key [] = none
index_of_key (c ∷ key) = elim (decimal_from 0 (c ∷ key)) [
  | none ↦ none
  | some n ↦ if ltb n 0xffff_ffff && (not (c == b'0') || is_empty key) then some n else none
]

-- `sort_by_key` with the keys (0, index) and (1, 0): a stable insertion before the first item that
-- comes strictly later.
unfoldable pub comes_later : Option ℕ → Option ℕ → Bool
comes_later none none = false
comes_later none (some m) = false
comes_later (some n) none = true
comes_later (some n) (some m) = ltb n m

unfoldable pub insert_entry :
    Option ℕ × List ℕ → List (Option ℕ × List ℕ) → List (Option ℕ × List ℕ)
insert_entry item [] = item ∷ []
insert_entry item (other ∷ items) =
    let rest = insert_entry item items in
    if comes_later item.0 other.0 then item ∷ (other ∷ items) else other ∷ rest

unfoldable pub sort_entries :
    List (Option ℕ × List ℕ) → List (Option ℕ × List ℕ) → List (Option ℕ × List ℕ)
sort_entries sorted [] = sorted
sort_entries sorted (item ∷ items) = sort_entries (insert_entry item sorted) items

unfoldable pub item_texts : List (Option ℕ × List ℕ) → List (List ℕ)
item_texts [] = []
item_texts ((key, text) ∷ items) = text ∷ item_texts items
