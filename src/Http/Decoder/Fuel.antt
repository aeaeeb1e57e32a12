-- ===== src/Http/Decoder/Fuel.antt =====
-- The rounds of `Decoder::feed` (crates/analyzer/src/http_sessions.rs).
use newhatch.Common.{
  ℕ, zero, suc, ◌+◌, ◌-◌, ◌*◌, ◌≤◌, ◌<◌, ◌≡◌, refl, arith, min, leb, if◌then◌else◌, Bool, true, not,
  ◌&&◌, Option, none, some, List, [], ◌∷◌, length, take, drop, is_empty, Result, ok, err, ◌>>=◌,
  length-drop, Bool-cases, inl, inr, ◌⊎◌,
}
use newhatch.Common.Int.{ℤ}
use newhatch.Http.Chunk.{
  Body, headers, fixed, chunked, until_close, done, Chunk, size, data_left, data_end, trailers,
  Malformed, malformed, append_line, next_size, next_trailer, next_data, next_data_end,
  consume_chunk,
}
use newhatch.Http.Framing.{Httparse, RequestMethod, Head}
use newhatch.Http.Decoder.{
  Message, Decoder, is_complete, is_headers, Round, return_message, read_head, take_head_byte,
  begin_body, is_head_end, retain_body, feed_body, feed_on, feed_rounds, feed,
}

-- A chunk without data left, which the decoder never has, would be a round of its own.
unfoldable weight : Body → ℕ
weight headers = 1
weight (fixed n) = 1
weight until_close = 1
weight done = 1
weight (chunked (size line)) = 1
weight (chunked (data_left zero)) = 2
weight (chunked (data_left (suc n))) = 1
weight (chunked (data_end index)) = 1
weight (chunked (trailers line total)) = 1

weight_bounds : (body : Body) → (1 ≤ weight body) × (weight body ≤ 2)
unfolding weight
weight_bounds body = ground arith

unfoldable needed : Body → List ℕ → ℕ
needed body bytes = 2 * length bytes + weight body

abbrev IsUsing {ℓ} : {A : Type ℓ} → Result Malformed (A × ℕ) → Type 0
IsUsing (err e) = Unit
IsUsing (ok (line, count)) = 1 ≤ count

append_line-IsUsing :
    (line bytes : List ℕ) (byte limit : ℕ) → IsUsing (append_line line (byte ∷ bytes) limit)
unfolding append_line
append_line-IsUsing line bytes byte limit = ground arith

abbrev UsesOne : Result Malformed (ℕ × Body) → Type 0
UsesOne (err e) = Unit
UsesOne (ok (count, body)) = 1 ≤ count

next_size-UsesOne : (r : Result Malformed (List ℕ × ℕ)) → IsUsing r → UsesOne (next_size r)
unfolding next_size
next_size-UsesOne (err e) h = tt
next_size-UsesOne (ok (line, count)) h = ground (arith, h)

next_trailer-UsesOne :
    (check : List ℕ → Bool) (total limit : ℕ) (r : Result Malformed (List ℕ × ℕ))
    → IsUsing r
    → UsesOne (next_trailer check total limit r)
unfolding next_trailer
next_trailer-UsesOne check total limit (err e) h = tt
next_trailer-UsesOne check total limit (ok (line, count)) h = ground (arith, h)

-- A body's next state, with fewer rounds to come.
abbrev Lessens : Body → List ℕ → Result Malformed (ℕ × Body) → Type 0
Lessens body bytes (err e) = Unit
Lessens body bytes (ok (count, body')) = needed body' (drop count bytes) < needed body bytes

less_needed :
    (body body' : Body) (bytes : List ℕ) (byte count : ℕ)
    → 1 ≤ count
    → needed body' (drop count (byte ∷ bytes)) < needed body (byte ∷ bytes)
unfolding needed
less_needed body body' bytes byte count h =
    omega (arith, length-drop count (byte ∷ bytes), (weight_bounds body).0, (weight_bounds body').1)

UsesOne-Lessens :
    (body : Body) (bytes : List ℕ) (byte : ℕ) (r : Result Malformed (ℕ × Body))
    → UsesOne r
    → Lessens body (byte ∷ bytes) r
UsesOne-Lessens body bytes byte (err e) h = tt
UsesOne-Lessens body bytes byte (ok (count, body')) h = less_needed body body' bytes byte count h

consume_chunk-Lessens :
    (check : List ℕ → Bool) (chunk : Chunk) (bytes : List ℕ) (byte limit : ℕ)
    → Lessens (chunked chunk) (byte ∷ bytes) (consume_chunk check chunk (byte ∷ bytes) limit)
unfolding consume_chunk next_data next_data_end needed weight
consume_chunk-Lessens check (size line) bytes byte limit =
    UsesOne-Lessens (chunked (size line)) bytes byte _
      (next_size-UsesOne _ (append_line-IsUsing line bytes byte limit))
consume_chunk-Lessens check (data_left zero) bytes byte limit =
    let e : min 0 (suc (length bytes)) ≡ 0 = omega arith in rw e (omega arith)
consume_chunk-Lessens check (data_left (suc n)) bytes byte limit =
    less_needed (chunked (data_left (suc n))) (next_data (suc n) (byte ∷ bytes)).1 bytes byte _
      (omega arith)
consume_chunk-Lessens check (data_end index) bytes byte limit =
    UsesOne-Lessens (chunked (data_end index)) bytes byte (next_data_end index (byte ∷ bytes))
      (ground arith)
consume_chunk-Lessens check (trailers line total) bytes byte limit =
    UsesOne-Lessens (chunked (trailers line total)) bytes byte _
      (next_trailer-UsesOne check total limit _ (append_line-IsUsing line bytes byte limit))

-- What a round does: it ends the loop, or leaves fewer rounds.
abbrev Ends : Decoder → List ℕ → ℕ → Type 0
Ends d bytes count = (is_empty (drop count bytes) && not (is_complete d.body)) ≡ true

abbrev Advances : ℕ → List ℕ → Result Malformed Round → Type 0
Advances rounds bytes (err e) = Unit
Advances rounds bytes (ok (d, count, some message)) = Unit
Advances rounds bytes (ok (d, count, none)) =
    Ends d bytes count ⊎ (needed d.body (drop count bytes) < rounds)

module _ (http : Httparse) (timestamp : ℤ) (method : Option RequestMethod) (retain_limit : ℕ) where
  begin-IsUsing :
      (d : Decoder) (r : Result Malformed (Head × Body))
      → IsUsing (r >>= λ parsed. ok (begin_body d parsed retain_limit, 1))
  begin-IsUsing d (err e) = tt
  begin-IsUsing d (ok parsed) = omega arith

  more-IsUsing :
      (r : Result Malformed (Decoder × ℕ)) → IsUsing (r >>= λ found. ok (found.0, suc found.1))
  more-IsUsing (err e) = tt
  more-IsUsing (ok (d, count)) = omega arith

  read_head-IsUsing :
      (d : Decoder) (bytes : List ℕ) (byte : ℕ)
      → IsUsing (read_head http d (byte ∷ bytes) timestamp method retain_limit)
  unfolding read_head
  read_head-IsUsing d bytes byte =
      let d' : Decoder = take_head_byte d byte timestamp in
      elim (Bool-cases (leb d.limit (length d.message.bytes))) [
        | inl e ↦ rw (e, read_head) tt
        | inr e ↦ elim (Bool-cases (is_head_end d'.message.bytes)) [
          | inl f ↦ rw (e, f, read_head) (begin-IsUsing d' _)
          | inr f ↦ rw (e, f, read_head) (more-IsUsing _)
        ]
      ]

  head-Advances :
      (bytes : List ℕ) (byte : ℕ) (r : Result Malformed (Decoder × ℕ))
      → IsUsing r
      → Advances (needed headers (byte ∷ bytes)) (byte ∷ bytes) (
          r >>= λ found. ok (found.0, found.1, if is_headers found.0.body then some none else none))
  head-Advances bytes byte (err e) h = tt
  head-Advances bytes byte (ok (d, count)) h = elim (Bool-cases (is_headers d.body)) [
    | inl e ↦ rw e tt
    | inr e ↦ rw e (inr (less_needed headers d.body bytes byte count h))
  ]

  chunk-Advances :
      (chunk : Chunk) (d : Decoder) (bytes : List ℕ) (r : Result Malformed (ℕ × Body))
      → Lessens (chunked chunk) bytes r
      → Advances (needed (chunked chunk) bytes) bytes (
          r >>= λ found.
          ok (retain_body d (take found.0 bytes) timestamp retain_limit found.1, found.0, none))
  unfolding retain_body
  chunk-Advances chunk d bytes (err e) h = tt
  chunk-Advances chunk d bytes (ok (count, body)) h = inr h

  feed_body-Advances :
      (body : Body) (d : Decoder) (bytes : List ℕ)
      → d.body ≡ body
      → Advances
          (needed body bytes)
          bytes
          (feed_body http body d bytes timestamp method retain_limit)
  unfolding feed_body read_head is_headers is_complete retain_body return_message
  feed_body-Advances headers d [] b = rw b tt
  feed_body-Advances headers d (byte ∷ bytes) b =
      head-Advances bytes byte _ (read_head-IsUsing d bytes byte)
  feed_body-Advances done d bytes b = tt
  feed_body-Advances (fixed zero) d bytes b = tt
  feed_body-Advances (fixed (suc n)) d [] b =
      let e : min (suc n) 0 ≡ 0 = omega arith in
      let f : suc n - 0 ≡ suc n = omega arith in rw (e, f) (inl refl)
  feed_body-Advances (fixed (suc n)) d (byte ∷ bytes) b =
      inr (less_needed (fixed (suc n)) _ bytes byte _ (omega arith))
  feed_body-Advances until_close d bytes b = tt
  feed_body-Advances (chunked chunk) d [] b = inl (rw b refl)
  feed_body-Advances (chunked chunk) d (byte ∷ bytes) b =
      chunk-Advances chunk d (byte ∷ bytes) _
        (consume_chunk-Lessens http.trailer chunk bytes byte d.limit)

  on_enough :
      (next next' : Decoder → List ℕ → ℕ → Result Malformed (Decoder × ℕ × Option Message))
      (need : ℕ) (bytes : List ℕ) (used : ℕ) (r : Result Malformed Round)
      → ((d : Decoder) (bytes' : List ℕ) (used' : ℕ)
          → needed d.body bytes' < need
          → next d bytes' used' ≡ next' d bytes' used')
      → Advances need bytes r
      → (r >>= feed_on next bytes used) ≡ (r >>= feed_on next' bytes used)
  unfolding feed_on
  on_enough next next' need bytes used (err e) c h = refl
  on_enough next next' need bytes used (ok (d, count, some message)) c h = refl
  on_enough next next' need bytes used (ok (d, count, none)) c (inl e) = rw (e, feed_on) refl
  on_enough next next' need bytes used (ok (d, count, none)) c (inr less) =
      rw (c d (drop count bytes) (used + count) less)

  rounds_enough :
      (out out' : Result Malformed (Decoder × ℕ × Option Message)) (n m : ℕ) (d : Decoder)
      (bytes : List ℕ) (used : ℕ)
      → needed d.body bytes ≤ n
      → needed d.body bytes ≤ m
      → feed_rounds http out n timestamp method retain_limit d bytes used
        ≡ feed_rounds http out' m timestamp method retain_limit d bytes used
  unfolding feed_rounds needed
  rounds_enough out out' zero m d bytes used h k = absurd (omega (arith, (weight_bounds d.body).0))
  rounds_enough out out' (suc n) zero d bytes used h k =
      absurd (omega (arith, (weight_bounds d.body).0))
  rounds_enough out out' (suc n) (suc m) d bytes used h k =
      on_enough (feed_rounds http out n timestamp method retain_limit)
        (feed_rounds http out' m timestamp method retain_limit) (needed d.body bytes) bytes used _
        (λ d' bytes' used' less.
          rounds_enough out out' n m d' bytes' used' (omega arith) (omega arith))
        (feed_body-Advances d.body d bytes refl)

  -- The loop of `feed` ends within twice as many rounds as there are bytes and two more: with that
  -- many rounds or more it has the result of `feed`, whatever its result would be where the rounds
  -- run out.
  pub feed_rounds-feed :
      (out : Result Malformed (Decoder × ℕ × Option Message)) (rounds : ℕ) (d : Decoder)
      (bytes : List ℕ)
      → 2 * length bytes + 2 ≤ rounds
      → feed_rounds http out rounds timestamp method retain_limit d bytes 0
        ≡ feed http d bytes timestamp method retain_limit
  unfolding feed needed
  feed_rounds-feed out rounds d bytes h =
      rounds_enough out (err malformed) rounds (2 * length bytes + 2) d bytes 0
        (omega (arith, (weight_bounds d.body).1)) (omega (arith, (weight_bounds d.body).1))
