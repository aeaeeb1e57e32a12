-- ===== src/Http/Decoder/Exact.antt =====
-- `Decoder::feed` (crates/analyzer/src/http_sessions.rs) on requests: its messages against its bytes.
use newhatch.Common.{
  ℕ, zero, suc, ◌+◌, ◌-◌, ◌*◌, ◌≤◌, ◌≡◌, refl, sym, ap, ◌∙◌, arith, min, leb, if◌then◌else◌, false,
  not, ◌&&◌, Option, none, some, List, [], ◌∷◌, ◌++◌, length, take, drop, is_empty, Result, ok, err,
  ◌>>=◌, append_assoc, append-nil, length-drop, take_all, take_split, Bool-cases, inl, inr,
}
use mathlib.Core.Path.{subst}
use newhatch.Common.Int.{ℤ}
use newhatch.Http.Chunk.{Body, headers, fixed, chunked, until_close, done, Malformed}
use newhatch.Http.Framing.{Httparse, RequestMethod, Head}
use newhatch.Http.Chunk.{malformed}
use newhatch.Http.Decoder.{
  Message, new_message, Decoder, take_message, take_head_byte, begin_body, is_headers, is_complete,
  is_head_end, Round, return_message, read_head, retain_body, feed_body, feed_on, feed_rounds, feed,
}
use newhatch.Http.Decoder.Bodies.{IsParsed, parse_head-IsParsed, IsFramed, consume_chunk-IsFramed}
use newhatch.Http.Decoder.Whole.{
  IsWhole, take_head_byte-IsWhole, begin_body-IsWhole, retain-IsWhole,
}

module _ (http : Httparse) (timestamp : ℤ) (method : Option RequestMethod) (retain_limit : ℕ) where
  abbrev HasRead : List ℕ → List ℕ → Result Malformed (Decoder × ℕ) → Type 0
  HasRead seen bytes (err e) = Unit
  HasRead seen bytes (ok (d, count)) =
      (count ≤ length bytes) × IsWhole retain_limit (seen ++ take count bytes) d

  begin-HasRead :
      (d : Decoder) (seen bytes : List ℕ) (byte : ℕ) (r : Result Malformed (Head × Body))
      → d.body ≡ headers
      → IsParsed r
      → IsWhole retain_limit (seen ++ (byte ∷ [])) d
      → HasRead seen (byte ∷ bytes) (r >>= λ parsed. ok (begin_body d parsed retain_limit, 1))
  begin-HasRead d seen bytes byte (err e) b h w = tt
  begin-HasRead d seen bytes byte (ok parsed) b h w =
      (omega arith, begin_body-IsWhole retain_limit d (seen ++ (byte ∷ [])) parsed b h w)

  more-HasRead :
      (seen bytes : List ℕ) (byte : ℕ) (r : Result Malformed (Decoder × ℕ))
      → HasRead (seen ++ (byte ∷ [])) bytes r
      → HasRead seen (byte ∷ bytes) (r >>= λ found. ok (found.0, suc found.1))
  more-HasRead seen bytes byte (err e) h = tt
  more-HasRead seen bytes byte (ok (d, count)) (le, w) = (
    omega arith,
    subst (λ t. IsWhole retain_limit t d) (append_assoc seen (byte ∷ []) (take count bytes)) w,
  )

  read_head-HasRead :
      (d : Decoder) (seen bytes : List ℕ)
      → d.body ≡ headers
      → IsWhole retain_limit seen d
      → HasRead seen bytes (read_head http d bytes timestamp method retain_limit)
  unfolding read_head take_head_byte
  read_head-HasRead d seen [] b w =
      (omega arith, subst (λ t. IsWhole retain_limit t d) (sym (append-nil seen)) w)
  read_head-HasRead d seen (byte ∷ bytes) b w =
      let d' : Decoder = take_head_byte d byte timestamp in
      let b' : d'.body ≡ headers = b in
      elim (Bool-cases (leb d.limit (length d.message.bytes))) [
        | inl e ↦ rw (e, read_head) tt
        | inr e ↦
            let w' : IsWhole retain_limit (seen ++ (byte ∷ [])) d' =
              take_head_byte-IsWhole retain_limit d seen byte timestamp b (ground arith) w in
            elim (Bool-cases (is_head_end d'.message.bytes)) [
              | inl f ↦
                  rw (e, f, read_head)
                    (begin-HasRead d' seen bytes byte _ b'
                      (parse_head-IsParsed http d'.message.bytes d'.role method) w')
              | inr f ↦
                  rw (e, f, read_head)
                    (more-HasRead seen bytes byte _
                      (read_head-HasRead d' (seen ++ (byte ∷ [])) bytes b' w'))
            ]
      ]

  -- What a round or a whole call makes of its bytes, of which it used the first `count`.
  abbrev pub Keeps : List ℕ → List ℕ → ℕ → Decoder → Option Message → Type 0
  Keeps seen bytes count d none =
      (count ≤ length bytes) × IsWhole retain_limit (seen ++ take count bytes) d
  Keeps seen bytes count d (some m) =
      (count ≤ length bytes)
      × (length m.bytes ≤ retain_limit)
      × (m.dropped ≡ false → m.bytes ≡ seen ++ take count bytes)
      × IsWhole retain_limit [] d

  abbrev HasFed : List ℕ → List ℕ → Result Malformed Round → Type 0
  HasFed seen bytes (err e) = Unit
  HasFed seen bytes (ok (d, count, none)) = Keeps seen bytes count d none
  HasFed seen bytes (ok (d, count, some message)) = Keeps seen bytes count d message

  returned :
      (d : Decoder) (seen bytes : List ℕ)
      → is_headers d.body ≡ false
      → IsWhole retain_limit seen d
      → HasFed seen bytes (ok (return_message d))
  unfolding return_message take_message new_message is_headers
  returned d seen bytes b w = (
    omega arith,
    w.fits b,
    λ h. w.exact h ∙ sym (append-nil seen),
    record {
      role = w.role;
      small = w.small;
      budget = w.budget;
      room = omega arith;
      kept = λ _. refl;
      counted = λ _. refl;
      exact = λ _. refl;
      fits = λ h. absurd cc;
    },
  )

  head-HasFed :
      (seen bytes : List ℕ) (r : Result Malformed (Decoder × ℕ))
      → HasRead seen bytes r
      → HasFed seen bytes (
          r >>= λ found. ok (found.0, found.1, if is_headers found.0.body then some none else none))
  head-HasFed seen bytes (err e) h = tt
  head-HasFed seen bytes (ok (d, count)) h = elim (Bool-cases (is_headers d.body)) [
    | inl e ↦ rw e h
    | inr e ↦ rw e h
  ]

  chunk-HasFed :
      (d : Decoder) (seen bytes : List ℕ) (r : Result Malformed (ℕ × Body))
      → is_headers d.body ≡ false
      → IsWhole retain_limit seen d
      → IsFramed (length bytes) r
      → HasFed seen bytes (
          r >>= λ found.
          ok (retain_body d (take found.0 bytes) timestamp retain_limit found.1, found.0, none))
  chunk-HasFed d seen bytes (err e) b w h = tt
  chunk-HasFed d seen bytes (ok (count, body)) b w (le, b') =
      (le, retain-IsWhole retain_limit d seen (take count bytes) timestamp body b b' w)

  feed_body-HasFed :
      (body : Body) (d : Decoder) (seen bytes : List ℕ)
      → d.body ≡ body
      → IsWhole retain_limit seen d
      → HasFed seen bytes (feed_body http body d bytes timestamp method retain_limit)
  unfolding feed_body is_headers
  feed_body-HasFed headers d seen bytes b w =
      head-HasFed seen bytes _ (read_head-HasRead d seen bytes b w)
  feed_body-HasFed done d seen bytes b w = returned d seen bytes (rw b refl) w
  feed_body-HasFed (fixed zero) d seen bytes b w = returned d seen bytes (rw b refl) w
  feed_body-HasFed (fixed (suc n)) d seen bytes b w =
      let count : ℕ = min (suc n) (length bytes) in
      (
        omega arith,
        retain-IsWhole retain_limit d seen (take count bytes) timestamp (fixed (suc n - count))
            (rw b refl) refl w,
      )
  feed_body-HasFed until_close d seen bytes b w = (
    omega arith,
    rw (take_all (length bytes) bytes (omega arith))
        (retain-IsWhole retain_limit d seen bytes timestamp until_close (rw b refl) refl w),
  )
  feed_body-HasFed (chunked chunk) d seen [] b w =
      (omega arith, subst (λ t. IsWhole retain_limit t d) (sym (append-nil seen)) w)
  feed_body-HasFed (chunked chunk) d seen (byte ∷ bytes) b w =
      chunk-HasFed d seen (byte ∷ bytes) _ (rw b refl) w
        (consume_chunk-IsFramed http.trailer chunk (byte ∷ bytes) d.limit)

  rest_seen :
      (seen bytes : List ℕ) (c n : ℕ)
      → (seen ++ take c bytes) ++ take n (drop c bytes) ≡ seen ++ take (c + n) bytes
  rest_seen seen bytes c n =
      append_assoc seen (take c bytes) (take n (drop c bytes))
      ∙ ap (λ t. seen ++ t) (sym (take_split c n (c + n) bytes refl))

  count-Keeps :
      (seen bytes : List ℕ) (c n : ℕ) (d : Decoder) (m : Option Message)
      → c ≤ length bytes
      → Keeps (seen ++ take c bytes) (drop c bytes) n d m
      → Keeps seen bytes (c + n) d m
  count-Keeps seen bytes c n d none le (le', w) = (
    omega (arith, length-drop c bytes),
    subst (λ t. IsWhole retain_limit t d) (rest_seen seen bytes c n) w,
  )
  count-Keeps seen bytes c n d (some m) le (le', fits, exact, w) =
      (omega (arith, length-drop c bytes), fits, λ h. exact h ∙ rest_seen seen bytes c n, w)

  abbrev pub IsFed : List ℕ → List ℕ → ℕ → Result Malformed (Decoder × ℕ × Option Message) → Type 0
  IsFed seen bytes used (err e) = Unit
  IsFed seen bytes used (ok (d, used', message)) =
      (n : ℕ) × (used' ≡ used + n) × Keeps seen bytes n d message

  later-IsFed :
      (seen bytes : List ℕ) (c used : ℕ) (r : Result Malformed (Decoder × ℕ × Option Message))
      → c ≤ length bytes
      → IsFed (seen ++ take c bytes) (drop c bytes) (used + c) r
      → IsFed seen bytes used r
  later-IsFed seen bytes c used (err e) le h = tt
  later-IsFed seen bytes c used (ok (d, used', message)) le (n, e, k) =
      (c + n, omega arith, count-Keeps seen bytes c n d message le k)

  feed_on-IsFed :
      (continue : Decoder → List ℕ → ℕ → Result Malformed (Decoder × ℕ × Option Message))
      (seen bytes : List ℕ) (used : ℕ) (r : Result Malformed Round)
      → ((d : Decoder) (seen' bytes' : List ℕ) (used' : ℕ)
          → IsWhole retain_limit seen' d
          → IsFed seen' bytes' used' (continue d bytes' used'))
      → HasFed seen bytes r
      → IsFed seen bytes used (r >>= feed_on continue bytes used)
  unfolding feed_on
  feed_on-IsFed continue seen bytes used (err e) c h = tt
  feed_on-IsFed continue seen bytes used (ok (d, count, some message)) c h = (count, refl, h)
  feed_on-IsFed continue seen bytes used (ok (d, count, none)) c (le, w) =
      elim (Bool-cases (is_empty (drop count bytes) && not (is_complete d.body))) [
        | inl e ↦ rw (e, feed_on) (count, refl, (le, w))
        | inr e ↦
            rw (e, feed_on)
              (later-IsFed seen bytes count used _ le
                (c d (seen ++ take count bytes) (drop count bytes) (used + count) w))
      ]

  feed_rounds-IsFed :
      (rounds : ℕ) (d : Decoder) (seen bytes : List ℕ) (used : ℕ)
      → IsWhole retain_limit seen d
      → IsFed seen bytes used
          (feed_rounds http (err malformed) rounds timestamp method retain_limit d bytes used)
  unfolding feed_rounds
  feed_rounds-IsFed zero d seen bytes used w = tt
  feed_rounds-IsFed (suc rounds) d seen bytes used w =
      feed_on-IsFed (feed_rounds http (err malformed) rounds timestamp method retain_limit) seen
        bytes used _ (λ d' seen' bytes' used' w'. feed_rounds-IsFed rounds d' seen' bytes' used' w')
        (feed_body-HasFed d.body d seen bytes refl w)

  -- The decoder for requests, on the bytes of one call: it never takes more than there are; a
  -- request that it returns undropped is what was seen of it before and the bytes taken now, and is
  -- no longer than the budget; without a request, what it holds undropped is all that was seen.
  pub feed-IsFed :
      (d : Decoder) (seen bytes : List ℕ)
      → IsWhole retain_limit seen d
      → IsFed seen bytes 0 (feed http d bytes timestamp method retain_limit)
  unfolding feed
  feed-IsFed d seen bytes w = feed_rounds-IsFed (2 * length bytes + 2) d seen bytes 0 w
