-- ===== src/Http/Decoder/Whole.antt =====
-- `Message::retain` and the steps of `Decoder::feed` (crates/analyzer/src/http_sessions.rs) on
-- requests: what the decoder holds against what it was given.
use newhatch.Common.{
  ℕ, ◌+◌, ◌-◌, ◌^◌, ◌≤◌, ◌<◌, ◌≡◌, refl, sym, ap, ◌∙◌, arith, min, ltb, true, false, List, [], ◌∷◌,
  ◌++◌, length, take, append-nil, ◌⊎◌, length-append, take_all, Bool-cases, inl, inr,
}
use newhatch.Common.Int.{ℤ}
use newhatch.Flow.Stream.{append_bounded}
use newhatch.Http.Chunk.{Body, headers}
use newhatch.Http.Framing.{Head}
use newhatch.Http.Decoder.{
  request_role, Message, saturating_add, discard, retain, is_request, Decoder, take_head_byte,
  begin_body, is_headers, retain_body,
}

-- Where there is room, nothing is cut off.
append_bounded_fits :
    (target bytes : List ℕ) (limit : ℕ)
    → length target + length bytes ≤ limit
    → append_bounded target bytes limit ≡ target ++ bytes
unfolding append_bounded
append_bounded_fits target bytes limit h =
    ap (λ t. target ++ t)
      (take_all (min (length bytes) (limit - length target)) bytes (omega arith))

-- The message of a decoder for requests is what was seen of it, or was dropped.
pub record IsWhole (retain_limit : ℕ) (seen : List ℕ) (d : Decoder) : Type 0 where
  pub role : d.role ≡ request_role
  pub small : d.limit < 2 ^ 64 - 1
  pub budget : retain_limit ≤ d.limit
  pub room : length d.message.bytes ≤ d.limit
  pub kept : is_headers d.body ≡ true → d.message.dropped ≡ false
  pub counted : d.message.dropped ≡ false → d.message.total ≡ length d.message.bytes
  pub exact : d.message.dropped ≡ false → d.message.bytes ≡ seen
  pub fits : is_headers d.body ≡ false → length d.message.bytes ≤ retain_limit

module _ (retain_limit : ℕ) where
  pub take_head_byte-IsWhole :
      (d : Decoder) (seen : List ℕ) (byte : ℕ) (timestamp : ℤ)
      → d.body ≡ headers
      → length d.message.bytes < d.limit
      → IsWhole retain_limit seen d
      → IsWhole retain_limit (seen ++ (byte ∷ [])) (take_head_byte d byte timestamp)
  unfolding take_head_byte is_headers
  take_head_byte-IsWhole d seen byte timestamp b l w =
      let e : append_bounded d.message.bytes (byte ∷ []) d.limit ≡ d.message.bytes ++ (byte ∷ []) =
        append_bounded_fits d.message.bytes (byte ∷ []) d.limit (omega arith) in
      let n : length (d.message.bytes ++ (byte ∷ [])) ≡ length d.message.bytes + 1 =
        length-append d.message.bytes (byte ∷ []) in
      let k : d.message.dropped ≡ false = w.kept (rw b refl) in
      record {
        role = w.role;
        small = w.small;
        budget = w.budget;
        room = rw e (omega (arith, n, l));
        kept = λ _. k;
        counted = λ _. rw e (omega (arith, n, w.counted k));
        exact = λ _. e ∙ ap (λ t. t ++ (byte ∷ [])) (w.exact k);
        fits = rw b (λ h. cc);
      }

  pub begin_body-IsWhole :
      (d : Decoder) (seen : List ℕ) (parsed : Head × Body)
      → d.body ≡ headers
      → is_headers parsed.1 ≡ false
      → IsWhole retain_limit seen d
      → IsWhole retain_limit seen (begin_body d parsed retain_limit)
  unfolding begin_body discard is_headers is_request
  begin_body-IsWhole d seen (head, body) b b' w =
      let k : d.message.dropped ≡ false = w.kept (rw b refl) in
      ground (arith, w.role, w.small, w.budget, w.room, w.counted, w.exact)

  -- What `retain` does for a request: it has dropped the message, or it keeps all the bytes.
  retain_request :
      (m : Message) (bytes : List ℕ) (timestamp : ℤ)
      → retain_limit < 2 ^ 64 - 1
      → (m.dropped ≡ false → m.total ≡ length m.bytes)
      → length m.bytes ≤ retain_limit
      → let r = retain m bytes timestamp retain_limit request_role in
        (length r.bytes ≤ retain_limit) × (r.dropped ≡ true)
        ⊎ (r.dropped ≡ false)
          × (m.dropped ≡ false)
          × (r.bytes ≡ m.bytes ++ bytes)
          × (r.total ≡ length r.bytes)
          × (length r.bytes ≤ retain_limit)
  unfolding retain discard is_request saturating_add
  retain_request m [] timestamp s c h = elim (Bool-cases m.dropped) [
    | inl e ↦ inl (h, e)
    | inr e ↦ inr (e, e, sym (append-nil m.bytes), c e, h)
  ]
  retain_request m (byte ∷ bytes) timestamp s c h =
      let all : List ℕ = byte ∷ bytes in
      elim (Bool-cases m.dropped) [
        | inl e ↦ inl (rw (e, retain) (h, refl))
        | inr e ↦ elim (Bool-cases (ltb retain_limit (saturating_add m.total (length all)))) [
          | inl f ↦ inl (rw (e, f, retain) (omega arith, refl))
          | inr f ↦
              let le : length m.bytes + length all ≤ retain_limit = ground (arith, c e) in
              let g : append_bounded m.bytes
                    (take (min (length all) (retain_limit - length m.bytes)) all) retain_limit
                  ≡ m.bytes ++ all =
                (let t : take (min (length all) (retain_limit - length m.bytes)) all ≡ all =
                    take_all _ all (omega arith) in
                  rw t (append_bounded_fits m.bytes all retain_limit le)) in
              let n : length (m.bytes ++ all) ≡ length m.bytes + length all =
                length-append m.bytes all in
              inr (
                rw (e, f, retain, g)
                  (refl, refl, refl, omega (arith, n, le, s, c e), omega (arith, n, le)))
        ]
      ]

  pub retain-IsWhole :
      (d : Decoder) (seen bytes : List ℕ) (timestamp : ℤ) (body : Body)
      → is_headers d.body ≡ false
      → is_headers body ≡ false
      → IsWhole retain_limit seen d
      → IsWhole retain_limit (seen ++ bytes) (retain_body d bytes timestamp retain_limit body)
  unfolding retain_body
  retain-IsWhole d seen bytes timestamp body b b' w =
      let m =
        retain_request d.message bytes timestamp (omega (arith, w.small, w.budget)) w.counted
          (w.fits b) in
      rw (retain_body, w.role)
        (elim m [
          | inl (fits, dropped) ↦ record {
            role = refl;
            small = w.small;
            budget = w.budget;
            room = omega (arith, fits, w.budget);
            kept = λ h. absurd cc;
            counted = λ h. absurd cc;
            exact = λ h. absurd cc;
            fits = λ _. fits;
          }
          | inr (now, before, whole, counted, fits) ↦ record {
            role = refl;
            small = w.small;
            budget = w.budget;
            room = omega (arith, fits, w.budget);
            kept = λ _. now;
            counted = λ _. counted;
            exact = λ _. whole ∙ ap (λ t. t ++ bytes) (w.exact before);
            fits = λ _. fits;
          }
        ])
