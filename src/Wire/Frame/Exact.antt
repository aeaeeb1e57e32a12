-- ===== src/Wire/Frame/Exact.antt =====
-- What `write_frame` writes and what `read_frame` accepts, on every branch.
use newhatch.Common.{ℕ, ◌-◌, ◌≤◌, ◌≡◌, ◌+◌, ltb, leb, if◌then◌else◌}
use newhatch.Common.{
  false, some, List, [], ◌∷◌, ◌++◌, length, take, arith, append_assoc, take-append_exact,
  drop-append_exact, length-append, length-take, take-append-drop, take-append_le, take-append_ge,
}
use newhatch.Common.{ok, err}
use newhatch.Common.Bytes.{be_u32, u32_to_be_bytes, be_u32-to_be_bytes}
use newhatch.Wire.Messages.{Envelope, wire_version, max_frame_bytes}
use newhatch.Wire.Messages.{io, frame_too_large}
use newhatch.Wire.Frame.{
  Protobuf, IsFaithful, Writer, write_all, flush_writer, write_frame, read_frame, frame,
}

-- Writing two pieces one after the other is writing both at once.
write_all-append :
    (xs ys : List ℕ) (w : Writer)
    → (let (done, w') = write_all xs w in if done then write_all ys w' else (false, w'))
      ≡ write_all (xs ++ ys) w
unfolding write_all
write_all-append xs ys w = ground (
  arith,
  length-append xs ys,
  append_assoc w.written xs ys,
  take-append_le w.room xs ys,
  take-append_ge w.room (w.room - length xs) xs ys,
  append_assoc w.written xs (take (w.room - length xs) ys),
)

module _ (protobuf : Protobuf) (e : Envelope) (exact : IsFaithful protobuf e) where
  -- Writing an envelope whose encoding has the length that the library announces and decodes to it:
  -- one that encodes to more than 2 MiB is refused with nothing written. Any other is
  -- written as four length bytes and its encoding, and reported as written exactly where flushing
  -- succeeds; where the connection fails earlier, the part that fits is written, and the result is
  -- the error.
  pub write_frame_lem :
      (w : Writer)
      → write_frame protobuf e w ≡ (
          if ltb max_frame_bytes (length (protobuf.encode e))
          then (err (frame_too_large (length (protobuf.encode e))), w)
          else if leb (4 + length (protobuf.encode e)) w.room
          then (
            if w.flushes then ok tt else err io,
            record {
              written = w.written ++ frame protobuf e;
              room = w.room - (4 + length (protobuf.encode e));
              flushes = w.flushes;
            },
          )
          else (
            err io,
            record {
              written = w.written ++ take w.room (frame protobuf e);
              room = 0;
              flushes = w.flushes;
            },
          ))
  unfolding write_frame flush_writer
  write_frame_lem w = ground (
    arith,
    write_all-append (u32_to_be_bytes (length (protobuf.encode e))) (protobuf.encode e) w,
    exact.sized,
  )

  pub read_frame-frame :
      (rest : List ℕ)
      → e.version ≡ wire_version
      → length (protobuf.encode e) ≤ max_frame_bytes
      → read_frame protobuf (frame protobuf e ++ rest) ≡ (ok e, rest)
  unfolding read_frame
  read_frame-frame rest v fits = ground (
    arith,
    exact.decodes,
    length-append (protobuf.encode e) rest,
    be_u32-to_be_bytes (length (protobuf.encode e)),
    take-append_exact (length (protobuf.encode e)) (protobuf.encode e) rest,
    drop-append_exact (length (protobuf.encode e)) (protobuf.encode e) rest,
  )

  -- An envelope of version 1, whose encoding has the length that the library announces and decodes to
  -- it: where `write_frame` reports it as written, `read_frame` returns it from the bytes that were
  -- added, whatever follows them, which is left.
  pub read_frame-write_frame :
      (w w' : Writer) (rest : List ℕ)
      → e.version ≡ wire_version
      → write_frame protobuf e w ≡ (ok tt, w')
      → (w'.written ≡ w.written ++ frame protobuf e)
        × (read_frame protobuf (frame protobuf e ++ rest) ≡ (ok e, rest))
  read_frame-write_frame w w' rest v h = ground (arith, write_frame_lem w, read_frame-frame rest)

-- A frame is accepted only if its body has the announced length, at most 2 MiB, and decodes to an
-- envelope of version 1, and exactly the four length bytes and the body are consumed.
pub read_frame_accepts :
    (protobuf : Protobuf) (input rest : List ℕ) (e : Envelope)
    → read_frame protobuf input ≡ (ok e, rest)
    → (b0 b1 b2 b3 : ℕ) × (body : List ℕ) × (input ≡ b0 ∷ b1 ∷ b2 ∷ b3 ∷ (body ++ rest))
      × (length body ≡ be_u32 b0 b1 b2 b3)
      × (length body ≤ max_frame_bytes)
      × (protobuf.decode_bytes body ≡ some e)
      × (e.version ≡ wire_version)
unfolding read_frame
read_frame_accepts protobuf (b0 ∷ b1 ∷ b2 ∷ b3 ∷ tail) rest e h = (
  b0,
  b1,
  b2,
  b3,
  take (be_u32 b0 b1 b2 b3) tail,
  ground (arith, take-append-drop (be_u32 b0 b1 b2 b3) tail),
  ground (arith, length-take (be_u32 b0 b1 b2 b3) tail),
  ground (arith, length-take (be_u32 b0 b1 b2 b3) tail),
  ground arith,
  ground arith,
)
read_frame_accepts protobuf (b0 ∷ b1 ∷ b2 ∷ []) rest e h = cc
read_frame_accepts protobuf (b0 ∷ b1 ∷ []) rest e h = cc
read_frame_accepts protobuf (b0 ∷ []) rest e h = cc
read_frame_accepts protobuf [] rest e h = cc
