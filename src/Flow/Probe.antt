-- ===== src/Flow/Probe.antt =====
-- `Probe` of crates/analyzer/src/flow.rs: it looks for the end of the first line and of the head in a
-- buffer that grows, without reading again what it has read.
use newhatch.Common.{
  ℕ, zero, suc, ◌+◌, ◌-◌, ◌≤◌, ◌≡◌, refl, sym, ap, arith, ◌==◌, bytes_eq, if◌then◌else◌, false,
  Option, none, some, List, [], ◌∷◌, ◌++◌, length, take, drop, Bool-cases, Option-cases, inl, inr,
  append_assoc, append-nil,
}

pub record Probe : Type 0 where
  pub scanned : ℕ
  pub line_end : Option ℕ
  pub header_end : Option ℕ

unfoldable pub new_probe : Probe
new_probe = record { scanned = 0; line_end = none; header_end = none }

unfoldable pub shift : ℕ → Option ℕ → Option ℕ
shift n none = none
shift n (some i) = some (n + i)

-- `iter().position(|byte| *byte == wanted)`
unfoldable pub position : ℕ → List ℕ → Option ℕ
unfolding shift
position wanted [] = none
position wanted (byte ∷ bytes) =
    let rest = shift 1 (position wanted bytes) in if byte == wanted then some 0 else rest

-- `windows(pattern.len()).position(|window| window == pattern)`
unfoldable pub window_position : List ℕ → List ℕ → Option ℕ
unfolding shift
window_position pattern [] = none
window_position pattern (byte ∷ bytes) =
    let rest = shift 1 (window_position pattern bytes) in
    if bytes_eq (take (length pattern) (byte ∷ bytes)) pattern then some 0 else rest

unfoldable pub or_else : Option ℕ → Option ℕ → Option ℕ
or_else none other = other
or_else (some i) other = some i

-- The end of a head in the bytes: "\r\n\r\n", and where there is none, "\n\n".
unfoldable pub head_end : List ℕ → Option ℕ
unfolding shift or_else
head_end bytes =
    or_else (shift 4 (window_position (13 ∷ 10 ∷ 13 ∷ 10 ∷ []) bytes))
      (shift 2 (window_position (10 ∷ 10 ∷ []) bytes))

-- Probe::inspect
unfoldable pub inspect : Probe → List ℕ → Probe
unfolding or_else shift
inspect p bytes =
    let start = p.scanned - 3 in
    record {
      scanned = length bytes;
      line_end = or_else p.line_end (shift start (position 10 (drop start bytes)));
      header_end = or_else p.header_end (shift start (head_end (drop start bytes)));
    }

shift_zero : (o : Option ℕ) → shift 0 o ≡ o
unfolding shift
shift_zero none = refl
shift_zero (some i) = ap some (omega arith)

shift-shift : (n : ℕ) (o : Option ℕ) → shift 1 (shift n o) ≡ shift (suc n) o
unfolding shift
shift-shift n none = refl
shift-shift n (some i) = ap some (omega arith)

-- What a search that finds nothing says of the first byte and of the others.
position-none :
    (wanted x : ℕ) (xs : List ℕ)
    → position wanted (x ∷ xs) ≡ none
    → ((x == wanted) ≡ false) × (position wanted xs ≡ none)
unfolding position shift
position-none wanted x xs e = ground (arith, e)

position-append_some :
    (wanted i : ℕ) (xs ys : List ℕ)
    → position wanted xs ≡ some i
    → position wanted (xs ++ ys) ≡ some i
unfolding position shift
position-append_some wanted i [] ys e = absurd cc
position-append_some wanted i (x ∷ xs) ys e = elim (Bool-cases (x == wanted)) [
  | inl t ↦ ground (arith, t, e)
  | inr t ↦ elim (Option-cases (position wanted xs)) [
    | inl f ↦ absurd (ground (arith, t, e, f))
    | inr (j, f) ↦ ground (arith, t, e, f, position-append_some wanted j xs ys f)
  ]
]

-- Bytes among which it is not can be left out.
position-drop :
    (wanted n : ℕ) (xs ys : List ℕ)
    → position wanted xs ≡ none
    → n ≤ length xs
    → position wanted (xs ++ ys) ≡ shift n (position wanted (drop n (xs ++ ys)))
unfolding position shift
position-drop wanted zero xs ys e h = sym (shift_zero (position wanted (xs ++ ys)))
position-drop wanted (suc n) [] ys e h = absurd (omega arith)
position-drop wanted (suc n) (x ∷ xs) ys e h =
    let (t, f) = position-none wanted x xs e in
    rw (t, position-drop wanted n xs ys f (omega arith))
      (shift-shift n (position wanted (drop n (xs ++ ys))))

abbrev pub Knows : List ℕ → Probe → Type 0
Knows bytes p = (p.scanned ≡ length bytes) × (p.line_end ≡ position 10 bytes)

inspect-Knows :
    (p : Probe) (bytes more : List ℕ)
    → Knows bytes p
    → Knows (bytes ++ more) (inspect p (bytes ++ more))
unfolding inspect
inspect-Knows p bytes more (s, e) = elim (Option-cases (position 10 bytes)) [
  | inl f ↦
      (refl, rw (e, f) (sym (position-drop 10 (p.scanned - 3) bytes more f (omega (arith, s)))))
  | inr (i, f) ↦ (refl, rw (e, f) (sym (position-append_some 10 i bytes more f)))
]

-- A probe is shown a buffer to which more bytes are appended, time after time.
unfoldable pub inspect_all : Probe → List ℕ → List (List ℕ) → Probe
inspect_all p bytes [] = p
inspect_all p bytes (more ∷ rest) = inspect_all (inspect p (bytes ++ more)) (bytes ++ more) rest

abbrev pub joined : List (List ℕ) → List ℕ
joined [] = []
joined (part ∷ parts) = part ++ joined parts

inspect_all-Knows :
    (p : Probe) (bytes : List ℕ) (parts : List (List ℕ))
    → Knows bytes p
    → Knows (bytes ++ joined parts) (inspect_all p bytes parts)
unfolding inspect_all
inspect_all-Knows p bytes [] k = rw (append-nil bytes) k
inspect_all-Knows p bytes (part ∷ parts) k = rw (← append_assoc bytes part (joined parts)) (
    inspect_all-Knows (inspect p (bytes ++ part)) (bytes ++ part) parts
      (inspect-Knows p bytes part k))

-- However the bytes of a stream are divided into the parts that arrive, a probe that inspects the
-- buffer after each of them knows the end of the first line where a search of the whole finds it.
pub line_end-inspect_all :
    (parts : List (List ℕ)) → (inspect_all new_probe [] parts).line_end ≡ position 10 (joined parts)
unfolding new_probe position
line_end-inspect_all parts = (inspect_all-Knows new_probe [] parts (refl, refl)).1
