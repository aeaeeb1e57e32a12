-- ===== src/Auth/Expiration.antt =====
-- What the texts of a configuration stand for (`parse_expiration` and the reading of the cookie's flag,
-- crates/analyzer/src/auth.rs).
use newhatch.Common.{
  ℕ, suc, ◌+◌, ◌-◌, ◌*◌, ◌^◌, ◌<◌, ◌≤◌, ◌≡◌, inl, inr, refl, arith, Bool, true, false, ltb, Option,
  some, List, [], ◌∷◌, ◌++◌, ◌∙◌, ap, length, All, ok, ok_or, bytes_eq, bytes_eq_iff, Bool-cases,
  Option-cases,
}
use newhatch.Common.Text.{in_range}
use newhatch.Auth.{
  bad_expiration, split_digits, digits_value, parse_i64, multiplier_of, checked_mul,
  parse_expiration, parse_bool,
}

-- The number that decimal digits write, the first digit counting most.
unfoldable pub decimal : List ℕ → ℕ
decimal [] = 0
decimal (byte ∷ digits) = (byte - b'0') * 10 ^ length digits + decimal digits

-- The seconds in a unit of time.
pub data IsUnit : List ℕ → ℕ → Type 0 where
  second : IsUnit (b's' ∷ []) 1
  minute : IsUnit (b'm' ∷ []) 60
  hour : IsUnit (b'h' ∷ []) (60 * 60)
  day : IsUnit (b'd' ∷ []) (24 * 60 * 60)

abbrev pub IsDigit : ℕ → Type 0
IsDigit byte = in_range b'0' b'9' byte ≡ true

-- A text is digits and a unit, and stands for as many seconds.
abbrev pub IsTime : List ℕ → ℕ → Type 0
IsTime text seconds =
    (digits unit_text : List ℕ) × (unit_seconds : ℕ) × (text ≡ digits ++ unit_text)
    × All IsDigit digits
    × (0 < length digits)
    × IsUnit unit_text unit_seconds
    × (seconds ≡ decimal digits * unit_seconds)

abbrev pub IsFlag : List ℕ → Bool → Type 0
IsFlag text true = text ≡ b't' ∷ b'r' ∷ b'u' ∷ b'e' ∷ []
IsFlag text false = text ≡ b'f' ∷ b'a' ∷ b'l' ∷ b's' ∷ b'e' ∷ []

shift : (a v p q r : ℕ) → q ≡ 10 * p → (a * 10 + v) * p + r ≡ a * q + (v * p + r)
shift a v p q r e = rw e (omega arith)

digits_value-decimal :
    (acc : ℕ) (digits : List ℕ)
    → digits_value acc digits ≡ acc * 10 ^ length digits + decimal digits
unfolding digits_value decimal
digits_value-decimal acc [] = omega arith
digits_value-decimal acc (byte ∷ digits) =
    rw (digits_value-decimal (acc * 10 + (byte - b'0')) digits) (
      shift acc (byte - 48) (10 ^ length digits) (10 ^ suc (length digits)) (decimal digits)
        (omega arith))

split_digits-IsDigit :
    (text : List ℕ)
    → (text ≡ (split_digits text).0 ++ (split_digits text).1) × All IsDigit (split_digits text).0
unfolding split_digits
split_digits-IsDigit [] = (refl, tt)
split_digits-IsDigit (byte ∷ text) = elim (Bool-cases (in_range b'0' b'9' byte)) [
  | inl e ↦
      let (whole, digits) = split_digits-IsDigit text in rw e (ground (arith, whole), (e, digits))
  | inr e ↦ rw e (refl, tt)
]

IsUnit-at :
    {text unit_text : List ℕ} {n seconds : ℕ}
    → IsUnit unit_text seconds
    → bytes_eq text unit_text ≡ true
    → ◌≡◌ {A = Option ℕ} (some seconds) (some n)
    → IsUnit text n
IsUnit-at {text} {unit_text} {n} {seconds} unit e same =
    let named : text ≡ unit_text = (bytes_eq_iff text unit_text).0 e in
    let value : seconds ≡ n = cc in rw (named, ← value) unit

multiplier_of-IsUnit : (text : List ℕ) (n : ℕ) → multiplier_of text ≡ some n → IsUnit text n
unfolding multiplier_of
multiplier_of-IsUnit text n e = elim (Bool-cases (bytes_eq text (b's' ∷ []))) [
  | inl s ↦ IsUnit-at second s (rw s at e)
  | inr s ↦ elim (Bool-cases (bytes_eq text (b'm' ∷ []))) [
    | inl m ↦ IsUnit-at minute m (rw (s, m) at e)
    | inr m ↦ elim (Bool-cases (bytes_eq text (b'h' ∷ []))) [
      | inl h ↦ IsUnit-at hour h (rw (s, m, h) at e)
      | inr h ↦ elim (Bool-cases (bytes_eq text (b'd' ∷ []))) [
        | inl d ↦ IsUnit-at day d (rw (s, m, h, d) at e)
        | inr d ↦ absurd (cc (rw (s, m, h, d) at e))
      ]
    ]
  ]
]

pub parse_bool-IsFlag : (text : List ℕ) (b : Bool) → parse_bool text ≡ some b → IsFlag text b
unfolding parse_bool
parse_bool-IsFlag text true e = ground (
  arith,
  e,
  (bytes_eq_iff text (b't' ∷ b'r' ∷ b'u' ∷ b'e' ∷ [])).0,
  (bytes_eq_iff text (b'f' ∷ b'a' ∷ b'l' ∷ b's' ∷ b'e' ∷ [])).0,
)
parse_bool-IsFlag text false e = ground (
  arith,
  e,
  (bytes_eq_iff text (b't' ∷ b'r' ∷ b'u' ∷ b'e' ∷ [])).0,
  (bytes_eq_iff text (b'f' ∷ b'a' ∷ b'l' ∷ b's' ∷ b'e' ∷ [])).0,
)

parse_i64-decimal :
    (digits : List ℕ) (n : ℕ)
    → parse_i64 digits ≡ some n
    → (0 < length digits) × (n ≡ decimal digits)
unfolding parse_i64
parse_i64-decimal [] n e = absurd (cc)
parse_i64-decimal (byte ∷ digits) n e =
    (omega arith, ground (arith, e, digits_value-decimal 0 (byte ∷ digits)))

checked_mul-ok :
    (n m seconds : ℕ) → ok_or (checked_mul n m) bad_expiration ≡ ok seconds → seconds ≡ n * m
unfolding checked_mul
checked_mul-ok n m seconds e = elim (Bool-cases (ltb (n * m) (2 ^ 63))) [
  | inl b ↦ cc (rw b at e)
  | inr b ↦ absurd (cc (rw b at e))
]

pub parse_expiration-IsTime :
    (text : List ℕ) (seconds : ℕ) → parse_expiration text ≡ ok seconds → IsTime text seconds
unfolding parse_expiration
parse_expiration-IsTime text seconds e =
    let (whole, digits) = split_digits-IsDigit text in
    elim (Option-cases (parse_i64 (split_digits text).0)) [
      | inl i ↦ absurd (cc (rw i at e))
      | inr (n, i) ↦ elim (Option-cases (multiplier_of (split_digits text).1)) [
        | inl m ↦ absurd (cc (rw (i, m) at e))
        | inr (unit_seconds, m) ↦
            let (some_digits, value) = parse_i64-decimal (split_digits text).0 n i in
            (
              (split_digits text).0,
              (split_digits text).1,
              unit_seconds,
              whole,
              digits,
              some_digits,
              multiplier_of-IsUnit (split_digits text).1 unit_seconds m,
              checked_mul-ok n unit_seconds seconds (rw (i, m) at e)
                  ∙ ap (λ k. k * unit_seconds) value,
            )
      ]
    ]

-- The other way round: a text of the form is read.
IsUnit-split_digits : (text : List ℕ) (n : ℕ) → IsUnit text n → split_digits text ≡ ([], text)
unfolding split_digits in_range
IsUnit-split_digits text n second = refl
IsUnit-split_digits text n minute = refl
IsUnit-split_digits text n hour = refl
IsUnit-split_digits text n day = refl

IsUnit-multiplier_of : (text : List ℕ) (n : ℕ) → IsUnit text n → multiplier_of text ≡ some n
unfolding multiplier_of
IsUnit-multiplier_of text n second = refl
IsUnit-multiplier_of text n minute = refl
IsUnit-multiplier_of text n hour = refl
IsUnit-multiplier_of text n day = refl

IsUnit-bound : (text : List ℕ) (n value : ℕ) → IsUnit text n → value ≤ value * n
IsUnit-bound text n value second = omega arith
IsUnit-bound text n value minute = omega arith
IsUnit-bound text n value hour = omega arith
IsUnit-bound text n value day = omega arith

split_digits-append :
    (digits text : List ℕ)
    → All IsDigit digits
    → split_digits text ≡ ([], text)
    → split_digits (digits ++ text) ≡ (digits, text)
unfolding split_digits
split_digits-append [] text all stops = stops
split_digits-append (byte ∷ digits) text (digit, all) stops =
    rw (digit, split_digits-append digits text all stops) refl

parse_i64-some :
    (digits : List ℕ)
    → 0 < length digits
    → decimal digits < 2 ^ 63
    → parse_i64 digits ≡ some (decimal digits)
unfolding parse_i64
parse_i64-some [] long small = absurd (omega arith)
parse_i64-some (byte ∷ digits) long small =
    ground (arith, small, digits_value-decimal 0 (byte ∷ digits))

pub IsTime-parse_expiration :
    (text : List ℕ) (seconds : ℕ)
    → IsTime text seconds
    → seconds < 2 ^ 63
    → parse_expiration text ≡ ok seconds
unfolding parse_expiration checked_mul
IsTime-parse_expiration text seconds (digits, unit_text, n, whole, all, long, unit, value) small =
    let fits : decimal digits < 2 ^ 63 =
      omega (arith, IsUnit-bound unit_text n (decimal digits) unit) in
    let within : ltb (decimal digits * n) (2 ^ 63) ≡ true = ground (arith, value, small) in
    rw
      (
        whole,
        split_digits-append digits unit_text all (IsUnit-split_digits unit_text n unit),
        parse_i64-some digits long fits,
        IsUnit-multiplier_of unit_text n unit,
        within,
        value,
      )
      refl

pub IsFlag-parse_bool : (text : List ℕ) (b : Bool) → IsFlag text b → parse_bool text ≡ some b
unfolding parse_bool
IsFlag-parse_bool text true e = rw e refl
IsFlag-parse_bool text false e = rw e refl
