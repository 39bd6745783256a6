-- ===== src/Stomp/Decimal.antt =====
-- `std::to_string` of a size: its decimal digits, which `StoI` reads back.
use metro_network_monitor.Base.{
  [], ℕ, zero, suc, ◌+◌, ◌-◌, ◌*◌, ◌/◌, ◌%◌, ◌<◌, ◌≡◌, refl, ap, ◌∙◌, ◌≢◌, inl, inr, Bool, true,
  false, ◌&&◌, some, ◌∷◌, ◌++◌, arith, ltb, ◌==◌, if◌then◌else◌, ltb→lt, lt→ltb, le→not_ltb,
  not_ltb→le, ne→not_==, Bool-cases, length, take, drop, length-append, nat_eq, lookup, Bytes,
  bytes_eq,
}
use metro_network_monitor.Stomp.Parse.{
  number, too_large, is_digit, digits_value, from_chars, size_max, Headers, parse_body,
  parse_sized_body, parse_tail, accepts, null,
}
use metro_network_monitor.Stomp.RoundTrip.{lacks}
use metro_network_monitor.Stomp.Headers.{content_length_header, header_eq}

-- The digits of a number; the fuel is a bound on their count.
unfoldable pub digits : ℕ → ℕ → Bytes
digits zero n = []
digits (suc fuel) n =
    let front = digits fuel (n / 10) in
    if ltb n 10 then (48 + n) ∷ [] else front ++ ((48 + n % 10) ∷ [])

-- `std::to_string`
unfoldable pub to_string : ℕ → Bytes
unfolding digits
to_string n = digits (suc n) n

all_digits : Bytes → Bool
all_digits [] = true
all_digits (c ∷ cs) = is_digit c && all_digits cs

digits_value-append :
    (n : ℕ) (xs : Bytes) (c : ℕ)
    → all_digits xs ≡ true
    → is_digit c ≡ true
    → digits_value n (xs ++ (c ∷ [])) ≡ digits_value n xs * 10 + (c - 48)
unfolding digits_value all_digits
digits_value-append n [] c h d = rw d refl
digits_value-append n (x ∷ xs) c h d =
    let first : is_digit x ≡ true = ground arith in
    let more : all_digits xs ≡ true = ground arith in
    rw first (digits_value-append (n * 10 + (x - 48)) xs c more d)

all_digits-append :
    (xs : Bytes) (c : ℕ)
    → all_digits xs ≡ true
    → is_digit c ≡ true
    → all_digits (xs ++ (c ∷ [])) ≡ true
unfolding all_digits
all_digits-append [] c h d = ground arith
all_digits-append (x ∷ xs) c h d = ground (arith, all_digits-append xs c)

digit-is_digit : (n : ℕ) → n < 10 → is_digit (48 + n) ≡ true
digit-is_digit n h = ground arith

-- Enough digits stand for the number.
record Denotes (n : ℕ) (xs : Bytes) : Type 0 where
  only_digits : all_digits xs ≡ true
  some_digit : xs ≢ []
  value : digits_value 0 xs ≡ n

append-cons_ne : (xs : Bytes) (c : ℕ) → (xs ++ (c ∷ [])) ≢ []
append-cons_ne [] c e = cc
append-cons_ne (x ∷ xs) c e = cc

one_digit : (n : ℕ) → n < 10 → digits_value 0 ((48 + n) ∷ []) ≡ n
unfolding digits_value
one_digit n h = rw (digit-is_digit n h) (omega arith)

digits-Denotes : (fuel n : ℕ) → n < fuel → Denotes n (digits fuel n)
unfolding digits all_digits digits_value
digits-Denotes zero n less = absurd (omega arith)
digits-Denotes (suc fuel) n less = elim (Bool-cases (ltb n 10)) [
  | inl small ↦ rw small (record {
    only_digits = ground (arith, digit-is_digit n);
    some_digit = λ e. cc;
    value = one_digit n (ltb→lt n 10 small);
  })
  | inr large ↦
      let h = digits-Denotes fuel (n / 10) (omega (arith, not_ltb→le n 10 large)) in
      let last = digit-is_digit (n % 10) (omega arith) in
      rw large (record {
        only_digits = all_digits-append (digits fuel (n / 10)) (48 + n % 10) h.only_digits last;
        some_digit = append-cons_ne (digits fuel (n / 10)) (48 + n % 10);
        value = omega (
          arith,
          digits_value-append 0 (digits fuel (n / 10)) (48 + n % 10) h.only_digits last,
          h.value,
        );
      })
]

all_digits-lacks :
    (c : ℕ) (xs : Bytes) → is_digit c ≡ false → all_digits xs ≡ true → lacks c xs ≡ true
unfolding all_digits lacks
all_digits-lacks c [] h d = refl
all_digits-lacks c (x ∷ xs) h d =
    let more : all_digits xs ≡ true = ground arith in
    let other : (x == c) ≡ false = ground arith in rw (other, all_digits-lacks c xs h more) refl

-- What is printed can stand in a header.
pub to_string-lacks : (c n : ℕ) → is_digit c ≡ false → lacks c (to_string n) ≡ true
unfolding to_string
to_string-lacks c n h =
    all_digits-lacks c (digits (suc n) n) h (digits-Denotes (suc n) n (omega arith)).only_digits

pub to_string-ne : (n : ℕ) → to_string n ≢ []
unfolding to_string
to_string-ne n = (digits-Denotes (suc n) n (omega arith)).some_digit

from_chars-digit :
    (c : ℕ) (cs : Bytes)
    → is_digit c ≡ true
    → from_chars (c ∷ cs) ≡ (
        if ltb (digits_value 0 (c ∷ cs)) size_max
        then number (digits_value 0 (c ∷ cs))
        else too_large)
unfolding from_chars
from_chars-digit c cs d = rw (d, from_chars) refl

from_chars-Denotes : (n : ℕ) (xs : Bytes) → Denotes n xs → n < size_max → from_chars xs ≡ number n
unfolding from_chars all_digits
from_chars-Denotes n [] h small = absurd (h.some_digit refl)
from_chars-Denotes n (c ∷ cs) h small =
    let d : is_digit c ≡ true = (let only = h.only_digits in ground arith) in
    from_chars-digit c cs d
    ∙ (ap (λ v. if ltb v size_max then number v else too_large) h.value
        ∙ rw (lt→ltb n size_max small) refl)

-- `StoI` reads back the size that `std::to_string` printed, for every size.
pub from_chars-to_string : (n : ℕ) → n < size_max → from_chars (to_string n) ≡ number n
unfolding to_string
from_chars-to_string n small =
    from_chars-Denotes n (digits (suc n) n) (digits-Denotes (suc n) n (omega arith)) small

drop-append : (xs ys : Bytes) → drop (length xs) (xs ++ ys) ≡ ys
drop-append [] ys = refl
drop-append (x ∷ xs) ys = drop-append xs ys

take-append : (xs ys : Bytes) → take (length xs) (xs ++ ys) ≡ xs
take-append [] ys = refl
take-append (x ∷ xs) ys = ap (λ v. x ∷ v) (take-append xs ys)

-- A body of the length that the headers have for it may hold any bytes.
pub parse_body-sized :
    (headers : Headers) (body : Bytes)
    → lookup content_length_header headers ≡ some (to_string (length body))
    → length body < size_max
    → parse_body headers (body ++ (null ∷ [])) ≡ accepts body
unfolding parse_body parse_sized_body parse_tail
parse_body-sized headers body sized small =
    let n = length body in
    let plain = body ++ (null ∷ []) in
    let size : length plain ≡ n + 1 = length-append body (null ∷ []) in
    let not_all : (n == length plain) ≡ false =
      rw size (ne→not_== n (n + 1) (λ e. absurd (omega (arith, e)))) in
    let fits : ltb (length plain) n ≡ false = le→not_ltb (length plain) n (omega (arith, size)) in
    rw (sized, from_chars-to_string n small, parse_body)
      (rw
        (
          not_all,
          fits,
          drop-append body (null ∷ []),
          take-append body (null ∷ []),
          parse_sized_body,
        )
        refl)
