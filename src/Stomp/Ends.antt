-- ===== src/Stomp/Ends.antt =====
-- How the parser ends.
use metro_network_monitor.Base.{
  ℕ, zero, suc, ◌≤◌, ◌<◌, ◌≡◌, ap, inl, inr, some, [], ◌∷◌, arith, ltb, ◌==◌, Bool-cases,
  Option-cases, length, take, drop, List-cases, nat_eq, lookup, Bytes, bytes_eq,
}
use metro_network_monitor.Stomp.Commands.{StompCommand, invalid, eq_command, to_command}
use metro_network_monitor.Stomp.Headers.{
  StompHeader, invalid_header, content_length_header, eq_header, header_eq, to_header,
}
use metro_network_monitor.Stomp.Errors.{ok, parsing_invalid_content_length}
use metro_network_monitor.Stomp.Parse.{
  Parsed, accepts, rejects, out_of_range, looping, ◌>>=◌, Headers, new_line, colon, null, split_at,
  Number, no_digits, too_large, number, from_chars, parse_value, parse_header, at_blank,
  parse_headers, parse_tail, parse_sized_body, parse_body, Fields, parse_blank, parse_frame,
}

-- The parser goes on with a value of which something holds, throws, or returns an error code, but
-- never that of success.
abbrev pub Ends {ℓ} : {A : Type ℓ} → (A → Type 0) → Parsed A → Type 0
Ends P (accepts a) = P a
Ends P (rejects e) = ¬ (e ≡ ok)
Ends P out_of_range = Unit
Ends P looping = ⊥

>>=-Ends {ℓ κ} :
    {A : Type ℓ} {B : Type κ} (P : A → Type 0) (Q : B → Type 0) (r : Parsed A) (f : A → Parsed B)
    → Ends P r
    → ((a : A) → P a → Ends Q (f a))
    → Ends Q (r >>= f)
>>=-Ends P Q (accepts a) f h k = k a h
>>=-Ends P Q (rejects e) f h k = h
>>=-Ends P Q out_of_range f h k = tt
>>=-Ends P Q looping f h k = absurd h

Ends-mono {ℓ} :
    {A : Type ℓ} (P Q : A → Type 0) (r : Parsed A) → ((a : A) → P a → Q a) → Ends P r → Ends Q r
Ends-mono P Q (accepts a) k h = k a h
Ends-mono P Q (rejects e) k h = h
Ends-mono P Q out_of_range k h = tt
Ends-mono P Q looping k h = h

pub split_at-length : (c : ℕ) (xs a b : Bytes) → split_at c xs ≡ some (a, b) → length b < length xs
unfolding split_at
split_at-length c [] a b h = cc
split_at-length c (x ∷ xs) a b h = elim (Bool-cases (x == c)) [
  | inl here ↦ let q : xs ≡ b = ground arith in omega (arith, ap length q)
  | inr away ↦ elim (Option-cases (split_at c xs)) [
    | inl missing ↦ absurd (ground arith)
    | inr ((a', b'), found) ↦
        let q : b' ≡ b = ground arith in
        omega (arith, split_at-length c xs a' b' found, ap length q)
  ]
]

parse_value-Ends :
    (key : StompHeader) (plain : Bytes) (headers : Headers)
    → Ends (λ (r : Headers × Bytes). length r.1 ≤ length plain) (parse_value key plain headers)
unfolding parse_value
parse_value-Ends key [] headers = tt
parse_value-Ends key (c ∷ cs) headers = elim (Bool-cases (c == new_line)) [
  | inl empty' ↦ rw (empty', parse_value) (λ e. cc)
  | inr full ↦ elim (Option-cases (split_at new_line (c ∷ cs))) [
    | inl missing ↦ rw (full, missing, parse_value) (λ e. cc)
    | inr ((value, rest), found) ↦
        rw (full, found, parse_value)
          (omega (arith, split_at-length new_line (c ∷ cs) value rest found))
  ]
]

parse_header-Ends :
    (plain : Bytes) (headers : Headers)
    → Ends (λ (r : Headers × Bytes). length r.1 < length plain) (parse_header plain headers)
unfolding parse_header
parse_header-Ends plain headers = elim (Option-cases (split_at colon plain)) [
  | inl missing ↦ rw (missing, parse_header) (λ e. cc)
  | inr ((name, after), found) ↦ elim (Bool-cases (eq_header (to_header name) invalid_header)) [
    | inl unknown ↦ rw (found, unknown, parse_header) (λ e. cc)
    | inr known ↦
        rw (found, known, parse_header)
          (Ends-mono (λ (r : Headers × Bytes). length r.1 ≤ length after)
            (λ (r : Headers × Bytes). length r.1 < length plain)
            (parse_value (to_header name) after headers)
            (λ r l. omega (arith, l, split_at-length colon plain name after found))
            (parse_value-Ends (to_header name) after headers))
  ]
]

abbrev pub Anything {ℓ} : {A : Type ℓ} → A → Type 0
Anything a = Unit

parse_headers-Ends :
    (fuel : ℕ) (plain : Bytes) (headers : Headers)
    → length plain < fuel
    → Ends (Anything {A = Headers × Bytes}) (parse_headers fuel plain headers)
unfolding parse_headers
parse_headers-Ends zero plain headers less = absurd (omega arith)
parse_headers-Ends (suc fuel) plain headers less = elim (Bool-cases (at_blank plain)) [
  | inl blank ↦ rw (blank, parse_headers) tt
  | inr line ↦
      rw (line, parse_headers)
        (>>=-Ends (λ (r : Headers × Bytes). length r.1 < length plain)
          (Anything {A = Headers × Bytes}) (parse_header plain headers)
          (λ (headers', rest). parse_headers fuel rest headers') (parse_header-Ends plain headers)
          (λ (headers', rest) l. parse_headers-Ends fuel rest headers' (omega arith)))
]

parse_tail-Ends : (body plain : Bytes) → Ends (Anything {A = Bytes}) (parse_tail body plain)
unfolding parse_tail
parse_tail-Ends body [] = tt
parse_tail-Ends body (c ∷ cs) = elim (Bool-cases (c == new_line)) [
  | inl line ↦ rw (line, parse_tail) (parse_tail-Ends body cs)
  | inr junk ↦ rw (junk, parse_tail) (λ e. cc)
]

parse_sized_body-Ends :
    (n : ℕ) (plain : Bytes) → Ends (Anything {A = Bytes}) (parse_sized_body n plain)
unfolding parse_sized_body
parse_sized_body-Ends n plain = elim (Bool-cases (n == length plain)) [
  | inl all_of_it ↦ rw (all_of_it, parse_sized_body) (λ e. cc)
  | inr other ↦ elim (Bool-cases (ltb (length plain) n)) [
    | inl long ↦ rw (other, long, parse_sized_body) (λ e. cc)
    | inr fits ↦ elim (List-cases (drop n plain)) [
      | inl none_left ↦ rw (other, fits, none_left, parse_sized_body) tt
      | inr (c, cs, left) ↦ elim (Bool-cases (c == null)) [
        | inl ends' ↦
            rw (other, fits, left, ends', parse_sized_body) (parse_tail-Ends (take n plain) cs)
        | inr goes_on ↦ rw (other, fits, left, goes_on, parse_sized_body) (λ e. cc)
      ]
    ]
  ]
]

number-Ends :
    (n : Number) (plain : Bytes)
    → Ends (Anything {A = Bytes}) (elim n [
      | no_digits ↦ rejects parsing_invalid_content_length
      | too_large ↦ parse_sized_body 0 plain
      | number m ↦ parse_sized_body m plain
    ])
number-Ends no_digits plain = λ e. cc
number-Ends too_large plain = parse_sized_body-Ends 0 plain
number-Ends (number m) plain = parse_sized_body-Ends m plain

parse_body-Ends :
    (headers : Headers) (plain : Bytes) → Ends (Anything {A = Bytes}) (parse_body headers plain)
unfolding parse_body
parse_body-Ends headers plain = elim (Option-cases (lookup content_length_header headers)) [
  | inr (text, sized) ↦ rw (sized, parse_body) (number-Ends (from_chars text) plain)
  | inl free ↦ elim (Option-cases (split_at null plain)) [
    | inl missing ↦ rw (free, missing, parse_body) (λ e. cc)
    | inr ((body, rest), found) ↦ rw (free, found, parse_body) (parse_tail-Ends body rest)
  ]
]

parse_blank-Ends :
    (command : StompCommand) (headers : Headers) (plain : Bytes)
    → Ends (Anything {A = Fields}) (parse_blank command headers plain)
unfolding parse_blank
parse_blank-Ends command headers [] = λ e. cc
parse_blank-Ends command headers (c ∷ cs) = elim (Bool-cases (c == new_line)) [
  | inl line ↦
      rw (line, parse_blank)
        (>>=-Ends (Anything {A = Bytes}) (Anything {A = Fields}) (parse_body headers cs)
          (λ body. accepts (command, (headers, body))) (parse_body-Ends headers cs) (λ body _. tt))
  | inr other ↦ rw (other, parse_blank) (λ e. cc)
]

-- For any text the fuel of the parser is enough, and an error code that it returns is not that of
-- success.
pub parse_frame-Ends : (plain : Bytes) → Ends (Anything {A = Fields}) (parse_frame plain)
unfolding parse_frame
parse_frame-Ends plain = elim (Option-cases (split_at new_line plain)) [
  | inl missing ↦ rw (missing, parse_frame) (λ e. cc)
  | inr ((name, rest), found) ↦ elim (Bool-cases (eq_command (to_command name) invalid)) [
    | inl unknown ↦ rw (found, unknown, parse_frame) (λ e. cc)
    | inr known ↦
        rw (found, known, parse_frame)
          (>>=-Ends (Anything {A = Headers × Bytes}) (Anything {A = Fields})
            (parse_headers (suc (length rest)) rest [])
            (λ (headers, rest'). parse_blank (to_command name) headers rest')
            (parse_headers-Ends (suc (length rest)) rest [] (omega arith))
            (λ (headers, rest') _. parse_blank-Ends (to_command name) headers rest'))
  ]
]
