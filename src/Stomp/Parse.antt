-- ===== src/Stomp/Parse.antt =====
-- `StompFrame::ParseFrame` (src/stomp-frame.cpp). A position in the text is what follows it: a search
-- from a position gives the bytes before the one that is found, and those after it.
use metro_network_monitor.Base.{
  ℕ, zero, suc, ◌+◌, ◌-◌, ◌*◌, Bytes, List, [], ◌∷◌, Bool, true, false, ◌&&◌, Option, none, some,
  ◌==◌, ltb, leb, if◌then◌else◌, length, take, drop, lookup, insert,
}
use metro_network_monitor.Stomp.Commands.{StompCommand, invalid, eq_command, to_command}
use metro_network_monitor.Stomp.Headers.{
  StompHeader, invalid_header, content_length_header, eq_header, header_eq, to_header,
}
use metro_network_monitor.Stomp.Errors.{
  StompError, parsing_empty_header_value, parsing_content_length_exceeds_frame_length,
  parsing_invalid_content_length, parsing_junk_after_body, parsing_missing_blank_line_after_headers,
  parsing_missing_colon_in_header, parsing_missing_eol_after_command,
  parsing_missing_eol_after_header_value, parsing_missing_null_in_body,
  parsing_unrecognized_command, parsing_unrecognized_header,
}

-- How a part of the parser ends: it goes on with a value, it returns an error code, or it throws
-- `std::out_of_range` (from `at`). The last constructor is a loop of the model without fuel.
pub data Parsed {ℓ} (A : Type ℓ) : Type ℓ where
  accepts : A → Parsed A
  rejects : StompError → Parsed A
  out_of_range : Parsed A
  looping : Parsed A

infixl 5 ◌>>=◌
abbrev pub ◌>>=◌ {ℓ κ} : {A : Type ℓ} {B : Type κ} → Parsed A → (A → Parsed B) → Parsed B
accepts a >>= f = f a
rejects e >>= f = rejects e
out_of_range >>= f = out_of_range
looping >>= f = looping

-- `Headers`
abbrev pub Headers : Type 0
Headers = List (StompHeader × Bytes)

abbrev pub new_line : ℕ
new_line = 10

abbrev pub colon : ℕ
colon = 58

abbrev pub null : ℕ
null = 0

-- `find`, and `substr` up to what is found; `none` is `npos`.
unfoldable pub split_at : ℕ → Bytes → Option (Bytes × Bytes)
split_at c [] = none
split_at c (x ∷ xs) =
    let rest = split_at c xs in
    if x == c then some ([], xs) else elim rest [ none ↦ none | some (a, b) ↦ some (x ∷ a, b) ]

-- What `std::from_chars` finds: no digits, a number of type `size_t`, or digits of a number that does
-- not fit.
pub data Number : Type 0 where
  no_digits too_large : Number
  number : ℕ → Number

abbrev pub is_digit : ℕ → Bool
is_digit c = leb 48 c && leb c 57

-- The number that the digits in front stand for, after those read so far.
unfoldable pub digits_value : ℕ → Bytes → ℕ
digits_value n [] = n
digits_value n (c ∷ cs) =
    let more = digits_value (n * 10 + (c - 48)) cs in if is_digit c then more else n

abbrev pub size_max : ℕ
size_max = 18446744073709551616

unfoldable pub from_chars : Bytes → Number
unfolding digits_value
from_chars [] = no_digits
from_chars (c ∷ cs) =
    let n = digits_value 0 (c ∷ cs) in
    if is_digit c then (if ltb n size_max then number n else too_large) else no_digits

-- A header that is in the map already is skipped.
unfoldable pub keep_first : StompHeader → Bytes → Headers → Headers
keep_first key value headers = elim (lookup key headers) [
  | none ↦ insert key value headers
  | some _ ↦ headers
]

-- The value behind the colon, and the lines that follow.
unfoldable pub parse_value : StompHeader → Bytes → Headers → Parsed (Headers × Bytes)
unfolding split_at keep_first
parse_value key [] headers = out_of_range
parse_value key (c ∷ cs) headers = elim (c == new_line) [
  | true ↦ rejects parsing_empty_header_value
  | false ↦ elim (split_at new_line (c ∷ cs)) [
    | none ↦ rejects parsing_missing_eol_after_header_value
    | some (value, rest) ↦ accepts (keep_first key value headers, rest)
  ]
]

-- The body of the loop over the header lines.
unfoldable pub parse_header : Bytes → Headers → Parsed (Headers × Bytes)
unfolding split_at parse_value
parse_header plain headers = elim (split_at colon plain) [
  | none ↦ rejects parsing_missing_colon_in_header
  | some (name, after) ↦ elim (eq_header (to_header name) invalid_header) [
    | true ↦ rejects parsing_unrecognized_header
    | false ↦ parse_value (to_header name) after headers
  ]
]

-- The text is at its end or at an empty line.
abbrev pub at_blank : Bytes → Bool
at_blank [] = true
at_blank (c ∷ cs) = c == new_line

unfoldable pub parse_headers : ℕ → Bytes → Headers → Parsed (Headers × Bytes)
unfolding parse_header
parse_headers zero plain headers = looping
parse_headers (suc fuel) plain headers = elim (at_blank plain) [
  | true ↦ accepts (headers, plain)
  | false ↦ parse_header plain headers >>= λ (headers', rest). parse_headers fuel rest headers'
]

-- The loop over what follows the body.
unfoldable pub parse_tail : Bytes → Bytes → Parsed Bytes
parse_tail body [] = accepts body
parse_tail body (c ∷ cs) =
    let rest = parse_tail body cs in if c == new_line then rest else rejects parsing_junk_after_body

-- A body of a given length.
unfoldable pub parse_sized_body : ℕ → Bytes → Parsed Bytes
unfolding parse_tail
parse_sized_body n plain = elim (n == length plain) [
  | true ↦ rejects parsing_missing_null_in_body
  | false ↦ elim (ltb (length plain) n) [
    | true ↦ rejects parsing_content_length_exceeds_frame_length
    | false ↦ elim (drop n plain) [
      | [] ↦ out_of_range
      | c ∷ cs ↦ elim (c == null) [
        | true ↦ parse_tail (take n plain) cs
        | false ↦ rejects parsing_missing_null_in_body
      ]
    ]
  ]
]

-- `StoI` leaves `bodyLength` at 0 when the number is too large, and reports no failure.
unfoldable pub parse_body : Headers → Bytes → Parsed Bytes
unfolding split_at from_chars parse_sized_body
parse_body headers plain = elim (lookup content_length_header headers) [
  | some text ↦ elim (from_chars text) [
    | no_digits ↦ rejects parsing_invalid_content_length
    | too_large ↦ parse_sized_body 0 plain
    | number n ↦ parse_sized_body n plain
  ]
  | none ↦ elim (split_at null plain) [
    | none ↦ rejects parsing_missing_null_in_body
    | some (body, rest) ↦ parse_tail body rest
  ]
]

-- The command, the headers and the body.
abbrev pub Fields : Type 0
Fields = StompCommand × (Headers × Bytes)

unfoldable pub parse_blank : StompCommand → Headers → Bytes → Parsed Fields
unfolding parse_body
parse_blank command headers [] = rejects parsing_missing_blank_line_after_headers
parse_blank command headers (c ∷ cs) = elim (c == new_line) [
  | true ↦ parse_body headers cs >>= λ body. accepts (command, (headers, body))
  | false ↦ rejects parsing_missing_blank_line_after_headers
]

unfoldable pub parse_frame : Bytes → Parsed Fields
unfolding split_at parse_headers parse_blank
parse_frame plain = elim (split_at new_line plain) [
  | none ↦ rejects parsing_missing_eol_after_command
  | some (name, rest) ↦ elim (eq_command (to_command name) invalid) [
    | true ↦ rejects parsing_unrecognized_command
    | false ↦ parse_headers (suc (length rest)) rest [] >>= λ (headers, rest').
        parse_blank (to_command name) headers rest'
  ]
]
