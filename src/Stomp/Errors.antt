-- ===== src/Stomp/Errors.antt =====
-- `StompError` and its strings (include/stomp-frame.h, src/stomp-frame.cpp).
use metro_network_monitor.Base.{
  ℕ, ◌≡◌, refl, sym, ap, ◌∙◌, ◌↔◌, Bytes, bytes, eq_bytes, Bool, true, List, [], ◌∷◌, Option, none,
  some, ◌==◌, ==→eq, ==_refl, if◌then◌else◌, Eq, bytes_eq, lookup, value_at,
}

-- `StompError`
pub data StompError : Type 0 where
  ok undefined_error parsing_empty_header_value : StompError
  parsing_content_length_exceeds_frame_length parsing_invalid_content_length : StompError
  parsing_junk_after_body parsing_missing_blank_line_after_headers : StompError
  parsing_missing_colon_in_header parsing_missing_eol_after_command : StompError
  parsing_missing_eol_after_header_value parsing_missing_null_in_body : StompError
  parsing_unrecognized_command parsing_unrecognized_header : StompError
  validation_content_length_mismatch validation_invalid_command : StompError
  validation_invalid_content_length validation_missing_header : StompError

-- The value of the enumerator.
abbrev pub error_value : StompError → ℕ
error_value ok = 0
error_value undefined_error = 1
error_value parsing_empty_header_value = 2
error_value parsing_content_length_exceeds_frame_length = 3
error_value parsing_invalid_content_length = 4
error_value parsing_junk_after_body = 5
error_value parsing_missing_blank_line_after_headers = 6
error_value parsing_missing_colon_in_header = 7
error_value parsing_missing_eol_after_command = 8
error_value parsing_missing_eol_after_header_value = 9
error_value parsing_missing_null_in_body = 10
error_value parsing_unrecognized_command = 11
error_value parsing_unrecognized_header = 12
error_value validation_content_length_mismatch = 13
error_value validation_invalid_command = 14
error_value validation_invalid_content_length = 15
error_value validation_missing_header = 16

error_of_value : ℕ → StompError
error_of_value n =
    value_at ok
      (ok ∷ undefined_error ∷ parsing_empty_header_value
        ∷ parsing_content_length_exceeds_frame_length ∷ parsing_invalid_content_length
        ∷ parsing_junk_after_body ∷ parsing_missing_blank_line_after_headers
        ∷ parsing_missing_colon_in_header ∷ parsing_missing_eol_after_command
        ∷ parsing_missing_eol_after_header_value ∷ parsing_missing_null_in_body
        ∷ parsing_unrecognized_command ∷ parsing_unrecognized_header
        ∷ validation_content_length_mismatch ∷ validation_invalid_command
        ∷ validation_invalid_content_length ∷ validation_missing_header ∷ [])
      n

error_of_value-error_value : (x : StompError) → error_of_value (error_value x) ≡ x
unfolding error_of_value value_at
error_of_value-error_value ok = refl
error_of_value-error_value undefined_error = refl
error_of_value-error_value parsing_empty_header_value = refl
error_of_value-error_value parsing_content_length_exceeds_frame_length = refl
error_of_value-error_value parsing_invalid_content_length = refl
error_of_value-error_value parsing_junk_after_body = refl
error_of_value-error_value parsing_missing_blank_line_after_headers = refl
error_of_value-error_value parsing_missing_colon_in_header = refl
error_of_value-error_value parsing_missing_eol_after_command = refl
error_of_value-error_value parsing_missing_eol_after_header_value = refl
error_of_value-error_value parsing_missing_null_in_body = refl
error_of_value-error_value parsing_unrecognized_command = refl
error_of_value-error_value parsing_unrecognized_header = refl
error_of_value-error_value validation_content_length_mismatch = refl
error_of_value-error_value validation_invalid_command = refl
error_of_value-error_value validation_invalid_content_length = refl
error_of_value-error_value validation_missing_header = refl

abbrev pub eq_error : StompError → StompError → Bool
eq_error x y = error_value x == error_value y

pub eq_error_iff : (x y : StompError) → (eq_error x y ≡ true) ↔ (x ≡ y)
eq_error_iff x y = (
  λ h.
      sym (error_of_value-error_value x)
      ∙ (ap error_of_value (==→eq (error_value x) (error_value y) h)
          ∙ error_of_value-error_value y),
  λ e. rw e (==_refl (error_value y)),
)

instance abbrev pub error_eq : Eq StompError
error_eq = record { beq = eq_error; beq_iff = eq_error_iff }

-- `gStompErrorStrings`
abbrev pub error_strings : List (StompError × Bytes)
error_strings =
    (ok, bytes "Ok")
    ∷ (undefined_error, bytes "UndefinedError")
    ∷ (parsing_empty_header_value, bytes "ParsingEmptyHeaderValue")
    ∷ (parsing_content_length_exceeds_frame_length, bytes "ParsingContentLengthExceedsFrameLength")
    ∷ (parsing_invalid_content_length, bytes "ParsingInvalidContentLength")
    ∷ (parsing_junk_after_body, bytes "ParsingJunkAfterBody")
    ∷ (parsing_missing_blank_line_after_headers, bytes "ParsingMissingBlankLineAfterHeaders   ")
    ∷ (parsing_missing_colon_in_header, bytes "ParsingMissingColonInHeader")
    ∷ (parsing_missing_eol_after_command, bytes "ParsingMissingEolAfterCommand")
    ∷ (parsing_missing_eol_after_header_value, bytes "ParsingMissingEolAfterHeaderValue")
    ∷ (parsing_missing_null_in_body, bytes "ParsingMissingNullInBody")
    ∷ (parsing_unrecognized_command, bytes "ParsingUnrecognizedCommand")
    ∷ (parsing_unrecognized_header, bytes "ParsingUnrecognizedHeader")
    ∷ (validation_content_length_mismatch, bytes "ValidationContentLengthMismatch")
    ∷ (validation_invalid_command, bytes "ValidationInvalidCommand")
    ∷ (validation_invalid_content_length, bytes "ValidationInvalidContentLength")
    ∷ (validation_missing_header, bytes "ValidationMissingHeader")
    ∷ []

-- The entry of the table for a string: the map's `right`.
unfoldable pub find_error : Bytes → List (StompError × Bytes) → Option StompError
find_error s [] = none
find_error s ((x, t) ∷ rest) = if eq_bytes t s then some x else find_error s rest

-- `ToString(StompError)`
unfoldable pub error_to_string : StompError → Bytes
unfolding lookup
error_to_string x = elim (lookup x error_strings) [ none ↦ bytes "UndefinedError" | some s ↦ s ]

-- `StringToError`
unfoldable pub to_error : Bytes → StompError
unfolding find_error
to_error s = elim (find_error s error_strings) [ none ↦ undefined_error | some x ↦ x ]

-- Reading the string of any value of `StompError` gives the value.
pub to_error-error_to_string : (x : StompError) → to_error (error_to_string x) ≡ x
unfolding to_error error_to_string find_error lookup eq_bytes
to_error-error_to_string ok = refl
to_error-error_to_string undefined_error = refl
to_error-error_to_string parsing_empty_header_value = refl
to_error-error_to_string parsing_content_length_exceeds_frame_length = refl
to_error-error_to_string parsing_invalid_content_length = refl
to_error-error_to_string parsing_junk_after_body = refl
to_error-error_to_string parsing_missing_blank_line_after_headers = refl
to_error-error_to_string parsing_missing_colon_in_header = refl
to_error-error_to_string parsing_missing_eol_after_command = refl
to_error-error_to_string parsing_missing_eol_after_header_value = refl
to_error-error_to_string parsing_missing_null_in_body = refl
to_error-error_to_string parsing_unrecognized_command = refl
to_error-error_to_string parsing_unrecognized_header = refl
to_error-error_to_string validation_content_length_mismatch = refl
to_error-error_to_string validation_invalid_command = refl
to_error-error_to_string validation_invalid_content_length = refl
to_error-error_to_string validation_missing_header = refl
