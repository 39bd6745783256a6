-- ===== src/Stomp/Frame.antt =====
-- `StompFrame`: its construction, `ValidateFrame`, and what it is asked for.
use metro_network_monitor.Base.{
  Bytes, bytes, List, [], ◌∷◌, ◌++◌, Bool, true, false, ◌&&◌, Option, none, some, ◌==◌,
  if◌then◌else◌, length, lookup,
}
use metro_network_monitor.Network.Types.{Outcome, returns, throws, undefined, unfinished}
use metro_network_monitor.Stomp.Commands.{
  StompCommand, invalid, abort, ack, begin, commit, connect, connected, disconnect, error, message,
  nack, receipt, send, stomp, subscribe, unsubscribe, command_to_string,
}
use metro_network_monitor.Stomp.Headers.{
  StompHeader, accept_version_header, content_length_header, destination_header, host_header,
  id_header, message_id_header, receipt_id_header, subscription_header, transaction_header,
  version_header, header_eq, header_to_string,
}
use metro_network_monitor.Stomp.Errors.{
  StompError, ok, validation_content_length_mismatch, validation_invalid_command,
  validation_invalid_content_length, validation_missing_header,
}
use metro_network_monitor.Stomp.Parse.{
  Parsed, accepts, rejects, out_of_range, looping, Headers, Fields, new_line, colon, null,
  no_digits, too_large, number, from_chars, parse_frame,
}

pub record Frame : Type 0 where
  pub plain : Bytes
  pub command : StompCommand
  pub headers : Headers
  pub body : Bytes

-- The default constructor.
abbrev pub empty_frame : Frame
empty_frame = record { plain = []; command = invalid; headers = []; body = [] }

abbrev pub is_some {ℓ} : {A : Type ℓ} → Option A → Bool
is_some none = false
is_some (some a) = true

-- `HasHeader`
abbrev pub has_header : Headers → StompHeader → Bool
has_header headers header = is_some (lookup header headers)

-- `GetHeaderValue`
unfoldable pub get_header_value : Headers → StompHeader → Bytes
get_header_value headers header = elim (lookup header headers) [ none ↦ [] | some value ↦ value ]

-- The `switch` of `ValidateFrame`: the headers that a command needs, none for the invalid command.
abbrev pub needed_headers : StompCommand → Option (List StompHeader)
needed_headers invalid = none
needed_headers connect = some (accept_version_header ∷ host_header ∷ [])
needed_headers stomp = some (accept_version_header ∷ host_header ∷ [])
needed_headers connected = some (version_header ∷ [])
needed_headers send = some (destination_header ∷ [])
needed_headers subscribe = some (destination_header ∷ id_header ∷ [])
needed_headers unsubscribe = some (id_header ∷ [])
needed_headers ack = some (id_header ∷ [])
needed_headers nack = some (id_header ∷ [])
needed_headers begin = some (transaction_header ∷ [])
needed_headers commit = some (transaction_header ∷ [])
needed_headers abort = some (transaction_header ∷ [])
needed_headers disconnect = some []
needed_headers message = some (destination_header ∷ message_id_header ∷ subscription_header ∷ [])
needed_headers receipt = some (receipt_id_header ∷ [])
needed_headers error = some []

-- `hasAllHeaders`
unfoldable pub has_all : Headers → List StompHeader → Bool
has_all headers [] = true
has_all headers (x ∷ xs) = has_header headers x && has_all headers xs

-- The part of `ValidateFrame` below the `switch`. When the number is too large, `StoI` reports no
-- failure and leaves `length` without a value, which is then read.
unfoldable pub validate_length : Headers → Bytes → Outcome StompError
validate_length headers body = elim (lookup content_length_header headers) [
  | none ↦ returns ok
  | some text ↦ elim (from_chars text) [
    | no_digits ↦ returns validation_invalid_content_length
    | too_large ↦ undefined
    | number n ↦ returns (if n == length body then ok else validation_content_length_mismatch)
  ]
]

unfoldable pub validate_frame : Frame → Outcome StompError
unfolding has_all validate_length
validate_frame f = elim (needed_headers f.command) [
  | none ↦ returns validation_invalid_command
  | some needed ↦ elim (has_all f.headers needed) [
    | false ↦ returns validation_missing_header
    | true ↦ validate_length f.headers f.body
  ]
]

-- The members are set when the parser is done, and the error code is that of `ValidateFrame`.
unfoldable pub validated : Frame → Outcome StompError → Outcome (StompError × Frame)
validated f (returns e) = returns (e, f)
validated f (throws m) = throws m
validated f undefined = undefined
validated f unfinished = unfinished

unfoldable pub parsed : Frame → Parsed Fields → Outcome (StompError × Frame)
unfolding validate_frame validated
parsed f (rejects e) = returns (e, f)
parsed f out_of_range = throws (bytes "basic_string_view::at")
parsed f looping = unfinished
parsed f (accepts (command, (headers, body))) =
    let f' = record f { command = command; headers = headers; body = body } in
    validated f' (validate_frame f')

-- `ParseAndValidateFrame` of a frame whose text is set.
unfoldable pub parse_and_validate_frame : Frame → Outcome (StompError × Frame)
unfolding parse_frame parsed
parse_and_validate_frame f = parsed f (parse_frame f.plain)

-- The constructors from a text.
unfoldable pub frame_of_text : Bytes → Outcome (StompError × Frame)
unfolding parse_and_validate_frame
frame_of_text plain = parse_and_validate_frame (record empty_frame { plain = plain })

-- The lines of the headers, in the order of the iteration.
unfoldable pub header_lines : Headers → Bytes
header_lines [] = []
header_lines ((header, value) ∷ headers) =
    header_to_string header ++ (colon ∷ (value ++ (new_line ∷ header_lines headers)))

unfoldable pub compose : StompCommand → Headers → Bytes → Bytes
unfolding header_lines
compose command headers body =
    command_to_string command
    ++ (new_line ∷ (header_lines headers ++ (new_line ∷ (body ++ (null ∷ [])))))

-- The constructor from the parts of a frame.
unfoldable pub frame_of_parts : StompCommand → Headers → Bytes → Outcome (StompError × Frame)
unfolding compose frame_of_text
frame_of_parts command headers body = frame_of_text (compose command headers body)

-- The copy constructor, and the copy assignment of another frame: the error code is dropped.
unfoldable pub copy_frame : Frame → Frame → Outcome Frame
unfolding parse_and_validate_frame
copy_frame f other = elim (parse_and_validate_frame (record f { plain = other.plain })) [
  | returns (_, f') ↦ returns f'
  | throws m ↦ throws m
  | undefined ↦ undefined
  | unfinished ↦ unfinished
]
