-- ===== src/Examples/Frames.antt =====
-- A frame, and the theorems at it.
use metro_network_monitor.Base.{Bytes, bytes, ◌≡◌, refl, lookup, [], ◌∷◌, insert, eq_bytes}
use metro_network_monitor.Network.Types.{returns}
use metro_network_monitor.Stomp.Commands.{
  send, to_command, command_to_string, to_command-command_to_string,
}
use metro_network_monitor.Stomp.Headers.{
  StompHeader, destination_header, content_length_header, to_header, header_to_string,
  to_header-header_to_string,
}
use metro_network_monitor.Stomp.Errors.{
  ok, parsing_junk_after_body, to_error, error_to_string, to_error-error_to_string,
}
use metro_network_monitor.Stomp.Parse.{Headers, Fields, parse_frame}
use metro_network_monitor.Stomp.Ends.{Ends, Anything, parse_frame-Ends}
use metro_network_monitor.Stomp.Frame.{Frame, frame_of_text, compose, parse_and_validate_frame}
use metro_network_monitor.Stomp.Parse.{accepts}
use metro_network_monitor.Stomp.Headers.{header_eq}
use metro_network_monitor.Stomp.RoundTrip.{AreProper, lacks, parse_frame-compose}
use metro_network_monitor.Stomp.Valid.{IsValid, frame_of_text-IsValid}

abbrev parts : Headers
parts = (destination_header, bytes "/quiet") ∷ (content_length_header, bytes "2") ∷ []

abbrev text : Bytes
text = compose send parts (bytes "hi")

abbrev frame : Frame
frame = record { plain = text; command = send; headers = parts; body = bytes "hi" }

text-accepted : frame_of_text text ≡ returns (ok, frame)
unfolding frame_of_text parse_and_validate_frame parse_frame compose command_to_string to_command
    eq_bytes header_to_string to_header insert
text-accepted = refl

frame_of_text-IsValid_example : IsValid text frame
frame_of_text-IsValid_example = frame_of_text-IsValid text frame text-accepted

parse_frame-Ends_example : Ends (Anything {A = Fields}) (parse_frame text)
parse_frame-Ends_example = parse_frame-Ends text

to_command-command_to_string_example : to_command (command_to_string send) ≡ send
to_command-command_to_string_example = to_command-command_to_string send

to_header-header_to_string_example :
    to_header (header_to_string destination_header) ≡ destination_header
to_header-header_to_string_example = to_header-header_to_string destination_header

to_error-error_to_string_example :
    to_error (error_to_string parsing_junk_after_body) ≡ parsing_junk_after_body
to_error-error_to_string_example = to_error-error_to_string parsing_junk_after_body

abbrev free_parts : Headers
free_parts = (destination_header, bytes "/quiet") ∷ (destination_header, bytes "/loud") ∷ []

free_parts-AreProper : AreProper free_parts
unfolding AreProper lacks
free_parts-AreProper = (refl, (λ e. cc, (refl, (refl, (λ e. cc, (refl, tt))))))

parse_frame-compose_example :
    (headers : Headers) × (parse_frame (compose send free_parts (bytes "hi"))
      ≡ accepts (send, (headers, bytes "hi")))
    × ((k : StompHeader) → lookup k headers ≡ lookup k free_parts)
unfolding lookup lacks
parse_frame-compose_example =
    parse_frame-compose send free_parts (bytes "hi") refl free_parts-AreProper refl refl
