-- ===== src/Stomp/Session/Frames.antt =====
-- A frame that is made is parsed by the other side.
use metro_network_monitor.Base.{◌≡◌, refl, sym, subst, ◌∙◌, some, nat_eq, lookup, Bytes, bytes_eq}
use metro_network_monitor.Network.Types.{returns}
use metro_network_monitor.Stomp.Commands.{StompCommand}
use metro_network_monitor.Stomp.Headers.{StompHeader, header_eq}
use metro_network_monitor.Stomp.Errors.{ok}
use metro_network_monitor.Stomp.Parse.{Headers}
use metro_network_monitor.Stomp.Frame.{Frame, get_header_value, frame_of_text, frame_of_parts}
use metro_network_monitor.Stomp.Compose.{HeaderOrder, ArePartsOf, frame_of_parts-IsMadeOf}

-- The frame that the parts make, which its text makes again.
pub record Made (o : HeaderOrder) (command : StompCommand) (headers : Headers) (body : Bytes)
    : Type 0 where
  pub frame : Frame
  pub parts : frame_of_parts command (o.order headers) body ≡ returns (ok, frame)
  pub again : frame_of_text frame.plain ≡ returns (ok, frame)
  pub same_command : frame.command ≡ command
  pub same_body : frame.body ≡ body
  pub value :
      (k : StompHeader) (v : Bytes)
      → lookup k headers ≡ some v
      → get_header_value frame.headers k ≡ v

pub made :
    (o : HeaderOrder) (command : StompCommand) (headers : Headers) (body : Bytes)
    → ArePartsOf command headers body
    → Made o command headers body
unfolding frame_of_parts get_header_value
made o command headers body p =
    let (f, e, m) = frame_of_parts-IsMadeOf o command headers body p in
    record {
      frame = f;
      parts = e;
      again = subst (λ v. frame_of_text v ≡ returns (ok, f)) (sym m.text) e;
      same_command = m.same_command;
      same_body = m.same_body;
      value = λ k v found. rw (m.same_headers k ∙ found, get_header_value) refl;
    }
