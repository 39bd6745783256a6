-- ===== src/Stomp/Session/Parts.antt =====
-- The parts of the frames that the client and the server make are parts of a frame.
use metro_network_monitor.Base.{
  ℕ, ◌<◌, ◌≡◌, refl, ◌≢◌, inl, inr, true, false, [], ◌∷◌, length, nat_eq, lookup, Bytes, bytes_eq,
}
use metro_network_monitor.Stomp.Commands.{connected, error, send, stomp, subscribe}
use metro_network_monitor.Stomp.Headers.{StompHeader, invalid_header, eq_header, header_eq}
use metro_network_monitor.Stomp.Parse.{Headers, new_line, size_max}
use metro_network_monitor.Stomp.Frame.{has_all}
use metro_network_monitor.Stomp.RoundTrip.{AreProper, lacks}
use metro_network_monitor.Stomp.Decimal.{to_string, to_string-lacks, to_string-ne}
use metro_network_monitor.Stomp.Compose.{Fits, ArePartsOf}
use metro_network_monitor.Stomp.ServerErrors.{unsupported_frame, server_error_to_string}
use metro_network_monitor.Stomp.Server.Handlers.{connected_headers, error_headers}
use metro_network_monitor.Stomp.Server.Requests.{send_headers}
use metro_network_monitor.Stomp.Client.{Client}
use metro_network_monitor.Stomp.Client.Handlers.{stomp_headers}
use metro_network_monitor.Stomp.Client.Requests.{subscribe_headers}

-- A header can have the value: it is not empty and stands on one line.
pub record IsValue (v : Bytes) : Type 0 where
  pub full : v ≢ []
  pub line : lacks new_line v ≡ true

one_header :
    (k : StompHeader) (v : Bytes) (headers : Headers)
    → eq_header k invalid_header ≡ false
    → IsValue v
    → AreProper headers
    → AreProper ((k, v) ∷ headers)
unfolding AreProper
one_header k v headers known p rest = (known, (p.full, (p.line, rest)))

no_headers : AreProper []
unfolding AreProper
no_headers = tt

pub stomp-ArePartsOf :
    (c : Client)
    → IsValue c.url
    → IsValue c.username
    → IsValue c.password
    → ArePartsOf stomp (stomp_headers c) []
unfolding lookup has_all Fits lacks
stomp-ArePartsOf c url username password = record {
  known = refl;
  proper =
      one_header _ _ _ refl (record { full = λ e. cc; line = refl })
        (one_header _ _ _ refl url
          (one_header _ _ _ refl username (one_header _ _ _ refl password no_headers)));
  unique = (refl, (refl, (refl, (refl, tt))));
  needed = _;
  needs = refl;
  has = refl;
  fits = inl (refl, refl);
}

text-IsValue : (v : Bytes) → v ≢ [] → lacks new_line v ≡ true → IsValue v
text-IsValue v full line = record { full = full; line = line }

pub connected-ArePartsOf :
    (id : Bytes) → IsValue id → ArePartsOf connected (connected_headers id) []
unfolding lookup has_all Fits lacks
connected-ArePartsOf id p = record {
  known = refl;
  proper =
      one_header _ _ _ refl (text-IsValue _ (λ e. cc) refl) (one_header _ _ _ refl p no_headers);
  unique = (refl, (refl, tt));
  needed = _;
  needs = refl;
  has = refl;
  fits = inl (refl, refl);
}

pub error-ArePartsOf : ArePartsOf error error_headers (server_error_to_string unsupported_frame)
unfolding lookup has_all Fits lacks server_error_to_string
error-ArePartsOf = record {
  known = refl;
  proper =
      one_header _ _ _ refl (text-IsValue _ (λ e. cc) refl)
        (one_header _ _ _ refl (text-IsValue _ (λ e. cc) refl) no_headers);
  unique = (refl, (refl, tt));
  needed = _;
  needs = refl;
  has = refl;
  fits = inl (refl, refl);
}

sized-IsValue : (n : ℕ) → IsValue (to_string n)
sized-IsValue n = text-IsValue (to_string n) (to_string-ne n) (to_string-lacks new_line n refl)

pub send-ArePartsOf :
    (request_id destination content : Bytes)
    → IsValue request_id
    → IsValue destination
    → length content < size_max
    → ArePartsOf send (send_headers request_id destination content) content
unfolding lookup has_all Fits lacks
send-ArePartsOf request_id destination content id d small = record {
  known = refl;
  proper = one_header _ _ _ refl id (
      one_header _ _ _ refl d (
        one_header _ _ _ refl (text-IsValue _ (λ e. cc) refl)
          (one_header _ _ _ refl (sized-IsValue (length content)) no_headers)));
  unique = (refl, (refl, (refl, (refl, tt))));
  needed = _;
  needs = refl;
  has = refl;
  fits = inr (refl, small);
}

pub subscribe-ArePartsOf :
    (id destination : Bytes)
    → IsValue id
    → IsValue destination
    → ArePartsOf subscribe (subscribe_headers id destination) []
unfolding lookup has_all Fits lacks
subscribe-ArePartsOf id destination p d = record {
  known = refl;
  proper = one_header _ _ _ refl p (
      one_header _ _ _ refl d (
        one_header _ _ _ refl (text-IsValue _ (λ e. cc) refl)
          (one_header _ _ _ refl p no_headers)));
  unique = (refl, (refl, (refl, (refl, tt))));
  needed = _;
  needs = refl;
  has = refl;
  fits = inl (refl, refl);
}
