-- ===== src/Stomp/Headers.antt =====
-- `StompHeader` and its strings (include/stomp-frame.h, src/stomp-frame.cpp).
use metro_network_monitor.Base.{
  ℕ, ◌≡◌, refl, sym, ap, ◌∙◌, ◌↔◌, Bytes, bytes, eq_bytes, Bool, true, List, [], ◌∷◌, Option, none,
  some, ◌==◌, ==→eq, ==_refl, if◌then◌else◌, Eq, bytes_eq, lookup, value_at,
}

-- `StompHeader`; the names of its enumerators are marked, since some are those of commands.
pub data StompHeader : Type 0 where
  invalid_header accept_version_header ack_header content_length_header : StompHeader
  content_type_header destination_header heart_beat_header host_header id_header : StompHeader
  login_header message_header message_id_header passcode_header receipt_header : StompHeader
  receipt_id_header session_header subscription_header transaction_header : StompHeader
  server_header version_header : StompHeader

-- The value of the enumerator.
abbrev pub header_value : StompHeader → ℕ
header_value invalid_header = 0
header_value accept_version_header = 1
header_value ack_header = 2
header_value content_length_header = 3
header_value content_type_header = 4
header_value destination_header = 5
header_value heart_beat_header = 6
header_value host_header = 7
header_value id_header = 8
header_value login_header = 9
header_value message_header = 10
header_value message_id_header = 11
header_value passcode_header = 12
header_value receipt_header = 13
header_value receipt_id_header = 14
header_value session_header = 15
header_value subscription_header = 16
header_value transaction_header = 17
header_value server_header = 18
header_value version_header = 19

header_of_value : ℕ → StompHeader
header_of_value n =
    value_at invalid_header
      (invalid_header ∷ accept_version_header ∷ ack_header ∷ content_length_header
        ∷ content_type_header ∷ destination_header ∷ heart_beat_header ∷ host_header ∷ id_header
        ∷ login_header ∷ message_header ∷ message_id_header ∷ passcode_header ∷ receipt_header
        ∷ receipt_id_header ∷ session_header ∷ subscription_header ∷ transaction_header
        ∷ server_header ∷ version_header ∷ [])
      n

header_of_value-header_value : (x : StompHeader) → header_of_value (header_value x) ≡ x
unfolding header_of_value value_at
header_of_value-header_value invalid_header = refl
header_of_value-header_value accept_version_header = refl
header_of_value-header_value ack_header = refl
header_of_value-header_value content_length_header = refl
header_of_value-header_value content_type_header = refl
header_of_value-header_value destination_header = refl
header_of_value-header_value heart_beat_header = refl
header_of_value-header_value host_header = refl
header_of_value-header_value id_header = refl
header_of_value-header_value login_header = refl
header_of_value-header_value message_header = refl
header_of_value-header_value message_id_header = refl
header_of_value-header_value passcode_header = refl
header_of_value-header_value receipt_header = refl
header_of_value-header_value receipt_id_header = refl
header_of_value-header_value session_header = refl
header_of_value-header_value subscription_header = refl
header_of_value-header_value transaction_header = refl
header_of_value-header_value server_header = refl
header_of_value-header_value version_header = refl

abbrev pub eq_header : StompHeader → StompHeader → Bool
eq_header x y = header_value x == header_value y

pub eq_header_iff : (x y : StompHeader) → (eq_header x y ≡ true) ↔ (x ≡ y)
eq_header_iff x y = (
  λ h.
      sym (header_of_value-header_value x)
      ∙ (ap header_of_value (==→eq (header_value x) (header_value y) h)
          ∙ header_of_value-header_value y),
  λ e. rw e (==_refl (header_value y)),
)

instance abbrev pub header_eq : Eq StompHeader
header_eq = record { beq = eq_header; beq_iff = eq_header_iff }

-- `gStompHeaderStrings`
abbrev pub header_strings : List (StompHeader × Bytes)
header_strings =
    (accept_version_header, bytes "accept-version")
    ∷ (ack_header, bytes "ack")
    ∷ (content_length_header, bytes "content-length")
    ∷ (content_type_header, bytes "content-type")
    ∷ (destination_header, bytes "destination")
    ∷ (heart_beat_header, bytes "heart-beat")
    ∷ (host_header, bytes "host")
    ∷ (id_header, bytes "id")
    ∷ (login_header, bytes "login")
    ∷ (message_header, bytes "message")
    ∷ (message_id_header, bytes "message-id")
    ∷ (passcode_header, bytes "passcode")
    ∷ (receipt_header, bytes "receipt")
    ∷ (receipt_id_header, bytes "receipt-id")
    ∷ (session_header, bytes "session")
    ∷ (subscription_header, bytes "subscription")
    ∷ (transaction_header, bytes "transaction")
    ∷ (server_header, bytes "server")
    ∷ (version_header, bytes "version")
    ∷ []

-- The entry of the table for a string: the map's `right`.
unfoldable pub find_header : Bytes → List (StompHeader × Bytes) → Option StompHeader
find_header s [] = none
find_header s ((x, t) ∷ rest) = if eq_bytes t s then some x else find_header s rest

-- `ToString(StompHeader)`
unfoldable pub header_to_string : StompHeader → Bytes
unfolding lookup
header_to_string x = elim (lookup x header_strings) [
  | none ↦ bytes "StompHeader::kInvalid"
  | some s ↦ s
]

-- `ToHeader`
unfoldable pub to_header : Bytes → StompHeader
unfolding find_header
to_header s = elim (find_header s header_strings) [ none ↦ invalid_header | some x ↦ x ]

-- Reading the string of any value of `StompHeader` gives the value, also for a value without an entry in the
-- table.
pub to_header-header_to_string : (x : StompHeader) → to_header (header_to_string x) ≡ x
unfolding to_header header_to_string find_header lookup eq_bytes
to_header-header_to_string invalid_header = refl
to_header-header_to_string accept_version_header = refl
to_header-header_to_string ack_header = refl
to_header-header_to_string content_length_header = refl
to_header-header_to_string content_type_header = refl
to_header-header_to_string destination_header = refl
to_header-header_to_string heart_beat_header = refl
to_header-header_to_string host_header = refl
to_header-header_to_string id_header = refl
to_header-header_to_string login_header = refl
to_header-header_to_string message_header = refl
to_header-header_to_string message_id_header = refl
to_header-header_to_string passcode_header = refl
to_header-header_to_string receipt_header = refl
to_header-header_to_string receipt_id_header = refl
to_header-header_to_string session_header = refl
to_header-header_to_string subscription_header = refl
to_header-header_to_string transaction_header = refl
to_header-header_to_string server_header = refl
to_header-header_to_string version_header = refl
