-- ===== src/Stomp/Commands.antt =====
-- `StompCommand` and its strings (include/stomp-frame.h, src/stomp-frame.cpp).
use metro_network_monitor.Base.{
  ℕ, ◌≡◌, refl, sym, ap, ◌∙◌, ◌↔◌, Bytes, bytes, eq_bytes, Bool, true, List, [], ◌∷◌, Option, none,
  some, ◌==◌, ==→eq, ==_refl, if◌then◌else◌, Eq, bytes_eq, lookup, value_at,
}

-- `StompCommand`
pub data StompCommand : Type 0 where
  invalid abort ack begin commit connect connected disconnect error message nack : StompCommand
  receipt send stomp subscribe unsubscribe : StompCommand

-- The value of the enumerator.
abbrev pub command_value : StompCommand → ℕ
command_value invalid = 0
command_value abort = 1
command_value ack = 2
command_value begin = 3
command_value commit = 4
command_value connect = 5
command_value connected = 6
command_value disconnect = 7
command_value error = 8
command_value message = 9
command_value nack = 10
command_value receipt = 11
command_value send = 12
command_value stomp = 13
command_value subscribe = 14
command_value unsubscribe = 15

command_of_value : ℕ → StompCommand
command_of_value n =
    value_at invalid
      (invalid ∷ abort ∷ ack ∷ begin ∷ commit ∷ connect ∷ connected ∷ disconnect ∷ error ∷ message
        ∷ nack ∷ receipt ∷ send ∷ stomp ∷ subscribe ∷ unsubscribe ∷ [])
      n

command_of_value-command_value : (x : StompCommand) → command_of_value (command_value x) ≡ x
unfolding command_of_value value_at
command_of_value-command_value invalid = refl
command_of_value-command_value abort = refl
command_of_value-command_value ack = refl
command_of_value-command_value begin = refl
command_of_value-command_value commit = refl
command_of_value-command_value connect = refl
command_of_value-command_value connected = refl
command_of_value-command_value disconnect = refl
command_of_value-command_value error = refl
command_of_value-command_value message = refl
command_of_value-command_value nack = refl
command_of_value-command_value receipt = refl
command_of_value-command_value send = refl
command_of_value-command_value stomp = refl
command_of_value-command_value subscribe = refl
command_of_value-command_value unsubscribe = refl

abbrev pub eq_command : StompCommand → StompCommand → Bool
eq_command x y = command_value x == command_value y

pub eq_command_iff : (x y : StompCommand) → (eq_command x y ≡ true) ↔ (x ≡ y)
eq_command_iff x y = (
  λ h.
      sym (command_of_value-command_value x)
      ∙ (ap command_of_value (==→eq (command_value x) (command_value y) h)
          ∙ command_of_value-command_value y),
  λ e. rw e (==_refl (command_value y)),
)

instance abbrev pub command_eq : Eq StompCommand
command_eq = record { beq = eq_command; beq_iff = eq_command_iff }

-- `gStompCommandStrings`
abbrev pub command_strings : List (StompCommand × Bytes)
command_strings =
    (abort, bytes "ABORT")
    ∷ (ack, bytes "ACK")
    ∷ (begin, bytes "BEGIN")
    ∷ (commit, bytes "COMMIT")
    ∷ (connect, bytes "CONNECT")
    ∷ (connected, bytes "CONNECTED")
    ∷ (disconnect, bytes "DISCONNECT")
    ∷ (error, bytes "ERROR")
    ∷ (message, bytes "MESSAGE")
    ∷ (nack, bytes "NACK")
    ∷ (receipt, bytes "RECEIPT")
    ∷ (send, bytes "SEND")
    ∷ (stomp, bytes "STOMP")
    ∷ (subscribe, bytes "SUBSCRIBE")
    ∷ (unsubscribe, bytes "UNSUBSCRIBE")
    ∷ []

-- The entry of the table for a string: the map's `right`.
unfoldable pub find_command : Bytes → List (StompCommand × Bytes) → Option StompCommand
find_command s [] = none
find_command s ((x, t) ∷ rest) = if eq_bytes t s then some x else find_command s rest

-- `ToString(StompCommand)`
unfoldable pub command_to_string : StompCommand → Bytes
unfolding lookup
command_to_string x = elim (lookup x command_strings) [
  | none ↦ bytes "StompCommand::kInvalid"
  | some s ↦ s
]

-- `ToCommand`
unfoldable pub to_command : Bytes → StompCommand
unfolding find_command
to_command s = elim (find_command s command_strings) [ none ↦ invalid | some x ↦ x ]

-- Reading the string of any value of `StompCommand` gives the value, also for a value without an entry in the
-- table.
pub to_command-command_to_string : (x : StompCommand) → to_command (command_to_string x) ≡ x
unfolding to_command command_to_string find_command lookup eq_bytes
to_command-command_to_string invalid = refl
to_command-command_to_string abort = refl
to_command-command_to_string ack = refl
to_command-command_to_string begin = refl
to_command-command_to_string commit = refl
to_command-command_to_string connect = refl
to_command-command_to_string connected = refl
to_command-command_to_string disconnect = refl
to_command-command_to_string error = refl
to_command-command_to_string message = refl
to_command-command_to_string nack = refl
to_command-command_to_string receipt = refl
to_command-command_to_string send = refl
to_command-command_to_string stomp = refl
to_command-command_to_string subscribe = refl
to_command-command_to_string unsubscribe = refl
