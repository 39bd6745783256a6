-- ===== src/Stomp/RoundTrip.antt =====
-- `ParseFrame` against the text that a frame is composed of.
use metro_network_monitor.Base.{
  ℕ, zero, suc, ◌<◌, ◌≡◌, refl, sym, ap, subst, ◌∙◌, ◌≢◌, inl, inr, Bool, true, false, not, ◌&&◌,
  Option, none, some, [], ◌∷◌, ◌++◌, arith, ◌==◌, if◌then◌else◌, ==_refl, Option-cases, length,
  nat_eq, lookup, insert, lookup-insert, Bytes, bytes_eq,
}
use metro_network_monitor.Stomp.Commands.{
  StompCommand, invalid, eq_command, to_command, command_to_string, to_command-command_to_string,
  invalid, abort, ack, begin, commit, connect, connected, disconnect, error, message, nack, receipt,
  send, stomp, subscribe, unsubscribe,
}
use metro_network_monitor.Stomp.Headers.{
  StompHeader, invalid_header, content_length_header, eq_header, header_eq, to_header,
  header_to_string, to_header-header_to_string, accept_version_header, ack_header,
  content_type_header, destination_header, heart_beat_header, host_header, id_header, login_header,
  message_header, message_id_header, passcode_header, receipt_header, receipt_id_header,
  session_header, subscription_header, transaction_header, server_header, version_header,
}
use metro_network_monitor.Stomp.Parse.{
  accepts, Headers, new_line, colon, null, split_at, parse_value, parse_header, at_blank,
  parse_headers, parse_tail, parse_body, parse_blank, parse_frame, keep_first,
}
use metro_network_monitor.Stomp.Headers.{eq_header_iff}
use metro_network_monitor.Stomp.Frame.{header_lines, compose}
use metro_network_monitor.Stomp.Ends.{split_at-length}

-- The byte is not in the text.
unfoldable pub lacks : ℕ → Bytes → Bool
lacks c [] = true
lacks c (x ∷ xs) = not (x == c) && lacks c xs

split_at-lacks :
    (c : ℕ) (xs ys : Bytes) → lacks c xs ≡ true → split_at c (xs ++ (c ∷ ys)) ≡ some (xs, ys)
unfolding split_at lacks
split_at-lacks c [] ys h = rw (==_refl c, split_at) refl
split_at-lacks c (x ∷ xs) ys h =
    let other : (x == c) ≡ false = ground arith in
    let more : lacks c xs ≡ true = ground arith in
    rw (other, split_at-lacks c xs ys more, split_at) refl

append-cons : (a : Bytes) (c : ℕ) (b t : Bytes) → (a ++ (c ∷ b)) ++ t ≡ a ++ (c ∷ (b ++ t))
append-cons [] c b t = refl
append-cons (x ∷ a) c b t = ap (λ v. x ∷ v) (append-cons a c b t)

-- The headers can stand in a frame: no value is empty or has a new line in it.
unfoldable pub AreProper : Headers → Type 0
AreProper [] = Unit
AreProper ((key, value) ∷ headers) =
    (eq_header key invalid_header ≡ false)
    × ((value ≢ []) × ((lacks new_line value ≡ true) × AreProper headers))

-- What the parser makes of the headers.
gathered : Headers → Headers → Headers
gathered acc [] = acc
gathered acc ((key, value) ∷ headers) = gathered (keep_first key value acc) headers

or_else : Option Bytes → Option Bytes → Option Bytes
or_else none o = o
or_else (some v) o = some v

or_else-none : (o : Option Bytes) → or_else o none ≡ o
unfolding or_else
or_else-none none = refl
or_else-none (some v) = refl

keep_first-new :
    (key : StompHeader) (value : Bytes) (acc : Headers)
    → lookup key acc ≡ none
    → keep_first key value acc ≡ insert key value acc
unfolding keep_first
keep_first-new key value acc h = rw (h, keep_first) refl

keep_first-old :
    (key : StompHeader) (value v : Bytes) (acc : Headers)
    → lookup key acc ≡ some v
    → keep_first key value acc ≡ acc
unfolding keep_first
keep_first-old key value v acc h = rw (h, keep_first) refl

or_else_new :
    (b : Bool) (l o : Option Bytes) (value : Bytes)
    → (b ≡ true → l ≡ none)
    → or_else (if b then some value else l) o ≡ or_else l (if b then some value else o)
unfolding or_else
or_else_new true l o value h = ap (λ v. or_else v (some value)) (sym (h refl))
or_else_new false l o value h = refl

or_else_old :
    (b : Bool) (l o : Option Bytes) (value v : Bytes)
    → (b ≡ true → l ≡ some v)
    → or_else l o ≡ or_else l (if b then some value else o)
unfolding or_else
or_else_old true l o value v h =
    ap (λ u. or_else u o) (h refl) ∙ ap (λ u. or_else u (some value)) (sym (h refl))
or_else_old false l o value v h = refl

lookup-keep_first :
    (key k : StompHeader) (value : Bytes) (acc : Headers) (o : Option Bytes)
    → or_else (lookup k (keep_first key value acc)) o
      ≡ or_else (lookup k acc) (if eq_header key k then some value else o)
lookup-keep_first key k value acc o =
    let same : eq_header key k ≡ true → key ≡ k = λ e. (eq_header_iff key k).0 e in
    elim (Option-cases (lookup key acc)) [
      | inl new ↦
          ap (λ m. or_else (lookup k m) o) (keep_first-new key value acc new)
          ∙ (ap (λ l. or_else l o) (lookup-insert key k value acc)
              ∙ or_else_new (eq_header key k) (lookup k acc) o value
                  (λ e. subst (λ x. lookup x acc ≡ none) (same e) new))
      | inr (v, old) ↦
          ap (λ m. or_else (lookup k m) o) (keep_first-old key value v acc old)
          ∙ or_else_old (eq_header key k) (lookup k acc) o value v
              (λ e. subst (λ x. lookup x acc ≡ some v) (same e) old)
    ]

lookup-gathered :
    (acc headers : Headers) (k : StompHeader)
    → lookup k (gathered acc headers) ≡ or_else (lookup k acc) (lookup k headers)
unfolding gathered lookup
lookup-gathered acc [] k = sym (or_else-none (lookup k acc))
lookup-gathered acc ((key, value) ∷ headers) k =
    lookup-gathered (keep_first key value acc) headers k
    ∙ lookup-keep_first key k value acc (lookup k headers)

command_to_string-lacks : (x : StompCommand) → lacks new_line (command_to_string x) ≡ true
unfolding lacks command_to_string lookup
command_to_string-lacks invalid = refl
command_to_string-lacks abort = refl
command_to_string-lacks ack = refl
command_to_string-lacks begin = refl
command_to_string-lacks commit = refl
command_to_string-lacks connect = refl
command_to_string-lacks connected = refl
command_to_string-lacks disconnect = refl
command_to_string-lacks error = refl
command_to_string-lacks message = refl
command_to_string-lacks nack = refl
command_to_string-lacks receipt = refl
command_to_string-lacks send = refl
command_to_string-lacks stomp = refl
command_to_string-lacks subscribe = refl
command_to_string-lacks unsubscribe = refl

header_to_string-lacks :
    (x : StompHeader) → eq_header x invalid_header ≡ false → lacks colon (header_to_string x) ≡ true
unfolding lacks header_to_string lookup
header_to_string-lacks invalid_header h = cc
header_to_string-lacks accept_version_header h = refl
header_to_string-lacks ack_header h = refl
header_to_string-lacks content_length_header h = refl
header_to_string-lacks content_type_header h = refl
header_to_string-lacks destination_header h = refl
header_to_string-lacks heart_beat_header h = refl
header_to_string-lacks host_header h = refl
header_to_string-lacks id_header h = refl
header_to_string-lacks login_header h = refl
header_to_string-lacks message_header h = refl
header_to_string-lacks message_id_header h = refl
header_to_string-lacks passcode_header h = refl
header_to_string-lacks receipt_header h = refl
header_to_string-lacks receipt_id_header h = refl
header_to_string-lacks session_header h = refl
header_to_string-lacks subscription_header h = refl
header_to_string-lacks transaction_header h = refl
header_to_string-lacks server_header h = refl
header_to_string-lacks version_header h = refl

at_blank-header_to_string :
    (x : StompHeader) (ys : Bytes) → at_blank (header_to_string x ++ ys) ≡ false
unfolding header_to_string lookup
at_blank-header_to_string invalid_header ys = refl
at_blank-header_to_string accept_version_header ys = refl
at_blank-header_to_string ack_header ys = refl
at_blank-header_to_string content_length_header ys = refl
at_blank-header_to_string content_type_header ys = refl
at_blank-header_to_string destination_header ys = refl
at_blank-header_to_string heart_beat_header ys = refl
at_blank-header_to_string host_header ys = refl
at_blank-header_to_string id_header ys = refl
at_blank-header_to_string login_header ys = refl
at_blank-header_to_string message_header ys = refl
at_blank-header_to_string message_id_header ys = refl
at_blank-header_to_string passcode_header ys = refl
at_blank-header_to_string receipt_header ys = refl
at_blank-header_to_string receipt_id_header ys = refl
at_blank-header_to_string session_header ys = refl
at_blank-header_to_string subscription_header ys = refl
at_blank-header_to_string transaction_header ys = refl
at_blank-header_to_string server_header ys = refl
at_blank-header_to_string version_header ys = refl

parse_value-line :
    (key : StompHeader) (value rest : Bytes) (acc : Headers)
    → value ≢ []
    → lacks new_line value ≡ true
    → parse_value key (value ++ (new_line ∷ rest)) acc ≡ accepts (keep_first key value acc, rest)
unfolding parse_value lacks
parse_value-line key [] rest acc full clean = absurd (full refl)
parse_value-line key (c ∷ cs) rest acc full clean =
    let other : (c == new_line) ≡ false = ground arith in
    rw (other, split_at-lacks new_line (c ∷ cs) rest clean, parse_value) refl

parse_header-line :
    (key : StompHeader) (value rest : Bytes) (acc : Headers)
    → eq_header key invalid_header ≡ false
    → value ≢ []
    → lacks new_line value ≡ true
    → parse_header (header_to_string key ++ (colon ∷ (value ++ (new_line ∷ rest)))) acc
      ≡ accepts (keep_first key value acc, rest)
unfolding parse_header
parse_header-line key value rest acc known full clean =
    let found =
      split_at-lacks colon (header_to_string key) (value ++ (new_line ∷ rest))
        (header_to_string-lacks key known) in
    let name = to_header-header_to_string key in
    let known' : eq_header (to_header (header_to_string key)) invalid_header ≡ false =
      ap (λ x. eq_header x invalid_header) name ∙ known in
    rw (found, known', parse_header)
      (ap (λ x. parse_value x (value ++ (new_line ∷ rest)) acc) name
        ∙ parse_value-line key value rest acc full clean)

header_lines-cons :
    (key : StompHeader) (value t : Bytes) (headers : Headers)
    → header_lines ((key, value) ∷ headers) ++ t
      ≡ header_to_string key ++ (colon ∷ (value ++ (new_line ∷ (header_lines headers ++ t))))
unfolding header_lines
header_lines-cons key value t headers =
    append-cons (header_to_string key) colon (value ++ (new_line ∷ header_lines headers)) t
    ∙ ap (λ v. header_to_string key ++ (colon ∷ v))
        (append-cons value new_line (header_lines headers) t)

parse_headers-lines :
    (fuel : ℕ) (headers acc : Headers) (rest : Bytes)
    → length (header_lines headers ++ (new_line ∷ rest)) < fuel
    → AreProper headers
    → parse_headers fuel (header_lines headers ++ (new_line ∷ rest)) acc
      ≡ accepts (gathered acc headers, new_line ∷ rest)
unfolding parse_headers AreProper gathered header_lines
parse_headers-lines zero headers acc rest less proper = absurd (omega arith)
parse_headers-lines (suc fuel) [] acc rest less proper = refl
parse_headers-lines (suc fuel) ((key, value) ∷ headers) acc rest less
      (known, (full, (clean, proper))) =
    let t = new_line ∷ rest in
    let more = header_lines headers ++ t in
    let line = header_to_string key ++ (colon ∷ (value ++ (new_line ∷ more))) in
    let shape : header_lines ((key, value) ∷ headers) ++ t ≡ line =
      header_lines-cons key value t headers in
    let first =
      split_at-lacks colon (header_to_string key) (value ++ (new_line ∷ more))
        (header_to_string-lacks key known) in
    let second = split_at-lacks new_line value more clean in
    let len1 =
      split_at-length colon line (header_to_string key) (value ++ (new_line ∷ more)) first in
    let len2 = split_at-length new_line (value ++ (new_line ∷ more)) value more second in
    let less' : length more < fuel = omega (arith, len1, len2, ap length shape, less) in
    let one = parse_header-line key value more acc known full clean in
    let full_line : at_blank line ≡ false =
      at_blank-header_to_string key (colon ∷ (value ++ (new_line ∷ more))) in
    ap (λ v. parse_headers (suc fuel) v acc) shape
    ∙ rw (full_line, one, parse_headers)
        (parse_headers-lines fuel headers (keep_first key value acc) rest less' proper)

pub parse_body-free :
    (headers : Headers) (body : Bytes)
    → lookup content_length_header headers ≡ none
    → lacks null body ≡ true
    → parse_body headers (body ++ (null ∷ [])) ≡ accepts body
unfolding parse_body parse_tail
parse_body-free headers body free clean =
    rw (free, split_at-lacks null body [] clean, parse_body) refl

parse_blank-body :
    (command : StompCommand) (headers : Headers) (end body : Bytes)
    → parse_body headers end ≡ accepts body
    → parse_blank command headers (new_line ∷ end) ≡ accepts (command, (headers, body))
unfolding parse_blank
parse_blank-body command headers end body h = rw (h, parse_blank) refl

-- The text of a frame is parsed when its end is the body.
pub parse_frame-lines :
    (command : StompCommand) (headers : Headers) (end body : Bytes)
    → eq_command command invalid ≡ false
    → AreProper headers
    → ((headers' : Headers)
        → ((k : StompHeader) → lookup k headers' ≡ lookup k headers)
        → parse_body headers' end ≡ accepts body)
    → (headers' : Headers) × (parse_frame
          (command_to_string command ++ (new_line ∷ (header_lines headers ++ (new_line ∷ end))))
        ≡ accepts (command, (headers', body)))
      × ((k : StompHeader) → lookup k headers' ≡ lookup k headers)
unfolding parse_frame lookup or_else
parse_frame-lines command headers end body known proper ends =
    let rest = header_lines headers ++ (new_line ∷ end) in
    let found =
      split_at-lacks new_line (command_to_string command) rest (command_to_string-lacks command) in
    let name = to_command-command_to_string command in
    let known' : eq_command (to_command (command_to_string command)) invalid ≡ false =
      ap (λ x. eq_command x invalid) name ∙ known in
    let lines = parse_headers-lines (suc (length rest)) headers [] end (omega arith) proper in
    let same : (k : StompHeader) → lookup k (gathered [] headers) ≡ lookup k headers =
      λ k. lookup-gathered [] headers k in
    (
      gathered [] headers,
      rw (found, known', lines, parse_frame)
          (ap (λ x. parse_blank x (gathered [] headers) (new_line ∷ end)) name
            ∙ parse_blank-body command (gathered [] headers) end body
                (ends (gathered [] headers) same)),
      same,
    )

-- A frame composed of a valid command, of valid headers whose values are neither empty nor have a new
-- line in them, none of which is the content length, and of a body without a null byte, is parsed to
-- that command, to that body, and to headers that have for each header the value that it was given
-- first.
pub parse_frame-compose :
    (command : StompCommand) (headers : Headers) (body : Bytes)
    → eq_command command invalid ≡ false
    → AreProper headers
    → lookup content_length_header headers ≡ none
    → lacks null body ≡ true
    → (headers' : Headers) × (parse_frame (compose command headers body)
        ≡ accepts (command, (headers', body)))
      × ((k : StompHeader) → lookup k headers' ≡ lookup k headers)
unfolding compose
parse_frame-compose command headers body known proper free clean =
    parse_frame-lines command headers (body ++ (null ∷ [])) body known proper
      (λ headers' same. parse_body-free headers' body (same content_length_header ∙ free) clean)
