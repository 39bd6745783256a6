-- ===== src/Stomp/Compose.antt =====
-- Frames made from their parts, with the headers in the order in which the map is iterated.
use metro_network_monitor.Base.{
  [], ◌<◌, ◌≡◌, refl, sym, ap, subst, ◌∙◌, ◌≢◌, ◌↔◌, ◌⊎◌, inl, inr, true, false, none, some, List,
  ◌∷◌, ◌++◌, ==_refl, Option-cases, length, Elem, nat_eq, lookup, IsUnique, lookup_of_Elem,
  Elem-of_lookup, Bytes, bytes_eq,
}
use metro_network_monitor.Network.Types.{returns}
use metro_network_monitor.Stomp.Commands.{StompCommand, invalid, eq_command}
use metro_network_monitor.Stomp.Headers.{
  StompHeader, invalid_header, content_length_header, eq_header, header_eq,
}
use metro_network_monitor.Stomp.Errors.{ok}
use metro_network_monitor.Stomp.Parse.{accepts, Headers, new_line, null, size_max, parse_body}
use metro_network_monitor.Stomp.Frame.{
  Frame, empty_frame, needed_headers, has_all, validate_length, validate_frame, validated, parsed,
  parse_and_validate_frame, frame_of_text, frame_of_parts, compose,
}
use metro_network_monitor.Stomp.RoundTrip.{AreProper, lacks, parse_frame-lines, parse_body-free}
use metro_network_monitor.Stomp.Decimal.{to_string, parse_body-sized, from_chars-to_string}

-- The order of the iteration over a `std::unordered_map` of headers, which the standard leaves open:
-- each entry is met once.
pub record HeaderOrder : Type 0 where
  pub order : Headers → Headers
  pub order_elem :
      (headers : Headers) (x : StompHeader × Bytes) → Elem x (order headers) ↔ Elem x headers
  pub order_unique : (headers : Headers) → IsUnique headers → IsUnique (order headers)

pub lookup-order :
    (o : HeaderOrder) (headers : Headers) (k : StompHeader)
    → IsUnique headers
    → lookup k (o.order headers) ≡ lookup k headers
lookup-order o headers k u = elim (Option-cases (lookup k headers)) [
  | inr (v, found) ↦
      lookup_of_Elem k v (o.order headers) (o.order_unique headers u)
        ((o.order_elem headers (k, v)).1 (Elem-of_lookup k v headers found))
      ∙ sym found
  | inl missing ↦ elim (Option-cases (lookup k (o.order headers))) [
    | inl missing' ↦ missing' ∙ sym missing
    | inr (v, found) ↦
        let found' =
          lookup_of_Elem k v headers u
            ((o.order_elem headers (k, v)).0 (Elem-of_lookup k v (o.order headers) found)) in
        let clash : some v ≡ none = sym found' ∙ missing in cc
  ]
]

IsProper : StompHeader × Bytes → Type 0
IsProper (key, value) =
    (eq_header key invalid_header ≡ false) × ((value ≢ []) × (lacks new_line value ≡ true))

Elem-AreProper :
    (headers : Headers) (x : StompHeader × Bytes) → AreProper headers → Elem x headers → IsProper x
unfolding AreProper IsProper
Elem-AreProper [] x h m = absurd m.1
Elem-AreProper ((key, value) ∷ headers) x (known, (full, (clean, rest))) (inl e) =
    subst IsProper (sym e) (known, (full, clean))
Elem-AreProper ((key, value) ∷ headers) x (known, (full, (clean, rest))) (inr m) =
    Elem-AreProper headers x rest m

AreProper-Elem :
    (headers : Headers)
    → ((x : StompHeader × Bytes) → Elem x headers → IsProper x)
    → AreProper headers
unfolding AreProper IsProper
AreProper-Elem [] h = tt
AreProper-Elem ((key, value) ∷ headers) h =
    let (known, (full, clean)) = h (key, value) (inl refl) in
    (known, (full, (clean, AreProper-Elem headers (λ x m. h x (inr m)))))

order-AreProper :
    (o : HeaderOrder) (headers : Headers) → AreProper headers → AreProper (o.order headers)
order-AreProper o headers h =
    AreProper-Elem (o.order headers)
      (λ x m. Elem-AreProper headers x h ((o.order_elem headers x).0 m))

has_all-lookup :
    (headers headers' : Headers) (needed : List StompHeader)
    → ((k : StompHeader) → lookup k headers' ≡ lookup k headers)
    → has_all headers' needed ≡ has_all headers needed
unfolding has_all
has_all-lookup headers headers' [] same = refl
has_all-lookup headers headers' (k ∷ needed) same =
    rw (same k, has_all-lookup headers headers' needed same) refl

-- The body can stand in a frame with the headers: it has no null byte where they have no content
-- length, and that length otherwise.
unfoldable pub Fits : Headers → Bytes → Type 0
Fits headers body =
    ((lookup content_length_header headers ≡ none) × (lacks null body ≡ true))
    ⊎ ((lookup content_length_header headers ≡ some (to_string (length body)))
        × (length body < size_max))

Fits-parse_body :
    (headers headers' : Headers) (body : Bytes)
    → Fits headers body
    → ((k : StompHeader) → lookup k headers' ≡ lookup k headers)
    → parse_body headers' (body ++ (null ∷ [])) ≡ accepts body
unfolding Fits
Fits-parse_body headers headers' body (inl (free, clean)) same =
    parse_body-free headers' body (same content_length_header ∙ free) clean
Fits-parse_body headers headers' body (inr (sized, small)) same =
    parse_body-sized headers' body (same content_length_header ∙ sized) small

Fits-validate_length :
    (headers headers' : Headers) (body : Bytes)
    → Fits headers body
    → ((k : StompHeader) → lookup k headers' ≡ lookup k headers)
    → validate_length headers' body ≡ returns ok
unfolding Fits validate_length
Fits-validate_length headers headers' body (inl (free, clean)) same =
    rw (same content_length_header ∙ free, validate_length) refl
Fits-validate_length headers headers' body (inr (sized, small)) same =
    rw
      (
        same content_length_header ∙ sized,
        from_chars-to_string (length body) small,
        ==_refl (length body),
        validate_length,
      )
      refl

-- The parts make a frame.
pub record ArePartsOf (command : StompCommand) (headers : Headers) (body : Bytes) : Type 0 where
  pub known : eq_command command invalid ≡ false
  pub proper : AreProper headers
  pub unique : IsUnique headers
  pub needed : List StompHeader
  pub needs : needed_headers command ≡ some needed
  pub has : has_all headers needed ≡ true
  pub fits : Fits headers body

-- The frame has the parts, and its text is theirs.
pub record IsMadeOf (o : HeaderOrder) (command : StompCommand) (headers : Headers) (body : Bytes)
    (f : Frame) : Type 0 where
  pub text : f.plain ≡ compose command (o.order headers) body
  pub same_command : f.command ≡ command
  pub same_body : f.body ≡ body
  pub same_headers : (k : StompHeader) → lookup k f.headers ≡ lookup k headers

validate_frame-needed :
    (f : Frame) (needed : List StompHeader)
    → needed_headers f.command ≡ some needed
    → has_all f.headers needed ≡ true
    → validate_length f.headers f.body ≡ returns ok
    → validate_frame f ≡ returns ok
unfolding validate_frame
validate_frame-needed f needed needs has sized = rw (needs, has, validate_frame) sized

parsed-accepts :
    (plain : Bytes) (f : Frame)
    → f.plain ≡ plain
    → validate_frame f ≡ returns ok
    → parsed (record empty_frame { plain = plain }) (accepts (f.command, (f.headers, f.body)))
      ≡ returns (ok, f)
unfolding parsed validated
parsed-accepts plain f same valid =
    subst
      (λ v.
        parsed (record empty_frame { plain = v }) (accepts (f.command, (f.headers, f.body)))
        ≡ returns (ok, f))
      same (rw valid refl)

-- In whatever order the headers are written, the frame made from a command of the protocol, from
-- unique and proper headers with those that the command needs, and from a body that fits the content
-- length, is made without an error, and it has these parts.
pub frame_of_parts-IsMadeOf :
    (o : HeaderOrder) (command : StompCommand) (headers : Headers) (body : Bytes)
    → ArePartsOf command headers body
    → (f : Frame) × (frame_of_parts command (o.order headers) body ≡ returns (ok, f))
      × IsMadeOf o command headers body f
unfolding frame_of_parts frame_of_text parse_and_validate_frame compose
frame_of_parts-IsMadeOf o command headers body p =
    let ordered : (k : StompHeader) → lookup k (o.order headers) ≡ lookup k headers =
      λ k. lookup-order o headers k p.unique in
    let (headers', e, same) =
      parse_frame-lines command (o.order headers) (body ++ (null ∷ [])) body p.known
        (order-AreProper o headers p.proper)
        (λ hs q. Fits-parse_body headers hs body p.fits (λ k. q k ∙ ordered k)) in
    let same' : (k : StompHeader) → lookup k headers' ≡ lookup k headers =
      λ k. same k ∙ ordered k in
    let f : Frame = record {
      plain = compose command (o.order headers) body;
      command = command;
      headers = headers';
      body = body;
    } in
    let has' = has_all-lookup headers headers' p.needed same' ∙ p.has in
    let sized = Fits-validate_length headers headers' body p.fits same' in
    (
      f,
      ap (parsed (record empty_frame { plain = f.plain })) e
          ∙ parsed-accepts f.plain f refl (validate_frame-needed f p.needed p.needs has' sized),
      record { text = refl; same_command = refl; same_body = refl; same_headers = same' },
    )
