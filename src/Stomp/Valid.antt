-- ===== src/Stomp/Valid.antt =====
-- What a frame has that is made from a text without an error.
use metro_network_monitor.Base.{
  ◌≡◌, refl, sym, ap, subst, ◌∙◌, ◌⊎◌, inl, inr, true, none, some, List, [], ◌∷◌, arith, ◌==◌,
  ==→eq, Bool-cases, Option-cases, length, Elem, nat_eq, lookup, Bytes, bytes_eq,
}
use metro_network_monitor.Network.Types.{Outcome, returns, throws, undefined, unfinished}
use metro_network_monitor.Stomp.Headers.{StompHeader, content_length_header, header_eq}
use metro_network_monitor.Stomp.Errors.{StompError, ok}
use metro_network_monitor.Stomp.Parse.{
  Parsed, accepts, rejects, out_of_range, looping, Headers, Fields, Number, no_digits, too_large,
  number, from_chars, parse_frame,
}
use metro_network_monitor.Stomp.Ends.{Ends, Anything, parse_frame-Ends}
use metro_network_monitor.Stomp.Frame.{
  Frame, empty_frame, has_header, needed_headers, has_all, validate_length, validate_frame,
  validated, parsed, parse_and_validate_frame, frame_of_text,
}

-- There is no content length, or it is that of the body.
pub IsSized : Headers → Bytes → Type 0
IsSized headers body =
    (lookup content_length_header headers ≡ none)
    ⊎ ((text : Bytes) × (lookup content_length_header headers ≡ some text)
        × (from_chars text ≡ number (length body)))

-- The frame holds the text and what the parser finds in it; its command is a command of the protocol,
-- every header that the command needs is there, and the content length is right.
pub record IsValid (plain : Bytes) (f : Frame) : Type 0 where
  pub text : f.plain ≡ plain
  pub fields : parse_frame plain ≡ accepts (f.command, (f.headers, f.body))
  pub needed : List StompHeader
  pub needs : needed_headers f.command ≡ some needed
  pub has : (h : StompHeader) → Elem h needed → has_header f.headers h ≡ true
  pub sized : IsSized f.headers f.body

has_all-Elem :
    (headers : Headers) (needed : List StompHeader) (h : StompHeader)
    → has_all headers needed ≡ true
    → Elem h needed
    → has_header headers h ≡ true
unfolding has_all
has_all-Elem headers [] h e m = absurd m.1
has_all-Elem headers (x ∷ xs) h e (inl p) =
    let q : has_header headers x ≡ true = ground arith in ap (has_header headers) p ∙ q
has_all-Elem headers (x ∷ xs) h e (inr m) =
    let q : has_all headers xs ≡ true = ground arith in has_all-Elem headers xs h q m

validate_length-number :
    (headers : Headers) (body text : Bytes) (n : Number)
    → lookup content_length_header headers ≡ some text
    → from_chars text ≡ n
    → validate_length headers body ≡ returns ok
    → IsSized headers body
unfolding validate_length IsSized
validate_length-number headers body text no_digits e q h =
    let h' = (rw (e, q, validate_length) at h) in cc
validate_length-number headers body text too_large e q h =
    let h' = (rw (e, q, validate_length) at h) in cc
validate_length-number headers body text (number n) e q h =
    let h' = (rw (e, q, validate_length) at h) in
    elim (Bool-cases (n == length body)) [
      | inl same ↦ inr (text, e, q ∙ ap number (==→eq n (length body) same))
      | inr other ↦ let h'' = (rw other at h') in cc
    ]

validate_length-ok :
    (headers : Headers) (body : Bytes)
    → validate_length headers body ≡ returns ok
    → IsSized headers body
unfolding IsSized
validate_length-ok headers body h = elim (Option-cases (lookup content_length_header headers)) [
  | inl free ↦ inl free
  | inr (text, e) ↦ validate_length-number headers body text (from_chars text) e refl h
]

record Passes (f : Frame) : Type 0 where
  needed : List StompHeader
  needs : needed_headers f.command ≡ some needed
  all_there : has_all f.headers needed ≡ true
  sized : IsSized f.headers f.body

validate_frame-ok : (f : Frame) → validate_frame f ≡ returns ok → Passes f
unfolding validate_frame
validate_frame-ok f h = elim (Option-cases (needed_headers f.command)) [
  | inl missing ↦ let h' = (rw (missing, validate_frame) at h) in cc
  | inr (needed, e) ↦ elim (Bool-cases (has_all f.headers needed)) [
    | inl there ↦
        let h' = (rw (e, there, validate_frame) at h) in
        record {
          needed = needed;
          needs = e;
          all_there = there;
          sized = validate_length-ok f.headers f.body h';
        }
    | inr lacking ↦ let h' = (rw (e, lacking, validate_frame) at h) in cc
  ]
]

validated-ok :
    (g f : Frame) (o : Outcome StompError)
    → validated g o ≡ returns (ok, f)
    → (o ≡ returns ok) × (g ≡ f)
unfolding validated
validated-ok g f (returns e) h =
    let p : e ≡ ok = ground arith in let q : g ≡ f = ground arith in (ap returns p, q)
validated-ok g f (throws m) h = cc
validated-ok g f undefined h = cc
validated-ok g f unfinished h = cc

parsed-ok :
    (plain : Bytes) (r : Parsed Fields) (f : Frame)
    → Ends (Anything {A = Fields}) r
    → parsed (record empty_frame { plain = plain }) r ≡ returns (ok, f)
    → (f.plain ≡ plain) × (r ≡ accepts (f.command, (f.headers, f.body))) × Passes f
unfolding parsed
parsed-ok plain (rejects e) f proper h = absurd (proper (ground arith))
parsed-ok plain out_of_range f proper h = cc
parsed-ok plain looping f proper h = cc
parsed-ok plain (accepts (command, (headers, body))) f proper h =
    let g : Frame = record { plain = plain; command = command; headers = headers; body = body } in
    let (e, q) = validated-ok g f (validate_frame g) h in
    (
      ap (λ (v : Frame). v.plain) (sym q),
      ap (λ (v : Frame). accepts (v.command, (v.headers, v.body))) q,
      subst Passes q (validate_frame-ok g e),
    )

-- A frame that is made from a text with the error code `kOk` holds the text, and the command, the
-- headers and the body that the parser finds in it; its command is valid, has every header that it
-- needs, and a content length that is given is the number of bytes of the body.
pub frame_of_text-IsValid :
    (plain : Bytes) (f : Frame) → frame_of_text plain ≡ returns (ok, f) → IsValid plain f
unfolding frame_of_text parse_and_validate_frame
frame_of_text-IsValid plain f h =
    let (text, fields, passes) = parsed-ok plain (parse_frame plain) f (parse_frame-Ends plain) h in
    record {
      text = text;
      fields = fields;
      needed = passes.needed;
      needs = passes.needs;
      has = λ x m. has_all-Elem f.headers passes.needed x passes.all_there m;
      sized = passes.sized;
    }
