-- ===== src/WebSocket/Reads.antt =====
-- The reads of a stream, one after the other.
use metro_network_monitor.Base.{◌≡◌, refl, ap, ◌∙◌, Bytes, List, [], ◌∷◌, ◌++◌, Bool, true, false}
use metro_network_monitor.WebSocket.{ErrorCode, success, StreamEffect, reads, tells_message, calls}

-- What comes of a handler when the read that it starts ends: first the effects of the handler itself, those
-- after the start of the read too, and then what the end of the read brings.
abbrev pub follow : List StreamEffect → List StreamEffect → List StreamEffect
follow [] rest = []
follow (reads ∷ es) rest = es ++ rest
follow (e ∷ es) rest = e ∷ follow es rest

-- The messages of the reads that succeed.
unfoldable pub messages : Bool → List (ErrorCode × Bytes) → List StreamEffect
messages set [] = []
messages set ((success, msg) ∷ ends) = calls set (tells_message success msg) ++ messages set ends
messages set ((e, msg) ∷ ends) = messages set ends

message_then :
    (set : Bool) (m : StreamEffect) (xs ys zs : List StreamEffect)
    → ys ≡ xs ++ zs
    → calls set m ++ ys ≡ (calls set m ++ xs) ++ zs
message_then true m xs ys zs e = ap (λ v. m ∷ v) e
message_then false m xs ys zs e = e

follow-message :
    (set : Bool) (e : ErrorCode) (msg : Bytes) (rest : List StreamEffect)
    → follow (calls set (tells_message e msg) ++ (reads ∷ [])) rest
      ≡ calls set (tells_message e msg) ++ rest
follow-message true e msg rest = refl
follow-message false e msg rest = refl

-- A message comes before what the rest brings.
pub follow-messages :
    (set : Bool) (e : ErrorCode) (msg : Bytes) (xs ys zs : List StreamEffect)
    → ys ≡ xs ++ zs
    → follow (calls set (tells_message e msg) ++ (reads ∷ [])) ys
      ≡ (calls set (tells_message e msg) ++ xs) ++ zs
follow-messages set e msg xs ys zs q =
    follow-message set e msg ys ∙ message_then set (tells_message e msg) xs ys zs q
