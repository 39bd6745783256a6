-- ===== src/Stomp/Server/Life/Steps.antt =====
-- The moves of the server as steps of the life of each connection.
use metro_network_monitor.Base.{
  ℕ, ◌≡◌, refl, sym, ap, subst, ◌∙◌, inl, inr, Bool, true, false, some, List, [], ◌∷◌, ◌++◌,
  if◌then◌else◌, nat_eq, lookup, Bytes, eq_bytes, eq_bytes_iff, bytes_eq,
}
use metro_network_monitor.Stomp.ServerErrors.{StompServerError}
use metro_network_monitor.Stomp.Server.{
  ConnectionStatus, pending, connected_status, Connection, Server, Effect, client_connected,
  client_message, client_disconnected,
}
use metro_network_monitor.Stomp.Session.Parts.{IsValue}
use metro_network_monitor.Stomp.Server.Handlers.{posts}
use metro_network_monitor.Stomp.Server.Moves.{
  Move, stays, generates, begins, accepts, accepts_silently, delivers, drops, leaves, clears,
}
use metro_network_monitor.Stomp.Server.Consistent.{IsFresh, IsConsistent, next_id_unused}
use metro_network_monitor.Stomp.ServerErrors
use metro_network_monitor.Stomp.Server.Life.{
  Phase, unknown, waiting, live, phase_of, phase, Notice, told_connected, told_message,
  told_disconnected, notice, notices, LifeStep, rests, appears, opens, opens_unseen, hears, ends,
  ends_told, quiet-notices, notices-append, phase-absent, phase-known, phase-forget,
  phase-set_connected, phase-begin_connection,
}

notices-posts :
    (id : Bytes) (set : Bool) (e : Effect)
    → notices id (posts set e) ≡ (if set then notice id e else [])
unfolding notices
notices-posts id true e = append-nil (notice id e)
  where
    append-nil : (a : List Notice) → a ++ [] ≡ a
    append-nil [] = refl
    append-nil (x ∷ a) = ap (λ v. x ∷ v) (append-nil a)
notices-posts id false e = refl

-- The callback of an event that concerns the connection, if it is this one and if it is set.
abbrev told : Bool → Bool → Notice → List Notice
told true true n = n ∷ []
told true false n = []
told false b n = []

told-if :
    (set b : Bool) (n : Notice) → (if set then (if b then n ∷ [] else []) else []) ≡ told set b n
told-if true true n = refl
told-if true false n = refl
told-if false b n = refl

accepting :
    (set : Bool) (id : Bytes) (b : Bool) (p : Phase)
    → (b ≡ true → p ≡ waiting)
    → LifeStep set id p (told set b told_connected) (if b then live else p)
accepting true id true p h =
    subst (λ v. LifeStep true id v (told_connected ∷ []) live) (sym (h refl)) (opens refl)
accepting true id false p h = rests
accepting false id true p h =
    subst (λ v. LifeStep false id v [] live) (sym (h refl)) (opens_unseen (inl refl))
accepting false id false p h = rests

accepting_silently :
    (set : Bool) (id : Bytes) (b : Bool) (p : Phase)
    → (b ≡ true → p ≡ waiting)
    → (b ≡ true → ¬ IsValue id)
    → LifeStep set id p [] (if b then live else p)
accepting_silently set id true p h no_value =
    subst (λ v. LifeStep set id v [] live) (sym (h refl)) (opens_unseen (inr (no_value refl)))
accepting_silently set id false p h no_value = rests

module _ (told_of : Bool) (id : Bytes) where
  hearing :
      (set b : Bool) (p : Phase)
      → (b ≡ true → p ≡ live)
      → LifeStep told_of id p (told set b told_message) p
  hearing true true p h =
      subst (λ v. LifeStep told_of id v (told_message ∷ []) v) (sym (h refl)) hears
  hearing true false p h = rests
  hearing false b p h = rests

  leaving :
      (set b : Bool) (p : Phase)
      → (b ≡ true → p ≡ live)
      → LifeStep told_of id p (told set b told_disconnected) (if b then unknown else p)
  leaving true true p h =
      subst (λ v. LifeStep told_of id v (told_disconnected ∷ []) unknown) (sym (h refl)) ends_told
  leaving true false p h = rests
  leaving false true p h = ends
  leaving false false p h = rests

  dropping : (b : Bool) (p : Phase) → LifeStep told_of id p [] (if b then unknown else p)
  dropping true p = ends
  dropping false p = rests

  appearing :
      (b : Bool) (p : Phase)
      → (b ≡ true → p ≡ unknown)
      → LifeStep told_of id p [] (if b then waiting else p)
  appearing true p h = subst (λ v. LifeStep told_of id v [] waiting) (sym (h refl)) appears
  appearing false p h = rests

  along :
      {p q q' : Phase} {n n' : List Notice}
      → n' ≡ n
      → q' ≡ q
      → LifeStep told_of id p n q
      → LifeStep told_of id p n' q'
  along {p} {q} {q'} {n} {n'} e f l =
      subst (λ v. LifeStep told_of id p v q') (sym e)
        (subst (λ v. LifeStep told_of id p n v) (sym f) l)

nil-notices : (id : Bytes) → notices id [] ≡ []
unfolding notices
nil-notices id = refl

known-phase :
    (generate_id : ℕ → Bytes) (s : Server) (ws : ℕ) (c : Connection) (st : ConnectionStatus)
    (id : Bytes)
    → IsConsistent generate_id s
    → lookup ws s.connections ≡ some c
    → c.status ≡ st
    → eq_bytes c.id id ≡ true
    → phase s id ≡ phase_of st
known-phase generate_id s ws c st id h found now same =
    let e : c.id ≡ id = (eq_bytes_iff c.id id).0 same in
    ap (phase s) (sym e) ∙ (phase-known generate_id s h ws c found ∙ ap phase_of now)

-- A callback of the user for one connection, as what is told of an ID.
notices-told :
    (id : Bytes) (set b : Bool) (e : Effect) (n : Notice)
    → notice id e ≡ (if b then n ∷ [] else [])
    → notices id (posts set e) ≡ told set b n
notices-told id set b e n q =
    notices-posts id set e ∙ (ap (λ (v : List Notice). if set then v else []) q ∙ told-if set b n)

-- Every move of a consistent server is, for every ID, a step of the life of the connection with that
-- ID.
pub Move-LifeStep :
    (generate_id : ℕ → Bytes) (s s' : Server) (es : List Effect) (id : Bytes)
    → IsFresh generate_id
    → IsConsistent generate_id s
    → Move generate_id s s' es
    → LifeStep s.on_client_connect id (phase s id) (notices id es) (phase s' id)
unfolding phase lookup
Move-LifeStep generate_id s s' es id fresh h (stays _ quiet) =
    along s.on_client_connect id (quiet-notices id es quiet) refl rests
Move-LifeStep generate_id s s' es id fresh h (generates _ quiet) =
    along s.on_client_connect id (quiet-notices id es quiet) refl rests
Move-LifeStep generate_id s s' es id fresh h (begins ws new) =
    let n = generate_id s.generated in
    along s.on_client_connect id {n = []} (nil-notices id)
      (phase-begin_connection generate_id s h ws id new)
      (appearing s.on_client_connect id (eq_bytes n id) (phase s id) (λ same.
        ap (phase s) (sym ((eq_bytes_iff n id).0 same))
        ∙ phase-absent s n (next_id_unused generate_id s h fresh)))
Move-LifeStep generate_id s s' es id fresh h (accepts ws c fs found waits quiet) =
    let b = eq_bytes c.id id in
    let e = client_connected ServerErrors.ok c.id in
    along s.on_client_connect id
      (notices-append id fs (posts s.on_client_connect e)
        ∙ (ap (λ v. v ++ notices id (posts s.on_client_connect e)) (quiet-notices id fs quiet)
            ∙ notices-told id s.on_client_connect b e told_connected refl))
      (phase-set_connected generate_id s h ws c id found)
      (accepting s.on_client_connect id b (phase s id)
        (known-phase generate_id s ws c pending id h found waits))
Move-LifeStep generate_id s s' es id fresh h (accepts_silently ws c found waits no_value) =
    let b = eq_bytes c.id id in
    along s.on_client_connect id {n = []} (nil-notices id)
      (phase-set_connected generate_id s h ws c id found)
      (accepting_silently s.on_client_connect id b (phase s id)
        (known-phase generate_id s ws c pending id h found waits)
        (λ same. subst (λ v. ¬ IsValue v) ((eq_bytes_iff c.id id).0 same) no_value))
Move-LifeStep generate_id s s' es id fresh h (delivers ws c d r b found live') =
    let b' = eq_bytes c.id id in
    along s.on_client_connect id
      (notices-told id s.on_client_message b' (client_message ServerErrors.ok c.id d r b)
        told_message refl)
      refl
      (hearing s.on_client_connect id s.on_client_message b' (phase s id)
        (known-phase generate_id s ws c connected_status id h found live'))
Move-LifeStep generate_id s s' es id fresh h (drops ws c _ found quiet) =
    along s.on_client_connect id (quiet-notices id es quiet)
      (phase-forget generate_id s h ws c id found)
      (dropping s.on_client_connect id (eq_bytes c.id id) (phase s id))
Move-LifeStep generate_id s s' es id fresh h (leaves ws c e found live') =
    let b = eq_bytes c.id id in
    along s.on_client_connect id
      (notices-told id s.on_client_disconnect b (client_disconnected e c.id) told_disconnected refl)
      (phase-forget generate_id s h ws c id found)
      (leaving s.on_client_connect id s.on_client_disconnect b (phase s id)
        (known-phase generate_id s ws c connected_status id h found live'))
Move-LifeStep generate_id s s' es id fresh h (clears _ quiet) =
    along s.on_client_connect id (quiet-notices id es quiet) refl ends
