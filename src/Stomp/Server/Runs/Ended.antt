-- ===== src/Stomp/Server/Runs/Ended.antt =====
-- What a run leaves of a connection that has ended.
use metro_network_monitor.Base.{
  ℕ, ◌≤◌, ◌<◌, ◌≡◌, refl, sym, ap, ◌∙◌, ◌≢◌, inl, inr, Bool, true, false, none, some, List, [],
  ◌++◌, arith, if◌then◌else◌, Bool-cases, nat_eq, lookup, Bytes, eq_bytes, eq_bytes_iff, bytes_eq,
}
use metro_network_monitor.Stomp.Compose.{HeaderOrder}
use metro_network_monitor.Stomp.Server.{ConnectionStatus, pending, Connection, Server, Effect}
use metro_network_monitor.Stomp.Server.Handlers.{begin_connection, forget, set_connected}
use metro_network_monitor.Stomp.Server.Moves.{
  Move, stays, generates, begins, accepts, accepts_silently, delivers, drops, leaves, clears,
}
use metro_network_monitor.Stomp.Server.Consistent.{IsFresh, IsConsistent}
use metro_network_monitor.Stomp.Server.Life.{
  Phase, unknown, waiting, phase, phase_of, Notice, notices, LifeStep, rests, appears, opens,
  opens_unseen, hears, ends, ends_told, notices-append, phase-forget, phase-set_connected,
  phase-begin_connection, phase-known,
}
use metro_network_monitor.Stomp.Server.Life.Steps.{Move-LifeStep}
use metro_network_monitor.Stomp.Server.Runs.{Act-Move, Run, begun, and_then, Run-IsConsistent}

-- The ID was generated for a connection, and no connection has it now.
pub record HasEnded (generate_id : ℕ → Bytes) (s : Server) (id : Bytes) : Type 0 where
  pub number : ℕ
  pub generated_before : number < s.generated
  pub same : id ≡ generate_id number
  pub gone : phase s id ≡ unknown

-- What is told of an ID without a connection is nothing.
silent :
    (set : Bool) (id : Bytes) {p q : Phase} {n : List Notice}
    → p ≡ unknown
    → LifeStep set id p n q
    → n ≡ []
silent set id e rests = refl
silent set id e appears = refl
silent set id e (opens h) = cc
silent set id e (opens_unseen h) = refl
silent set id e hears = cc
silent set id e ends = refl
silent set id e ends_told = cc

module _ (generate_id : ℕ → Bytes) (s : Server) (id : Bytes) (fresh : IsFresh generate_id)
    (h : IsConsistent generate_id s) (d : HasEnded generate_id s id) where
  -- The connection of a session has another ID.
  other_id :
      (ws : ℕ) (c : Connection) (st : ConnectionStatus)
      → lookup ws s.connections ≡ some c
      → c.status ≡ st
      → phase_of st ≢ unknown
      → eq_bytes c.id id ≡ false
  other_id ws c st found now known = elim (Bool-cases (eq_bytes c.id id)) [
    | inr other ↦ other
    | inl same ↦
        let e = ap (phase s) (sym ((eq_bytes_iff c.id id).0 same)) in
        absurd (
          known (
            sym (ap phase_of now)
            ∙ (sym (phase-known generate_id s h ws c found) ∙ (sym e ∙ d.gone))))
  ]

  forget-gone :
      (ws : ℕ) (c : Connection)
      → lookup ws s.connections ≡ some c
      → phase (forget s c.id ws) id ≡ unknown
  forget-gone ws c found = phase-forget generate_id s h ws c id found ∙ by_id (eq_bytes c.id id)
    where
      by_id : (b : Bool) → (if b then unknown else phase s id) ≡ unknown
      by_id true = refl
      by_id false = d.gone

  set_connected-gone :
      (ws : ℕ) (c : Connection)
      → lookup ws s.connections ≡ some c
      → c.status ≡ pending
      → phase (set_connected s ws c.id) id ≡ unknown
  set_connected-gone ws c found waits =
      phase-set_connected generate_id s h ws c id found
      ∙ rw (other_id ws c pending found waits (λ e. (let q : waiting ≡ unknown = e in cc))) d.gone

  begin_connection-gone :
      (ws : ℕ)
      → lookup ws s.connections ≡ none
      → phase (begin_connection generate_id s ws) id ≡ unknown
  begin_connection-gone ws new =
      phase-begin_connection generate_id s h ws id new
      ∙ elim (Bool-cases (eq_bytes (generate_id s.generated) id)) [
        | inl taken ↦
            let e =
              fresh s.generated d.number
                ((eq_bytes_iff (generate_id s.generated) id).0 taken ∙ d.same) in
            absurd (omega (arith, e, d.generated_before))
        | inr other ↦ rw other d.gone
      ]

  still_ended :
      (s' : Server)
      → s.generated ≤ s'.generated
      → phase s' id ≡ unknown
      → HasEnded generate_id s' id
  still_ended s' more gone = record {
    number = d.number;
    generated_before = (let q = d.generated_before in omega arith);
    same = d.same;
    gone = gone;
  }

  Move-HasEnded :
      (s' : Server) (es : List Effect) → Move generate_id s s' es → HasEnded generate_id s' id
  unfolding phase lookup forget set_connected begin_connection
  Move-HasEnded s' es (stays _ quiet) = d
  Move-HasEnded s' es (generates _ quiet) = still_ended s' (omega arith) d.gone
  Move-HasEnded s' es (begins ws new) = still_ended s' (omega arith) (begin_connection-gone ws new)
  Move-HasEnded s' es (accepts ws c _ found waits quiet) =
      still_ended s' (omega arith) (set_connected-gone ws c found waits)
  Move-HasEnded s' es (accepts_silently ws c found waits no_value) =
      still_ended s' (omega arith) (set_connected-gone ws c found waits)
  Move-HasEnded s' es (delivers ws c destination r b found open') = d
  Move-HasEnded s' es (drops ws c _ found quiet) =
      still_ended s' (omega arith) (forget-gone ws c found)
  Move-HasEnded s' es (leaves ws c e found open') =
      still_ended s' (omega arith) (forget-gone ws c found)
  Move-HasEnded s' es (clears _ quiet) = still_ended s' (omega arith) refl

  Move-silent : (s' : Server) (es : List Effect) → Move generate_id s s' es → notices id es ≡ []
  Move-silent s' es move =
      silent s.on_client_connect id d.gone (Move-LifeStep generate_id s s' es id fresh h move)

-- Whatever a server with consistent maps goes through, the user is told nothing any more of an ID
-- whose connection has ended, and no connection gets the ID again.
pub Run-HasEnded :
    (o : HeaderOrder) (generate_id : ℕ → Bytes) (s s' : Server) (es : List Effect) (id : Bytes)
    → IsFresh generate_id
    → IsConsistent generate_id s
    → HasEnded generate_id s id
    → Run o generate_id s s' es
    → HasEnded generate_id s' id × (notices id es ≡ [])
unfolding notices
Run-HasEnded o generate_id s s' es id fresh h d begun = (d, refl)
Run-HasEnded o generate_id s s' es id fresh h d (and_then {s' = t} {es = fs} {fs = gs} r st) =
    let (d', quiet) = Run-HasEnded o generate_id s t fs id fresh h d r in
    let h' = Run-IsConsistent o generate_id fresh h r in
    let move = Act-Move o generate_id st in
    (
      Move-HasEnded generate_id t id fresh h' d' s' gs move,
      notices-append id fs gs
          ∙ (ap (λ v. v ++ notices id gs) quiet
              ∙ Move-silent generate_id t id fresh h' d' s' gs move),
    )
