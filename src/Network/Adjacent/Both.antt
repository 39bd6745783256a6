-- ===== src/Network/Adjacent/Both.antt =====
-- `SetTravelTime` against `GetTravelTime`, both directions at once.
use metro_network_monitor.Base.{
  ℕ, ◌≡◌, refl, sym, ap, subst, ◌∙◌, ◌⊎◌, inl, inr, Bool, false, ◌||◌, none, some, List, arith,
  if◌then◌else◌, Option-cases, Elem, nat_eq, lookup, Bytes, bytes_eq,
}
use metro_network_monitor.Network.Types.{GraphNode, Network}
use metro_network_monitor.Network.Build.{get_station}
use metro_network_monitor.Network.Times.{
  set_edges, set_between, set_travel_time, time_between, get_travel_time,
}
use metro_network_monitor.Network.Adjacent.{
  SameButTimes, set_edges-SameButTimes, set_edges-keeps, set_edges-sets, leads, leads-SameButTimes,
  set_edges-found, set_edges-none, time_to-leads, time_to-none,
}

-- Every edge of the list that leads to the stop has the time.
Timed : Network → List ℕ → ℕ → ℕ → Type 0
Timed net es to time =
    (x : ℕ) → Elem x es → (net.edge x).next_stop ≡ to → (net.edge x).travel_time ≡ time

-- Some edge joins the nodes.
joined : Network → ℕ → ℕ → Bool
unfolding leads
joined net a b = leads net (net.node a).edges b || leads net (net.node b).edges a

joined_sym : (net : Network) (a b : ℕ) → joined net a b ≡ joined net b a
unfolding joined
joined_sym net a b = ground arith

time_between-joined :
    (net : Network) (a b time : ℕ)
    → Timed net (net.node a).edges b time
    → Timed net (net.node b).edges a time
    → time_between net a b ≡ (if joined net a b then time else 0)
unfolding time_between joined Timed
time_between-joined net a b time ha hb = ground (
  arith,
  time_to-leads net (net.node a).edges b time ha,
  time_to-leads net (net.node b).edges a time hb,
)

time_between-apart : (net : Network) (a b : ℕ) → joined net a b ≡ false → time_between net a b ≡ 0
unfolding time_between joined
time_between-apart net a b h =
    ground (arith, time_to-none net (net.node a).edges b, time_to-none net (net.node b).edges a)

-- The two calls of the lambda, over the lists of the two nodes.
twice : Network → List ℕ → List ℕ → ℕ → ℕ → ℕ → Bool × Network
twice net ea eb a b time =
    let (net', found) = set_edges net ea b time false in
    let (net'', found') = set_edges net' eb a time found in (found', net'')

record IsBothSet (net : Network) (ea eb : List ℕ) (a b time : ℕ) (r : Bool × Network) : Type 0 where
  found : r.0 ≡ (leads net ea b || leads net eb a)
  still : r.0 ≡ false → r.1 ≡ net
  same : SameButTimes net r.1
  forth : Timed r.1 ea b time
  back : Timed r.1 eb a time

SameButTimes-trans : {x y z : Network} → SameButTimes x y → SameButTimes y z → SameButTimes x z
SameButTimes-trans h k = record {
  node = k.node ∙ h.node;
  stations = k.stations ∙ h.stations;
  next_stop = λ e. k.next_stop e ∙ h.next_stop e;
}

twice-IsBothSet :
    (net : Network) (ea eb : List ℕ) (a b time : ℕ)
    → IsBothSet net ea eb a b time (twice net ea eb a b time)
unfolding twice Timed
twice-IsBothSet net ea eb a b time =
    let net1 = (set_edges net ea b time false).0 in
    let found1 = (set_edges net ea b time false).1 in
    let net2 = (set_edges net1 eb a time found1).0 in
    let s1 : SameButTimes net net1 = set_edges-SameButTimes net ea b time false in
    let s2 : SameButTimes net1 net2 = set_edges-SameButTimes net1 eb a time found1 in
    let s : SameButTimes net net2 = SameButTimes-trans s1 s2 in
    let f1 : found1 ≡ (leads net ea b || false) = set_edges-found net ea b time false in
    let f2 : (set_edges net1 eb a time found1).1 ≡ (leads net1 eb a || found1) =
      set_edges-found net1 eb a time found1 in
    let l1 : leads net1 eb a ≡ leads net eb a = leads-SameButTimes net net1 eb a s1 in
    let none1 : leads net ea b ≡ false → net1 ≡ net = set_edges-none net ea b time false in
    let none2 : leads net1 eb a ≡ false → net2 ≡ net1 = set_edges-none net1 eb a time found1 in
    record {
      found = ground arith;
      still = λ no. none2 (ground arith) ∙ none1 (ground arith);
      same = s;
      forth = λ x m h.
          set_edges-keeps net1 eb a time found1 x
            (set_edges-sets net ea b time false x m (sym (s.next_stop x) ∙ h));
      back = λ x m h. set_edges-sets net1 eb a time found1 x m (sym (s2.next_stop x) ∙ h);
    }

set_between-IsBothSet :
    (net : Network) (a b time : ℕ)
    → IsBothSet net (net.node a).edges (net.node b).edges a b time (set_between net a b time)
unfolding set_between twice
set_between-IsBothSet net a b time =
    subst
      (λ (n : ℕ → GraphNode).
        IsBothSet net (net.node a).edges (net.node b).edges a b time
          (twice net (net.node a).edges (n b).edges a b time))
      (sym (set_edges-SameButTimes net (net.node a).edges b time false).node)
      (twice-IsBothSet net (net.node a).edges (net.node b).edges a b time)

set_between-time_between :
    (net : Network) (a b time : ℕ)
    → time_between (set_between net a b time).1 a b
        ≡ (if (set_between net a b time).0 then time else 0)
      × time_between (set_between net a b time).1 b a
        ≡ (if (set_between net a b time).0 then time else 0)
unfolding joined
set_between-time_between net a b time =
    let r = set_between net a b time in
    let h = set_between-IsBothSet net a b time in
    let at_a : (r.1.node a).edges ≡ (net.node a).edges = ap (λ n. (n a).edges) h.same.node in
    let at_b : (r.1.node b).edges ≡ (net.node b).edges = ap (λ n. (n b).edges) h.same.node in
    let forth : Timed r.1 (r.1.node a).edges b time =
      subst (λ es. Timed r.1 es b time) (sym at_a) h.forth in
    let back : Timed r.1 (r.1.node b).edges a time =
      subst (λ es. Timed r.1 es a time) (sym at_b) h.back in
    let la : leads r.1 (r.1.node a).edges b ≡ leads net (net.node a).edges b =
      ap (λ es. leads r.1 es b) at_a ∙ leads-SameButTimes net r.1 (net.node a).edges b h.same in
    let lb : leads r.1 (r.1.node b).edges a ≡ leads net (net.node b).edges a =
      ap (λ es. leads r.1 es a) at_b ∙ leads-SameButTimes net r.1 (net.node b).edges a h.same in
    let j : joined r.1 a b ≡ r.0 = rw (la, lb) (sym h.found) in
    let flag : (x y : Bool) → x ≡ y → (if x then time else 0) ≡ (if y then time else 0) =
      λ x y q. ap (λ v. if v then time else 0) q in
    (
      time_between-joined r.1 a b time forth back ∙ flag _ _ j,
      time_between-joined r.1 b a time back forth ∙ flag _ _ (joined_sym r.1 b a ∙ j),
    )

Unknown : Network → Bytes → Bytes → Type 0
Unknown net id_a id_b = (get_station net id_a ≡ none) ⊎ (get_station net id_b ≡ none)

set_travel_time-Unknown :
    (net : Network) (id_a id_b : Bytes) (time : ℕ)
    → Unknown net id_a id_b
    → set_travel_time net id_a id_b time ≡ (false, net)
unfolding set_travel_time Unknown
set_travel_time-Unknown net id_a id_b time (inl p) = rw (p, set_travel_time) refl
set_travel_time-Unknown net id_a id_b time (inr q) = elim (Option-cases (get_station net id_a)) [
  | inl p ↦ rw (p, set_travel_time) refl
  | inr (a, p) ↦ rw (p, q, set_travel_time) refl
]

get_travel_time-Unknown :
    (net : Network) (id_a id_b : Bytes)
    → Unknown net id_a id_b
    → get_travel_time net id_a id_b ≡ 0 × get_travel_time net id_b id_a ≡ 0
unfolding get_travel_time Unknown
get_travel_time-Unknown net id_a id_b (inl p) = elim (Option-cases (get_station net id_b)) [
  | inl q ↦ (rw (p, get_travel_time) refl, rw (q, get_travel_time) refl)
  | inr (b, q) ↦ (rw (p, get_travel_time) refl, rw (q, p, get_travel_time) refl)
]
get_travel_time-Unknown net id_a id_b (inr q) = elim (Option-cases (get_station net id_a)) [
  | inl p ↦ (rw (p, get_travel_time) refl, rw (q, get_travel_time) refl)
  | inr (a, p) ↦ (rw (p, q, get_travel_time) refl, rw (q, get_travel_time) refl)
]

set_travel_time-known :
    (net : Network) (id_a id_b : Bytes) (time a b : ℕ)
    → get_station net id_a ≡ some a
    → get_station net id_b ≡ some b
    → set_travel_time net id_a id_b time ≡ set_between net a b time
unfolding set_travel_time
set_travel_time-known net id_a id_b time a b p q = rw (p, q, set_travel_time) refl

get_travel_time-known :
    (net : Network) (id_a id_b : Bytes) (a b : ℕ)
    → get_station net id_a ≡ some a
    → get_station net id_b ≡ some b
    → get_travel_time net id_a id_b ≡ time_between net a b
unfolding get_travel_time
get_travel_time-known net id_a id_b a b p q = rw (p, q, get_travel_time) refl

known-cases :
    (net : Network) (id_a id_b : Bytes)
    → Unknown net id_a id_b
      ⊎ ((a : ℕ) × (b : ℕ) × (get_station net id_a ≡ some a) × (get_station net id_b ≡ some b))
unfolding Unknown
known-cases net id_a id_b = elim (Option-cases (get_station net id_a)) [
  | inl p ↦ inl (inl p)
  | inr (a, p) ↦ elim (Option-cases (get_station net id_b)) [
    | inl q ↦ inl (inr q)
    | inr (b, q) ↦ inr (a, b, p, q)
  ]
]

-- The result is read back, in both orders.
pub IsReadBack : Bytes → Bytes → ℕ → Bool × Network → Type 0
IsReadBack id_a id_b time r =
    get_travel_time r.1 id_a id_b ≡ (if r.0 then time else 0)
    × get_travel_time r.1 id_b id_a ≡ (if r.0 then time else 0)

-- After `SetTravelTime` of two stations, in a network of any shape, `GetTravelTime` returns the
-- time that was set when the call returned true and 0 when it returned false, in the order of the
-- call's arguments and in the other order.
pub set_travel_time-get_travel_time :
    (net : Network) (id_a id_b : Bytes) (time : ℕ)
    → IsReadBack id_a id_b time (set_travel_time net id_a id_b time)
unfolding IsReadBack get_station
set_travel_time-get_travel_time net id_a id_b time = elim (known-cases net id_a id_b) [
  | inl u ↦
      subst (IsReadBack id_a id_b time) (sym (set_travel_time-Unknown net id_a id_b time u))
        (get_travel_time-Unknown net id_a id_b u)
  | inr (a, b, p, q) ↦
      subst (IsReadBack id_a id_b time) (sym (set_travel_time-known net id_a id_b time a b p q)) (
        let r = set_between net a b time in
        let same = (set_between-IsBothSet net a b time).same in
        let (forth, back) = set_between-time_between net a b time in
        let p' : get_station r.1 id_a ≡ some a = ap (lookup id_a) same.stations ∙ p in
        let q' : get_station r.1 id_b ≡ some b = ap (lookup id_b) same.stations ∙ q in
        (
          get_travel_time-known r.1 id_a id_b a b p' q' ∙ forth,
          get_travel_time-known r.1 id_b id_a b a q' p' ∙ back,
        ))
]

-- When `SetTravelTime` returns false the network is what it was.
pub set_travel_time-none :
    (net : Network) (id_a id_b : Bytes) (time : ℕ)
    → (set_travel_time net id_a id_b time).0 ≡ false
    → (set_travel_time net id_a id_b time).1 ≡ net
set_travel_time-none net id_a id_b time h = elim (known-cases net id_a id_b) [
  | inl u ↦ ap (λ r. r.1) (set_travel_time-Unknown net id_a id_b time u)
  | inr (a, b, p, q) ↦
      let known = set_travel_time-known net id_a id_b time a b p q in
      ap (λ r. r.1) known
      ∙ (set_between-IsBothSet net a b time).still (sym (ap (λ r. r.0) known) ∙ h)
]
