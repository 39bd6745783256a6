-- ===== src/Search/Quiet/Crowding.antt =====
-- The crowding of a path (`GetPathCrowding`).
use metro_network_monitor.Base.{◌≡◌, sym, ap, ◌∙◌, [], ◌∷◌, arith}
use metro_network_monitor.Base.Int.{ℤ, pos, negsuc, ◌+ℤ◌, +ℤ_zero, +ℤ_assoc}
use metro_network_monitor.Network.Types.{Network}
use metro_network_monitor.Search.Stops.{FoundPath}
use metro_network_monitor.Search.Quiet.{to_u32, add_crowding, path_crowding}

-- The passengers at the stations of a path, as an integer.
pub passengers : Network → FoundPath → ℤ
passengers net [] = pos 0
passengers net ((s, _) ∷ path) = (net.node s.node).passenger_count +ℤ passengers net path

-- A sum can be taken modulo 2^32 at any point.
to_u32-to_u32 : (a b : ℤ) → to_u32 (pos (to_u32 a) +ℤ b) ≡ to_u32 (a +ℤ b)
unfolding to_u32 ◌+ℤ◌
to_u32-to_u32 (pos a) (pos b) = ground arith
to_u32-to_u32 (pos a) (negsuc b) = ground arith
to_u32-to_u32 (negsuc a) (pos b) = ground arith
to_u32-to_u32 (negsuc a) (negsuc b) = ground arith

add_crowding-passengers :
    (net : Network) (a : ℤ) (path : FoundPath)
    → add_crowding net (to_u32 a) path ≡ to_u32 (a +ℤ passengers net path)
unfolding add_crowding passengers
add_crowding-passengers net a [] = ap to_u32 (sym (+ℤ_zero a))
add_crowding-passengers net a ((s, d) ∷ path) =
    let count = (net.node s.node).passenger_count in
    ap (λ v. add_crowding net v path) (to_u32-to_u32 a count)
    ∙ (add_crowding-passengers net (a +ℤ count) path
        ∙ ap to_u32 (+ℤ_assoc a count (passengers net path)))

-- The crowding of a path, which the source sums up in an `unsigned int` from signed counts, is the sum
-- of the counts at its stations modulo 2^32.
pub path_crowding-passengers :
    (net : Network) (path : FoundPath) → path_crowding net path ≡ to_u32 (passengers net path)
unfolding path_crowding to_u32 ◌+ℤ◌
path_crowding-passengers net path =
    add_crowding-passengers net (pos 0) path ∙ ap to_u32 (zero_+ℤ (passengers net path))
  where
    zero_+ℤ : (a : ℤ) → pos 0 +ℤ a ≡ a
    zero_+ℤ a = ground arith
