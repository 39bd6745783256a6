-- ===== src/Monitor/Networks/Tally.antt =====
-- The counts of the network after many callbacks of the monitor.
use metro_network_monitor.Base.{
  ◌≡◌, refl, sym, ap, subst, ◌∙◌, ℕ, if◌then◌else◌, inl, inr, Option, none, some, List, [], ◌∷◌,
  Option-cases, nat_eq, Bytes, eq_bytes, bytes_eq,
}
use metro_network_monitor.Network.Types.{
  PassengerEvent, Network, returns, throws, undefined, unfinished, ◌>>=◌,
}
use metro_network_monitor.Base.Int.{ℤ, pos, ◌+ℤ◌, +ℤ_zero, +ℤ_assoc}
use metro_network_monitor.Network.WellFormed.{IsWellFormed}
use metro_network_monitor.Network.WellFormed.Updates.{record_passenger_event-IsWellFormed}
use metro_network_monitor.Network.Build.{get_station}
use metro_network_monitor.Network.Passengers.{record_passenger_event, get_passenger_count}
use metro_network_monitor.Network.Counts.{stations-record, count-record, one, delta_one}
use metro_network_monitor.Stomp.Client.{subscription_message}
use metro_network_monitor.Monitor.State.{
  Libraries, Monitor, MonitorEffect, of_client, of_server, MonitorHandled,
}
use metro_network_monitor.Monitor.Handlers.{on_network_events_message, parse_event}
use metro_network_monitor.Monitor.Callbacks.{on_client_effect, on_effect, on_effects}
use metro_network_monitor.Monitor.Networks.{event_in, Leaves, other-Leaves}

-- What an event, if there is one, adds to the count of the station.
abbrev tally_one : Bytes → Option PassengerEvent → ℤ
tally_one station none = pos 0
tally_one station (some event) = if eq_bytes event.station_id station then one event.type else pos 0

-- The network with an event, if there is one.
abbrev network_after : Option PassengerEvent → Network → Network
network_after none net = net
network_after (some event) net = (record_passenger_event net event).1

module _ (lib : Libraries) where
  -- By how much the callbacks change the count of a station.
  unfoldable pub tally : Bytes → List MonitorEffect → ℤ
  unfolding event_in
  tally station [] = pos 0
  tally station (e ∷ es) = tally_one station (event_in lib e) +ℤ tally station es

module _ (lib : Libraries) where
  open lib use {float}
  open float use {Double}

  -- After a callback with one property comes the rest with another.
  both-Leaves :
      (P Q : Network → Type 0) (r : MonitorHandled Double)
      (k : Monitor Double × List MonitorEffect → MonitorHandled Double)
      → Leaves lib P r
      → ((m : Monitor Double) (es : List MonitorEffect) → P m.network → Leaves lib Q (k (m, es)))
      → Leaves lib Q (r >>= k)
  both-Leaves P Q (returns (m, es)) k h each = each m es h
  both-Leaves P Q (throws m) k h each = tt
  both-Leaves P Q undefined k h each = tt
  both-Leaves P Q unfinished k h each = tt

  -- A callback records its event and does nothing else to the network.
  on_effect-Leaves :
      (m : Monitor Double) (e : MonitorEffect)
      → Leaves lib (λ net. net ≡ network_after (event_in lib e) m.network) (on_effect lib m e)
  unfolding event_in on_effect on_client_effect on_network_events_message
  on_effect-Leaves m (of_client (subscription_message id e msg)) =
      elim (Option-cases (parse_event lib msg)) [
        | inl bad ↦ rw (bad, on_network_events_message) refl
        | inr (event, read) ↦ rw (read, on_network_events_message) refl
      ]
  on_effect-Leaves m (of_client e) =
      other-Leaves lib (λ net. net ≡ m.network) m refl (of_client e) refl
  on_effect-Leaves m (of_server e) =
      other-Leaves lib (λ net. net ≡ m.network) m refl (of_server e) refl

  -- The counts of a station before and after.
  record Counts (net net' : Network) (station : Bytes) (q : ℕ) (d : ℤ) : Type 0 where
    well_formed : IsWellFormed net'
    known : get_station net' station ≡ some q
    counts : (net'.node q).passenger_count ≡ (net.node q).passenger_count +ℤ d

  network_after-Counts :
      (net : Network) (station : Bytes) (q : ℕ) (event : Option PassengerEvent)
      → IsWellFormed net
      → get_station net station ≡ some q
      → Counts net (network_after event net) station q (tally_one station event)
  network_after-Counts net station q none h here = record {
    well_formed = h;
    known = here;
    counts = sym (+ℤ_zero _);
  }
  network_after-Counts net station q (some event) h here = record {
    well_formed = record_passenger_event-IsWellFormed net event h;
    known = stations-record net event station ∙ here;
    counts =
        count-record net event station q h here
        ∙ ap
            (λ d.
              (net.node q).passenger_count
              +ℤ (if eq_bytes event.station_id station then d else pos 0))
            (delta_one event.type);
  }

  on_effects-Leaves :
      (m : Monitor Double) (es : List MonitorEffect) (station : Bytes) (q : ℕ)
      → IsWellFormed m.network
      → get_station m.network station ≡ some q
      → Leaves lib
          (λ net. Counts m.network net station q (tally lib station es))
          (on_effects lib m es)
  unfolding on_effects tally
  on_effects-Leaves m [] station q h here = record {
    well_formed = h;
    known = here;
    counts = sym (+ℤ_zero _);
  }
  on_effects-Leaves m (e ∷ es) station q h here =
      both-Leaves (λ net. net ≡ network_after (event_in lib e) m.network) _ (on_effect lib m e) _
        (on_effect-Leaves m e)
        (λ m' fs same.
          let first : Counts m.network m'.network station q (tally_one station (event_in lib e)) =
            subst (λ net. Counts m.network net station q (tally_one station (event_in lib e)))
              (sym same) (network_after-Counts m.network station q (event_in lib e) h here) in
          both-Leaves (λ net. Counts m'.network net station q (tally lib station es)) _
            (on_effects lib m' es) _
            (on_effects-Leaves m' es station q first.well_formed first.known)
            (λ m'' gs rest. record {
              well_formed = rest.well_formed;
              known = rest.known;
              counts =
                  rest.counts ∙ (ap (λ v. v +ℤ tally lib station es) first.counts ∙ +ℤ_assoc _ _ _);
            }))

  -- Whatever callbacks of the client and of the server are posted to the monitor with a well-formed
  -- network, and in whatever order: when the handlers return, the count of each known station has gone
  -- up by one for each passenger event `in` of the station among the messages of the subscription and
  -- down by one for each other event of it, and no other callback has changed it.
  pub on_effects-tally :
      (m m' : Monitor Double) (es fs : List MonitorEffect) (station : Bytes) (q : ℕ)
      → IsWellFormed m.network
      → get_station m.network station ≡ some q
      → on_effects lib m es ≡ returns (m', fs)
      → get_passenger_count m'.network station
        ≡ returns ((m.network.node q).passenger_count +ℤ tally lib station es)
  unfolding get_passenger_count
  on_effects-tally m m' es fs station q h here e =
      let c : Counts m.network m'.network station q (tally lib station es) =
        subst (Leaves lib (λ net. Counts m.network net station q (tally lib station es))) e
          (on_effects-Leaves m es station q h here) in
      rw (c.known, get_passenger_count) (ap returns c.counts)
