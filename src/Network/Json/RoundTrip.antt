-- ===== src/Network/Json/RoundTrip.antt =====
-- A travel route is read back from its JSON.
use metro_network_monitor.Base.{
  ℕ, ◌<◌, ◌≡◌, refl, ◌∙◌, some, List, [], ◌∷◌, map, u32_mod, All, nat_eq, lookup, IsUnique, Bytes,
  bytes, eq_bytes, bytes_eq,
}
use metro_network_monitor.Json.{Json, ReadsBack, each_of}
use metro_network_monitor.Network.Types.{Step, TravelRoute}
use metro_network_monitor.Network.Json.{
  string_at, unsigned_at, vector_at, step_members, step_to_json, step_of_json, route_members,
  route_to_json, route_of_json,
}

-- The times fit into an `unsigned int`.
pub record FitsUnsigned (r : TravelRoute) : Type 0 where
  pub total : r.total_travel_time < u32_mod
  pub each : All (λ (s : Step). s.travel_time < u32_mod) r.steps

module _ (json : Json) (law : ReadsBack json) where
  pub string_at-member :
      (members : List (Bytes × json.Value)) (key s : Bytes)
      → IsUnique members
      → lookup key members ≡ some (json.of_string s)
      → string_at json (json.of_object members) key ≡ some s
  string_at-member members key s unique found =
      rw (law.at-of_object members key unique ∙ found) (law.string_of-of_string s)

  pub unsigned_at-member :
      (members : List (Bytes × json.Value)) (key : Bytes) (n : ℕ)
      → IsUnique members
      → lookup key members ≡ some (json.of_unsigned n)
      → n < u32_mod
      → unsigned_at json (json.of_object members) key ≡ some n
  unsigned_at-member members key n unique found small =
      rw (law.at-of_object members key unique ∙ found) (law.unsigned_of-of_unsigned n small)

  pub vector_at-member :
      (members : List (Bytes × json.Value)) (key : Bytes) (vs : List json.Value)
      → IsUnique members
      → lookup key members ≡ some (json.of_vector vs)
      → vector_at json (json.of_object members) key ≡ some vs
  vector_at-member members key vs unique found =
      rw (law.at-of_object members key unique ∙ found) (law.vector_of-of_vector vs)

  read_step :
      (v : json.Value) (s : Step)
      → string_at json v (bytes "start_station_id") ≡ some s.start_station_id
      → string_at json v (bytes "end_station_id") ≡ some s.end_station_id
      → string_at json v (bytes "line_id") ≡ some s.line_id
      → string_at json v (bytes "route_id") ≡ some s.route_id
      → unsigned_at json v (bytes "travel_time") ≡ some s.travel_time
      → step_of_json json v ≡ some s
  unfolding step_of_json
  read_step v s a b c d e = rw (a, b, c, d, e, step_of_json) refl

  step_of_json-step_to_json :
      (s : Step) → s.travel_time < u32_mod → step_of_json json (step_to_json json s) ≡ some s
  unfolding step_to_json lookup eq_bytes
  step_of_json-step_to_json s small =
      let u : IsUnique (step_members json s) = (refl, (refl, (refl, (refl, (refl, tt))))) in
      read_step (step_to_json json s) s (string_at-member (step_members json s) _ _ u refl)
        (string_at-member (step_members json s) _ _ u refl)
        (string_at-member (step_members json s) _ _ u refl)
        (string_at-member (step_members json s) _ _ u refl)
        (unsigned_at-member (step_members json s) _ _ u refl small)

  each_of-map :
      (steps : List Step)
      → All (λ (s : Step). s.travel_time < u32_mod) steps
      → each_of (step_of_json json) (map (step_to_json json) steps) ≡ some steps
  unfolding each_of
  each_of-map [] small = refl
  each_of-map (s ∷ steps) (one, more) =
      rw (step_of_json-step_to_json s one, each_of-map steps more, each_of) refl

  read_route :
      (v : json.Value) (vs : List json.Value) (r : TravelRoute)
      → string_at json v (bytes "start_station_id") ≡ some r.start_station_id
      → string_at json v (bytes "end_station_id") ≡ some r.end_station_id
      → unsigned_at json v (bytes "total_travel_time") ≡ some r.total_travel_time
      → vector_at json v (bytes "steps") ≡ some vs
      → each_of (step_of_json json) vs ≡ some r.steps
      → route_of_json json v ≡ some r
  unfolding route_of_json
  read_route v vs r a b c d e = rw (a, b, c, d, e, route_of_json) refl

  -- With a JSON library that reads back what it has written, a travel route whose times fit into an
  -- `unsigned int` is read back from its JSON as it was.
  pub route_of_json-route_to_json :
      (r : TravelRoute) → FitsUnsigned r → route_of_json json (route_to_json json r) ≡ some r
  unfolding route_to_json lookup eq_bytes
  route_of_json-route_to_json r fits =
      let u : IsUnique (route_members json r) = (refl, (refl, (refl, (refl, tt)))) in
      read_route (route_to_json json r) (map (step_to_json json) r.steps) r
        (string_at-member (route_members json r) _ _ u refl)
        (string_at-member (route_members json r) _ _ u refl)
        (unsigned_at-member (route_members json r) _ _ u refl fits.total)
        (vector_at-member (route_members json r) _ _ u refl) (each_of-map r.steps fits.each)
