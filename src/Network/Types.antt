-- ===== src/Network/Types.antt =====
-- include/transport-network.h: the public structs, the internal graph and the network's state.
-- A `shared_ptr` is an address: a number below the count of the objects allocated so far, read
-- through the heap function of its type. Two pointers are equal when their addresses are.
use metro_network_monitor.Base.{ℕ, Bytes, List, [], ◌∷◌, Bool, true, false, ◌&&◌, ◌==◌, eq_bytes}
use metro_network_monitor.Base.Int.{ℤ, pos}

pub record Station : Type 0 where
  pub id : Bytes
  pub name : Bytes

pub record Route : Type 0 where
  pub id : Bytes
  pub direction : Bytes
  pub line_id : Bytes
  pub start_station_id : Bytes
  pub end_station_id : Bytes
  pub stops : List Bytes

pub record Line : Type 0 where
  pub id : Bytes
  pub name : Bytes
  pub routes : List Route

-- `PassengerEvent::Type`: `enter` is `In`, `leave` is `Out`.
pub data EventType : Type 0 where
  enter leave : EventType

-- The timestamp is carried along and never read by the network.
pub record PassengerEvent : Type 0 where
  pub station_id : Bytes
  pub type : EventType
  pub timestamp : Bytes

pub record Step : Type 0 where
  pub start_station_id : Bytes
  pub end_station_id : Bytes
  pub line_id : Bytes
  pub route_id : Bytes
  pub travel_time : ℕ

pub record TravelRoute : Type 0 where
  pub start_station_id : Bytes
  pub end_station_id : Bytes
  pub total_travel_time : ℕ
  pub steps : List Step

-- `TravelRoute {}`
abbrev pub no_travel_route : TravelRoute
no_travel_route = record {
  start_station_id = [];
  end_station_id = [];
  total_travel_time = 0;
  steps = [];
}

-- `operator==` of stations, routes and lines compares the IDs.
pub eq_station : Station → Station → Bool
eq_station a b = eq_bytes a.id b.id

pub eq_route : Route → Route → Bool
eq_route a b = eq_bytes a.id b.id

pub eq_line : Line → Line → Bool
eq_line a b = eq_bytes a.id b.id

pub eq_step : Step → Step → Bool
eq_step a b =
    a.travel_time == b.travel_time
    && (eq_bytes a.start_station_id b.start_station_id
        && (eq_bytes a.end_station_id b.end_station_id
            && (eq_bytes a.line_id b.line_id && eq_bytes a.route_id b.route_id)))

-- `operator==` of `std::vector`
pub eq_steps : List Step → List Step → Bool
eq_steps [] [] = true
eq_steps [] (y ∷ ys) = false
eq_steps (x ∷ xs) [] = false
eq_steps (x ∷ xs) (y ∷ ys) = eq_step x y && eq_steps xs ys

pub eq_travel_route : TravelRoute → TravelRoute → Bool
eq_travel_route a b =
    a.total_travel_time == b.total_travel_time
    && (eq_bytes a.start_station_id b.start_station_id
        && (eq_bytes a.end_station_id b.end_station_id && eq_steps a.steps b.steps))

-- `edges` holds the addresses of the edges that leave the node.
pub record GraphNode : Type 0 where
  pub id : Bytes
  pub name : Bytes
  pub passenger_count : ℤ
  pub edges : List ℕ

-- `route` and `next_stop` are the addresses of a route and of a node.
pub record GraphEdge : Type 0 where
  pub route : ℕ
  pub next_stop : ℕ
  pub travel_time : ℕ

pub record RouteInternal : Type 0 where
  pub id : Bytes
  pub line : ℕ
  pub stops : List ℕ

pub record LineInternal : Type 0 where
  pub id : Bytes
  pub name : Bytes
  pub routes : List (Bytes × ℕ)

-- `TransportNetwork`: the heap of each type of object with the count of the objects allocated, and
-- the members `stations_` and `lines_`.
pub record Network : Type 0 where
  pub node : ℕ → GraphNode
  pub node_count : ℕ
  pub edge : ℕ → GraphEdge
  pub edge_count : ℕ
  pub route : ℕ → RouteInternal
  pub route_count : ℕ
  pub line : ℕ → LineInternal
  pub line_count : ℕ
  pub stations : List (Bytes × ℕ)
  pub lines : List (Bytes × ℕ)

-- What stands at addresses that are not allocated; nothing reads it.
abbrev pub no_node : GraphNode
no_node = record { id = []; name = []; passenger_count = pos 0; edges = [] }

abbrev pub no_edge : GraphEdge
no_edge = record { route = 0; next_stop = 0; travel_time = 0 }

abbrev pub no_route : RouteInternal
no_route = record { id = []; line = 0; stops = [] }

abbrev pub no_line : LineInternal
no_line = record { id = []; name = []; routes = [] }

-- The default constructor.
abbrev pub empty : Network
empty = record {
  node = λ _. no_node;
  node_count = 0;
  edge = λ _. no_edge;
  edge_count = 0;
  route = λ _. no_route;
  route_count = 0;
  line = λ _. no_line;
  line_count = 0;
  stations = [];
  lines = [];
}

-- How a method ends: it returns, it throws an exception with a message, or its behaviour is
-- undefined by the language (an access out of bounds, a null pointer, an uninitialised value). The
-- last constructor is a loop of the model that has used up its fuel.
pub data Outcome {ℓ} (A : Type ℓ) : Type ℓ where
  returns : A → Outcome A
  throws : Bytes → Outcome A
  undefined : Outcome A
  unfinished : Outcome A

infixl 5 ◌>>=◌
abbrev pub ◌>>=◌ {ℓ κ} : {A : Type ℓ} {B : Type κ} → Outcome A → (A → Outcome B) → Outcome B
returns a >>= f = f a
throws m >>= f = throws m
undefined >>= f = undefined
unfinished >>= f = unfinished
