-- ===== src/Json.antt =====
-- What the source uses of `nlohmann::json`.
use metro_network_monitor.Base.{
  ℕ, ◌<◌, ◌≡◌, Bool, Bytes, List, [], ◌∷◌, Option, none, some, lookup, bytes_eq, IsUnique, u32_mod,
}

-- `none` stands for an exception of the library.
pub record Json : Type 1 where
  pub Value : Type 0
  -- `nlohmann::json::parse` and `dump`
  pub parse : Bytes → Option Value
  pub dump : Value → Option Bytes
  pub at : Value → Bytes → Option Value
  -- `get<std::string>`, `get<unsigned int>` and the elements of a `get` of a vector
  pub string_of : Value → Option Bytes
  pub unsigned_of : Value → Option ℕ
  pub vector_of : Value → Option (List Value)
  -- the range of a `for`
  pub range_of : Value → List Value
  pub is_empty : Value → Bool
  -- `nlohmann::json {}`
  pub null : Value
  -- what the conversions to `nlohmann::json` make
  pub of_string : Bytes → Value
  pub of_unsigned : ℕ → Value
  pub of_vector : List Value → Value
  pub of_object : List (Bytes × Value) → Value

-- What is read is what was written.
pub record ReadsBack (json : Json) : Type 0 where
  pub string_of-of_string : (s : Bytes) → json.string_of (json.of_string s) ≡ some s
  pub unsigned_of-of_unsigned :
      (n : ℕ) → n < u32_mod → json.unsigned_of (json.of_unsigned n) ≡ some n
  pub vector_of-of_vector : (vs : List json.Value) → json.vector_of (json.of_vector vs) ≡ some vs
  pub at-of_object :
      (members : List (Bytes × json.Value)) (key : Bytes)
      → IsUnique members
      → json.at (json.of_object members) key ≡ lookup key members

infixl 5 ◌>>=◌
abbrev pub ◌>>=◌ {ℓ κ} : {A : Type ℓ} {B : Type κ} → Option A → (A → Option B) → Option B
none >>= f = none
some a >>= f = f a

-- `std::vector<T>` from the elements.
unfoldable pub each_of {ℓ} : {V A : Type ℓ} → (V → Option A) → List V → Option (List A)
each_of read [] = some []
each_of read (v ∷ vs) = do a ← read v; rest ← each_of read vs; some (a ∷ rest)
