-- ===== src/Auth.antt =====
-- auth.rs: resolvers by realm. A resolver's headers go to the transport only.
use earth_sci_io.Prelude.{List, Option, Text, [], codes, insert, list_eq, lookup, ℕ_eq, ◌++◌, ◌∷◌}

pub record AuthResolver : Type 0 where
  pub realm : Text
  pub headers : List (Text × Text)

abbrev pub AuthRegistry : Type 0
AuthRegistry = List (Text × AuthResolver)

pub register_auth : AuthResolver → AuthRegistry → AuthRegistry
register_auth r reg = insert r.realm r reg

unfoldable pub get_auth : AuthRegistry → Text → Option AuthResolver
get_auth reg realm = lookup realm reg

-- `StaticHeaderAuth`
pub bearer : Text → Text → AuthResolver
bearer realm token = record {
  realm = realm;
  headers = (codes "Authorization", codes "Bearer " ++ token) ∷ [];
}

pub header : Text → Text → Text → AuthResolver
header realm name value = record { realm = realm; headers = (name, value) ∷ [] }
