-- ===== src/Cache/Builder.antt =====
-- cache.rs: `CacheBuilder::build`, which resolves what the caller left to the environment.
use earth_sci_io.Prelude.{
  Bool, List, Option, Text, [], codes, false, if◌then◌else◌, is_some, list_eq, none, some, true,
  ℕ_eq, ◌++◌, ◌∷◌,
}
use earth_sci_io.Exec.{Result, and_then, ok, ok_or}
use earth_sci_io.FilePath.{FilePath, of_text}
use earth_sci_io.FileSystem.{World}
use earth_sci_io.Error.{Error, unknown_store}
use earth_sci_io.External.{External}
use earth_sci_io.Offline.{is_offline}
use earth_sci_io.Auth.{AuthRegistry}
use earth_sci_io.Transport.{Transport, TransportRegistry, file_transport, register_transport}
use earth_sci_io.Store.{StoreRegistry, get_store, register_store}
use earth_sci_io.Datadir.{data_dir as env_data_dir}
use earth_sci_io.Validate.Revalidator.{revalidate_file_sources as resolve_revalidate}
use earth_sci_io.Store.Local.{local_store}
use earth_sci_io.Cache.Request.{Cache}

pub record CacheBuilder : Type 0 where
  pub data_dir : Option FilePath
  pub store_name : Text
  pub stores : StoreRegistry
  pub user_transports : List Transport
  pub builtin_transports : Bool
  pub auth : AuthRegistry
  pub offline : Option Bool
  pub verify_on_read : Bool
  pub revalidate_file_sources : Option Bool

-- `CacheBuilder::new`
abbrev pub new_builder : CacheBuilder
new_builder = record {
  data_dir = none;
  store_name = codes "local";
  stores = [];
  user_transports = [];
  builtin_transports = true;
  auth = [];
  offline = none;
  verify_on_read = false;
  revalidate_file_sources = none;
}

register_all : List Transport → TransportRegistry → TransportRegistry
unfolding register_transport
register_all [] reg = reg
register_all (t ∷ ts) reg = register_all ts (register_transport t reg)

with_local : External → FilePath → StoreRegistry → StoreRegistry
unfolding register_store get_store
with_local X root stores =
    if is_some (get_store stores (codes "local"))
    then stores
    else register_store (local_store X root) stores

-- The built-in network transports, in the order of their registration around the `file` one.
pub record Network : Type 0 where
  pub http : Transport
  pub cds : Transport
  pub s3 : Transport

module _ (X : External) (N : Network) where
  transports_of : CacheBuilder → Bool → TransportRegistry
  unfolding register_all
  transports_of b true = []
  transports_of b false =
      register_all
        ((if b.builtin_transports then N.http ∷ file_transport ∷ N.cds ∷ N.s3 ∷ [] else [])
          ++ b.user_transports)
        []

  root_of : CacheBuilder → World → FilePath
  root_of b w = elim b.data_dir [ some dir ↦ dir | none ↦ of_text (env_data_dir w) ]

  unfoldable pub build : CacheBuilder → World → Result Error Cache
  unfolding with_local transports_of root_of is_offline get_store
  build b w =
      let offline = is_offline b.offline w in
      and_then
        (ok_or (unknown_store b.store_name)
          (get_store (with_local X (root_of b w) b.stores) b.store_name))
        λ store. ok (record {
          store = store;
          transports = transports_of b offline;
          auth = b.auth;
          offline = offline;
          verify_on_read = b.verify_on_read;
          revalidate_file_sources = resolve_revalidate b.revalidate_file_sources w;
        })
