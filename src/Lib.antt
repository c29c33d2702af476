-- ===== src/Lib.antt =====
-- EarthSciIO, the Rust crate (rust/src): a cache of remote data files, and the arrays read from
-- them.
--
-- Parts and files:
-- * Error (error.rs), Manifest (manifest.rs), Key (key.rs), Datadir (datadir.rs), Offline
--   (offline.rs) and Auth (auth.rs) are the values that the rest passes round. A text is the list
--   of its bytes.
-- * FilePath and FileSystem are the world outside the process: files by path, the environment, the
--   clock, the names of temporary files, and the error with which the system answers each call.
--   Every call may fail. An action is a function from the world to a result and a world (Exec), and
--   what was written before an early return stays written.
-- * Transport (transport/mod.rs, transport/file.rs) is the interface of a transport as a record of
--   functions, with the file transport. Network transports are given to the builder.
-- * Store (store/mod.rs) is the interface of a store with the laws that the cache relies on;
--   Store.Local (store/local.rs) is the store on the file system, and Store.Local.Laws is about
--   those laws. Store.Local.Untouched is about what writing a manifest leaves alone. While a process
--   waits for the lock of a key, others may change the files (`others`).
-- * Validate.Ladder and Validate.Revalidator (validate.rs) decide whether an entry is still good.
--   Validate.Revalidator.Timeline and History follow a source through writes and checks; its
--   clock and its stamps are in nanoseconds, and a stamp is the time of the write rounded down to a tick.
-- * Cache (cache.rs): Url reads schemes and extensions, Request holds the records, Hit is
--   `read_offline` and `try_hit`, Commit is `commit_result`, Download is `download_locked` with its
--   sources and its retry, Fetch is `Cache::fetch`, Builder is `CacheBuilder`.
-- * Array (format/mod.rs): selectors of a dimension, arrays of native values, records of a field,
--   and the gather of selected cells. Where the code panics, the function gives nothing.
-- * Calendar (calendar.rs): cadence periods and how they are read.
-- * Prefetch (prefetch.rs): State is the record behind the group's lock; Settle, WarmUp and Admit are
--   its methods; Group has `start`, `ready`, `cancel`, `close` and the drop; Take is `take`; Worker is
--   one round of a decode worker or of the fetcher. Prefetch.Invariant is about what every operation
--   keeps. Prefetch.System is the group with its threads: a step is one hold of the lock, so every
--   interleaving is a sequence of steps, and the jobs in the workers' hands are a list. What a member's
--   decode may yield at an anchor is the parameter `Made`. Instants are numbers, and a key has the
--   member's place. Each row of anchors is as long as the boundaries; an epoch or a member out of
--   range panics, as does a counter that would go below 0. `panics` and `none` are panics.
-- * Ff10 (format/ff10.rs): Glob has the patterns and the matcher, whose positions are the rests of the
--   two lists; Members is the choice of members in `read_zip_selected`.
-- * Era5 (era5.rs): the pressure levels, the months of a range and the days of a month. A year is an
--   `i32`; the loop over the months stops at an overflow.
-- * Esm (esm.rs): the tokens of a URL template by their places; Dates has the date directives, over an
--   instant of the `time` crate that is read by its methods; Expand has the expansion, in which `none`
--   is a panic of a slice, the names, and the check before the first fetch.
-- * S3Config (s3_config.rs): the options of S3 buckets from the environment, and what they say. The
--   JSON parser is a parameter, whose values are read by their kinds.
-- * Examples holds concrete inputs.
--
-- Other packages are parameters: External has sha2, serde_json, the `time` crate and the debug
-- texts, and ExternalLaws says that reading back a printed manifest gives the manifest. The zip crate
-- and the decoding of names are arguments in Ff10.Members.
--
-- Fuel: a decimal number takes at most as many digits as its value and one more; a range of step
-- 1 or more holds at most as many indices as its ends are apart (Array.Select.Bounds). The matcher
-- goes back at most once for each character, and between two returns passes each token and character
-- at most once (`enough_fuel`); the months of a range are at most those of the years of its ends
-- (`months_fuel`).
--
-- Not modelled: the network transports, the readers of file formats but for the choice of members in
-- FF10 archives, zarr, the provider, the time axis, the sources of the ESM catalogue and the ERA5 request
-- itself. Of the prefetch group, the builder, the decoded files that members share and the statistics in
-- wall-clock time are left out. Concurrent processes are seen only where the code waits for a lock.
pub mod Prelude
pub mod Exec
pub mod FilePath
pub mod FileSystem
pub mod Error
pub mod Manifest
pub mod External
pub mod Key
pub mod Datadir
pub mod Auth
pub mod Transport
pub mod Store
pub mod Validate
pub mod Offline
pub mod Cache
pub mod Array
pub mod Calendar
pub mod Prefetch
pub mod Ff10
pub mod Era5
pub mod Esm
pub mod S3Config
pub mod Examples
