-- ===== src/Server/Start.antt =====
-- internal/server/server.go: `New` and `Close`. What the file system and the calls of quic-go respond is given.
pub mod Bounded
use quixiot.Prelude.{
  ℕ, ◌*◌, ◌^◌, ◌+◌, Bool, true, false, not, List, [], ◌∷◌, Bytes, Option, none, some, is_empty,
  ◌==◌, if◌then◌else◌, Result, ok, err, guard, ◌>>=◌, ◌>>◌, first_error,
}
use quixiot.Prelude.Int.{ℤ, pos, pos_part, leb_ℤ}
use quixiot.Prelude.Strings.{codes}
use quixiot.Upload.{DirEntry, Removal, PruneResult, PruneError, prune_dir}
use quixiot.Upload.Serving.{Disk, without_gone}
use quixiot.Server.Routes.{Server}

-- `DefaultUploadMaxBytes`, a gibibyte.
abbrev pub default_upload_max_bytes : ℕ
default_upload_max_bytes = 2 ^ 30

-- `Options`: which of the required ones are set, and the rest; a start of `none` is the zero time.
pub record Options : Type 0 where
  pub packet_conn : Bool
  pub tls_config : Bool
  pub version : Bytes
  pub started_at : Option ℕ
  pub upload_dir : Bytes
  pub upload_max_bytes : ℤ
  pub metrics : Bool

-- What the calls of `New` respond.
pub record System : Type 0 where
  pub now : ℕ
  pub dir_made : Bool
  pub listing : Option (List DirEntry)
  pub remove : Bytes → Removal
  pub listens : Bool

pub data ServerError : Type 0 where
  no_packet_conn no_tls_config negative_max_bytes create_dir listen_early : ServerError
  prune_upload_dir : PruneError → ServerError

-- The server's side of a packet conn: the disk, and if the transport is open on it.
pub record Host : Type 0 where
  pub disk : Disk
  pub transport : Bool

or_else : Bytes → Bytes → Bytes
or_else text default = if is_empty text then default else text

pub upload_dir_of : Options → Bytes
unfolding or_else
upload_dir_of o = or_else o.upload_dir (codes "var/uploads")

max_bytes : ℤ → ℕ
max_bytes n = if pos_part n == 0 then default_upload_max_bytes else pos_part n

pub max_bytes_of : Options → ℕ
unfolding max_bytes
max_bytes_of o = max_bytes o.upload_max_bytes

started_of : ℕ → Option ℕ → ℕ
started_of now none = now
started_of now (some t) = t

pub server_of : System → Options → Server
unfolding or_else started_of
server_of y o = record {
  version = or_else o.version (codes "dev");
  started_at = started_of y.now o.started_at;
  uploads = record { dir = upload_dir_of o; max_storage_bytes = max_bytes_of o };
  metrics = o.metrics;
}

-- The checks in front of the first change.
pub check_options : Options → Result ServerError (Unit {0})
check_options o = do
  guard o.packet_conn no_packet_conn
  guard o.tls_config no_tls_config
  guard (leb_ℤ (pos 0) o.upload_max_bytes) negative_max_bytes

listen : System → Options → Host → Host × Result ServerError Server
listen y o h =
    if y.listens
    then (record h { transport = true }, ok (server_of y o))
    else (record h { transport = false }, err listen_early)

-- Behind the pruning, which has removed its files also where it fails.
pruned :
    System → Options → Host → PruneResult × Option PruneError → Host × Result ServerError Server
unfolding listen
pruned y o h (r, some e) =
    (record h { disk = without_gone r.gone h.disk }, err (prune_upload_dir e))
pruned y o h (r, none) = listen y o (record h { disk = without_gone r.gone h.disk })

-- Behind the checks. No file is to keep: `PruneDir` cleans an empty path to a dot, which no file has.
prepared :
    System → Options → Host → Result ServerError (Unit {0}) → Host × Result ServerError Server
unfolding pruned
prepared y o h (err e) = (h, err e)
prepared y o h (ok u) =
    if y.dir_made
    then pruned y o h (prune_dir y.remove (max_bytes_of o) (codes ".") y.listing)
    else (h, err create_dir)

-- `New`
pub new_server : System → Options → Host → Host × Result ServerError Server
unfolding prepared check_options
new_server y o h = prepared y o h (check_options o)

-- `Close`, of which `closeOnce` lets one call through: the three closings with the errors that they return,
-- all of which are made, and the first error.
pub record Closing : Type 0 where
  pub closed : Bool
  pub closed_wt : Bool
  pub closed_listener : Bool
  pub closed_transport : Bool

unfoldable pub close_server {ℓ} :
    {E : Type ℓ} → Option E → Option E → Option E → Closing → Closing × Option E
close_server wt listener transport c = if c.closed then (c, none) else (
  record { closed = true; closed_wt = true; closed_listener = true; closed_transport = true },
  first_error (first_error wt listener) transport,
)
