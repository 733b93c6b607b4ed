-- ===== src/ServerCommand.antt =====
-- cmd/server/main.go: the configuration of `run`, and its start up to `Serve`. A configuration file is decoded by
-- yaml.v3, which is a parameter; what the network and the TLS files answer is given.
pub mod Ends
mod Tests
use mathlib.Core.Option as Option
use quixiot.Prelude.{
  ℕ, Bool, true, false, not, ◌&&◌, List, [], ◌∷◌, Bytes, Option, none, some, is_empty,
  if◌then◌else◌, Result, ok, err, or_fail, guard, ◌>>=◌, ◌>>◌,
}
use quixiot.Prelude.Int.{ℤ, pos}
use quixiot.Prelude.Strings.{codes}
use quixiot.Logging.{default_file_max_bytes, default_file_max_files}
use quixiot.Certs.{CertError, Issuing, Files, generate_local, split_sans}
use quixiot.Upload.Serving.{Disk}
use quixiot.Server.Routes.{Server}
use quixiot.Server.Start.{Options, System, ServerError, Host, default_upload_max_bytes, new_server}

pub record ServerConfig : Type 0 where
  pub addr : Bytes
  pub cert_file : Bytes
  pub key_file : Bytes
  pub ca_file : Bytes
  pub upload_dir : Bytes
  pub upload_max_bytes : ℤ
  pub metrics_plain_addr : Bytes
  pub log_level : Bytes
  pub log_file : Bytes
  pub log_max_bytes : ℤ
  pub log_max_files : ℤ

pub server_defaults : ServerConfig
server_defaults = record {
  addr = codes ":4444";
  cert_file = codes "var/certs/server.pem";
  key_file = codes "var/certs/server.key";
  ca_file = codes "var/certs/ca.pem";
  upload_dir = codes "var/uploads";
  upload_max_bytes = pos default_upload_max_bytes;
  metrics_plain_addr = codes "127.0.0.1:9103";
  log_level = codes "info";
  log_file = [];
  log_max_bytes = pos default_file_max_bytes;
  log_max_files = pos default_file_max_files;
}

-- A flag that was set, of those that `fs.Visit` handles.
pub data ServerFlag : Type 0 where
  set_addr set_cert_file set_key_file set_ca_file set_upload_dir set_metrics_plain_addr :
      Bytes → ServerFlag
  set_server_log_level set_server_log_file : Bytes → ServerFlag
  set_upload_max_bytes set_server_log_max_bytes set_server_log_max_files : ℤ → ServerFlag

pub apply_server_flag : ServerFlag → ServerConfig → ServerConfig
apply_server_flag (set_addr v) c = record c { addr = v }
apply_server_flag (set_cert_file v) c = record c { cert_file = v }
apply_server_flag (set_key_file v) c = record c { key_file = v }
apply_server_flag (set_ca_file v) c = record c { ca_file = v }
apply_server_flag (set_upload_dir v) c = record c { upload_dir = v }
apply_server_flag (set_upload_max_bytes v) c = record c { upload_max_bytes = v }
apply_server_flag (set_metrics_plain_addr v) c = record c { metrics_plain_addr = v }
apply_server_flag (set_server_log_level v) c = record c { log_level = v }
apply_server_flag (set_server_log_file v) c = record c { log_file = v }
apply_server_flag (set_server_log_max_bytes v) c = record c { log_max_bytes = v }
apply_server_flag (set_server_log_max_files v) c = record c { log_max_files = v }

pub apply_server_flags : List ServerFlag → ServerConfig → ServerConfig
unfolding apply_server_flag
apply_server_flags [] c = c
apply_server_flags (flag ∷ rest) c = apply_server_flags rest (apply_server_flag flag c)

pub data RunError : Type 0 where
  config_file bad_log generate_failed load_tls listen_failed listen_metrics : RunError
  new_failed : ServerError → RunError

-- The decoder of the configuration, `--gen-certs` with its flags, and what the calls of `run` respond:
-- `is_ip`, `clock` and `issuing` are for `GenerateLocal`, and so are `sans`,
-- which is runes, and the modes of the files that are there;
-- `system` is for the calls of `New`.
pub record Environment : Type 0 where
  pub decode : Bytes → ServerConfig → Option ServerConfig
  pub log_opened : Bool
  pub gen_certs : Bool
  pub cert_dir : Bytes
  pub sans : List ℕ
  pub valid_for : ℤ
  pub is_ip : List ℕ → Bool
  pub clock : ℕ
  pub issuing : Issuing
  pub mode : Bytes → ℕ
  pub tls_loaded : Bool
  pub listened : Bool
  pub system : System
  pub metrics_listened : Bool

-- `config.LoadFile`
read_config : Environment → Bytes → Result RunError ServerConfig
unfolding server_defaults
read_config y path =
    if is_empty path
    then ok server_defaults
    else or_fail (y.decode path server_defaults) config_file

-- Up to the branch on `--gen-certs`.
pub configure_server : Environment → Bytes → List ServerFlag → Result RunError ServerConfig
unfolding read_config apply_server_flags
configure_server y path flags = do
  read ← read_config y path
  guard y.log_opened bad_log
  ok (apply_server_flags flags read)

-- What an `ok` of the start stands for.
pub data Launched : Type 0 where
  certs_generated : Launched
  serving : Server → Launched

-- The packet conn, if it is open, and the server's side of it.
pub record Process : Type 0 where
  pub conn : Bool
  pub host : Host

abbrev pub server_options : ServerConfig → Options
server_options c = record {
  packet_conn = true;
  tls_config = true;
  version = codes "dev";
  started_at = none;
  upload_dir = c.upload_dir;
  upload_max_bytes = c.upload_max_bytes;
  metrics = true;
}

-- Behind `New`; `servePlainMetrics` listens only where there is an address. The deferred calls close the server
-- and the conn.
launched :
    Environment
    → ServerConfig
    → Host × Result ServerError Server
    → Process × Result RunError Launched
launched y c (h, err e) = (record { conn = false; host = h }, err (new_failed e))
launched y c (h, ok s) =
    if not (is_empty c.metrics_plain_addr) && not y.metrics_listened
    then (record { conn = false; host = record h { transport = false } }, err listen_metrics)
    else (record { conn = true; host = h }, ok (serving s))

-- The files of a disk with their modes, and what is on the disk once these are.
pub files_of : Environment → Disk → Files
files_of y d = record { file = λ path. Option.map (λ b. (b, y.mode path)) (d.file path); temps = 0 }

pub with_files : Files → Disk → Disk
with_files f d = record d { file = λ path. Option.map (λ (x : Bytes × ℕ). x.0) (f.file path) }

pub generate : Environment → Host → Result CertError (Unit {0}) × Files
unfolding files_of
generate y h =
    generate_local y.is_ip y.issuing y.cert_dir y.clock (split_sans y.sans) y.valid_for
      (files_of y h.disk)

pub as_launched : Result CertError (Unit {0}) → Result RunError Launched
as_launched (ok u) = ok certs_generated
as_launched (err e) = err generate_failed

-- Behind the configuration.
prepared : Environment → Host → ServerConfig → Process × Result RunError Launched
unfolding launched generate as_launched with_files
prepared y h c =
    let closed : Process = record { conn = false; host = h } in
    if y.gen_certs
    then (
      record { conn = false; host = record h { disk = with_files (generate y h).1 h.disk } },
      as_launched (generate y h).0,
    )
    else if not y.tls_loaded
    then (closed, err load_tls)
    else if not y.listened
    then (closed, err listen_failed)
    else launched y c (new_server y.system (server_options c) h)

from_config : Environment → Host → Result RunError ServerConfig → Process × Result RunError Launched
unfolding prepared
from_config y h (err e) = (record { conn = false; host = h }, err e)
from_config y h (ok c) = prepared y h c

-- `run`, up to `Serve`, which `serving` comes to.
pub start_server : Environment → Bytes → List ServerFlag → Host → Process × Result RunError Launched
unfolding from_config configure_server
start_server y path flags h = from_config y h (configure_server y path flags)
