-- ===== src/ProxyCommand/Run.antt =====
-- cmd/proxy/main.go: the configuration of `run`, and its start up to `Serve`. A configuration file is decoded by
-- yaml.v3, which is a parameter; what the network answers is given.
pub mod Ends
use quixiot.Prelude.{
  ℕ, Bool, true, false, List, [], ◌∷◌, Bytes, Option, none, some, is_empty, if◌then◌else◌, Result,
  ok, err, or_fail, guard, ◌>>=◌, ◌>>◌,
}
use quixiot.Prelude.Int.{ℤ, pos}
use quixiot.Prelude.Strings.{codes}
use quixiot.Logging.{default_file_max_bytes, default_file_max_files}
use quixiot.Impair.Config.{Profile}
use quixiot.Proxy.{Proxy, Options, ProxyError, new_proxy}
use quixiot.ProxyCommand.{LoadError, load_profile}

pub record ProxyConfig : Type 0 where
  pub listen : Bytes
  pub upstream : Bytes
  pub profile : Bytes
  pub metrics_addr : Bytes
  pub log_level : Bytes
  pub log_file : Bytes
  pub log_max_bytes : ℤ
  pub log_max_files : ℤ

pub proxy_defaults : ProxyConfig
proxy_defaults = record {
  listen = codes "127.0.0.1:4443";
  upstream = codes "127.0.0.1:4444";
  profile = codes "passthrough";
  metrics_addr = codes "127.0.0.1:9104";
  log_level = codes "info";
  log_file = [];
  log_max_bytes = pos default_file_max_bytes;
  log_max_files = pos default_file_max_files;
}

-- A flag that was set.
pub data ProxyFlag : Type 0 where
  set_listen set_upstream set_profile set_metrics_addr set_log_level set_log_file :
      Bytes → ProxyFlag
  set_log_max_bytes set_log_max_files : ℤ → ProxyFlag

-- The function that `fs.Visit` is given.
pub apply_proxy_flag : ProxyFlag → ProxyConfig → ProxyConfig
apply_proxy_flag (set_listen v) c = record c { listen = v }
apply_proxy_flag (set_upstream v) c = record c { upstream = v }
apply_proxy_flag (set_profile v) c = record c { profile = v }
apply_proxy_flag (set_metrics_addr v) c = record c { metrics_addr = v }
apply_proxy_flag (set_log_level v) c = record c { log_level = v }
apply_proxy_flag (set_log_file v) c = record c { log_file = v }
apply_proxy_flag (set_log_max_bytes v) c = record c { log_max_bytes = v }
apply_proxy_flag (set_log_max_files v) c = record c { log_max_files = v }

unfoldable pub apply_proxy_flags : List ProxyFlag → ProxyConfig → ProxyConfig
unfolding apply_proxy_flag
apply_proxy_flags [] c = c
apply_proxy_flags (flag ∷ rest) c = apply_proxy_flags rest (apply_proxy_flag flag c)

pub data RunError : Type 0 where
  config_file bad_log resolve_listen listen_failed resolve_upstream listen_metrics : RunError
  bad_profile : LoadError → RunError
  new_failed : ProxyError → RunError

-- The decoders of the configuration and of the profile files, and what the calls of `run` respond.
pub record Environment : Type 0 where
  pub decode : Bytes → ProxyConfig → Option ProxyConfig
  pub decode_profile : Bytes → Option Profile
  pub log_opened : Bool
  pub listen_resolved : Bool
  pub listened : Bool
  pub upstream_resolved : Bool
  pub buffer_set : Bool
  pub metrics_listened : Bool

as_run_error : Result LoadError Profile → Result RunError Profile
as_run_error (ok p) = ok p
as_run_error (err e) = err (bad_profile e)

-- `config.LoadFile`
read_config : Environment → Bytes → Result RunError ProxyConfig
unfolding proxy_defaults
read_config y path =
    if is_empty path then ok proxy_defaults else or_fail (y.decode path proxy_defaults) config_file

-- The profile and the log.
with_profile : Environment → ProxyConfig → Result RunError (ProxyConfig × Profile)
unfolding as_run_error
with_profile y c = do
  profile ← as_run_error (load_profile y.decode_profile c.profile)
  guard y.log_opened bad_log
  ok (c, profile)

-- Up to the first socket: the configuration, with the profile that was loaded.
pub configure_proxy : Environment → Bytes → List ProxyFlag → Result RunError (ProxyConfig × Profile)
unfolding read_config with_profile apply_proxy_flags
configure_proxy y path flags =
    read_config y path >>= λ c. with_profile y (apply_proxy_flags flags c)

-- What is open: the listening socket, and the listener of the metrics.
pub record Sockets : Type 0 where
  pub listening : Bool
  pub metrics : Bool

abbrev pub none_open : Sockets
none_open = record { listening = false; metrics = false }

abbrev pub options_of : Environment → Profile → Options
options_of y profile = record {
  listen_conn = true;
  upstream_addr = true;
  idle_timeout = pos 0;
  profile = profile;
  metrics = true;
  buffer_set = y.buffer_set;
}

-- Behind `New`; `serveMetrics` listens only where there is an address. An error closes the socket.
served_by : Environment → ProxyConfig → Result ProxyError Proxy → Sockets × Result RunError Proxy
served_by y c (err e) = (none_open, err (new_failed e))
served_by y c (ok p) =
    if is_empty c.metrics_addr
    then (record { listening = true; metrics = false }, ok p)
    else if y.metrics_listened
    then (record { listening = true; metrics = true }, ok p)
    else (none_open, err listen_metrics)

-- Behind the configuration.
opened : Environment → ProxyConfig × Profile → Sockets × Result RunError Proxy
unfolding served_by
opened y (c, profile) =
    if y.listen_resolved
    then (if y.listened
        then (if y.upstream_resolved
            then served_by y c (new_proxy (options_of y profile))
            else (none_open, err resolve_upstream))
        else (none_open, err listen_failed))
    else (none_open, err resolve_listen)

started : Environment → Result RunError (ProxyConfig × Profile) → Sockets × Result RunError Proxy
unfolding opened
started y (err e) = (none_open, err e)
started y (ok c) = opened y c

-- `run`, up to `Serve`, which an `ok` comes to.
pub start_proxy : Environment → Bytes → List ProxyFlag → Sockets × Result RunError Proxy
unfolding started configure_proxy
start_proxy y path flags = started y (configure_proxy y path flags)
