-- ===== src/ProxyCommand/Tests.antt =====
-- Profiles at concrete names, and the theorem on them.
use quixiot.Prelude.{◌∷◌, [], ◌≡◌, refl, true, false, [], none, some, ok, err}
use quixiot.Prelude.Int.{pos}
use quixiot.Prelude.Strings.{codes, same_bytes}
use quixiot.Impair.Config.{Profile, validate, normalize_profile, zero_profile, zero_direction}
use quixiot.Impair.Profiles.{builtin_profile, flaky}
use quixiot.Proxy.{Proxy, Options, new_proxy}
use quixiot.ProxyCommand.{load_profile, load_profile_failed, resolve_profile_path, file_stem}
use quixiot.ProxyCommand.Run.{
  Environment, set_profile, start_proxy, apply_proxy_flags, proxy_defaults,
}
use quixiot.ProxyCommand.Run.Ends.{Ends, start_proxy-Ends}

abbrev slow : Profile
slow = record zero_profile { to_client = record zero_direction { latency = pos 9 } }

paths_run :
    (resolve_profile_path (codes "slow") ≡ codes "configs/proxy-slow.yaml")
    × (resolve_profile_path (codes "slow.yml") ≡ codes "slow.yml")
    × (file_stem (codes "a.b/proxy-slow.v2.yaml") ≡ codes "proxy-slow.v2")
    × (file_stem (codes "d/.yaml") ≡ [])
unfolding resolve_profile_path file_stem same_bytes
paths_run = (refl, refl, refl, refl)

load_runs :
    (load_profile (λ _. none) (codes "flaky") ≡ ok flaky)
    × (load_profile (λ _. none) (codes "x") ≡ err load_profile_failed)
    × (load_profile (λ _. some slow) (codes "x") ≡ ok (record slow { name = codes "proxy-x" }))
unfolding load_profile builtin_profile same_bytes normalize_profile validate
load_runs = (refl, refl, refl)

abbrev options : Options
options = record {
  listen_conn = true;
  upstream_addr = true;
  idle_timeout = pos 7;
  profile = flaky;
  metrics = true;
  buffer_set = true;
}

abbrev proxy : Proxy
proxy = record {
  idle_timeout = pos 7;
  profile = flaky;
  metrics = true;
  sessions = λ _. none;
  session = λ _. record { key = 0; last_seen = 0; done = false; incoming = [] };
  next = 0;
  closed = false;
  incs = 0;
  decs = 0;
}

proxy_made : new_proxy options ≡ ok proxy
unfolding new_proxy normalize_profile validate
proxy_made = refl

abbrev environment : Environment
environment = record {
  decode = λ path c. some (record c { profile = codes "satellite" });
  decode_profile = λ path. none;
  log_opened = true;
  listen_resolved = true;
  listened = true;
  upstream_resolved = true;
  buffer_set = true;
  metrics_listened = true;
}

-- The flag wins over the file.
flag_wins :
    (apply_proxy_flags
      (set_profile (codes "flaky") ∷ [])
      (record proxy_defaults { profile = codes "satellite" })).profile
    ≡ codes "flaky"
unfolding apply_proxy_flags
flag_wins = refl

start_proxy-Ends_example :
    Ends environment
      (codes "p.yaml")
      (set_profile (codes "flaky") ∷ [])
      (start_proxy environment (codes "p.yaml") (set_profile (codes "flaky") ∷ []))
start_proxy-Ends_example =
    start_proxy-Ends environment (codes "p.yaml") (set_profile (codes "flaky") ∷ [])
