-- ===== src/ProxyCommand/Run/Ends.antt =====
-- How the start of the proxy ends.
use quixiot.Prelude.{
  ◌≡◌, ◌⊎◌, inl, inr, refl, sym, subst, Bool, true, false, not, List, [], Bytes, is_empty, if_elim,
  Result, Result-cases, ok, err, guard, >>=-eq-ok, arith, ◌>>◌,
}
use quixiot.Impair.Config.{Profile, validate}
use quixiot.Proxy.{Proxy, ProxyError, new_proxy, default_idle_ttl}
use quixiot.Proxy.Sessions.{IsSound, Reach, table_stays-IsSound}
use quixiot.ProxyCommand.{LoadError, load_profile}
use quixiot.ProxyCommand.Loading.{new_proxy-load_profile}
use quixiot.ProxyCommand.Run.{
  ProxyConfig, ProxyFlag, apply_proxy_flags, RunError, bad_log, Environment, as_run_error,
  read_config, with_profile, configure_proxy, Sockets, none_open, options_of, served_by, opened,
  started, start_proxy,
}

-- The proxy runs on an open socket with the profile that its configuration names.
pub record Runs (y : Environment) (path : Bytes) (flags : List ProxyFlag) (sockets : Sockets)
    (p : Proxy) : Type 0 where
  pub config : ProxyConfig
  pub profile : Profile
  pub configured : configure_proxy y path flags ≡ ok (config, profile)
  pub loaded : load_profile y.decode_profile config.profile ≡ ok profile
  pub valid : validate profile ≡ ok tt
  pub runs : (p.profile ≡ profile) ⊎ (profile.name ≡ [])
  pub listening : sockets.listening ≡ true
  pub metrics : sockets.metrics ≡ not (is_empty config.metrics_addr)
  pub idle_timeout : p.idle_timeout ≡ default_idle_ttl
  pub sound : IsSound p

abbrev pub Ends : Environment → Bytes → List ProxyFlag → Sockets × Result RunError Proxy → Type 0
Ends y path flags (sockets, ok p) = Runs y path flags sockets p
Ends y path flags (sockets, err e) = sockets ≡ none_open

new_proxy_idle :
    (y : Environment) (profile : Profile) (p : Proxy)
    → new_proxy (options_of y profile) ≡ ok p
    → p.idle_timeout ≡ default_idle_ttl
unfolding new_proxy
new_proxy_idle y profile p e = ground (arith, e)

as_run_error_ok : (r : Result LoadError Profile) {p : Profile} → as_run_error r ≡ ok p → r ≡ ok p
unfolding as_run_error
as_run_error_ok (ok q) e = cc
as_run_error_ok (err reason) e = cc

with_profile_loaded :
    (y : Environment) (c : ProxyConfig) {d : ProxyConfig} {profile : Profile}
    → with_profile y c ≡ ok (d, profile)
    → load_profile y.decode_profile d.profile ≡ ok profile
unfolding with_profile
with_profile_loaded y c {d} {profile} e =
    let (p, loaded, e1) =
      >>=-eq-ok (as_run_error (load_profile y.decode_profile c.profile))
        (λ (q : Profile). guard y.log_opened bad_log >> ok (c, q)) e in
    let (_, _, e2) = >>=-eq-ok (guard y.log_opened bad_log) (λ _. ok (c, p)) e1 in
    let same : (c, p) ≡ (d, profile) = cc in
    subst (λ (x : ProxyConfig × Profile). load_profile y.decode_profile x.0.profile ≡ ok x.1) same
      (as_run_error_ok (load_profile y.decode_profile c.profile) loaded)

-- What a configuration that succeeds has loaded.
configure_proxy_loaded :
    (y : Environment) (path : Bytes) (flags : List ProxyFlag) {c : ProxyConfig} {profile : Profile}
    → configure_proxy y path flags ≡ ok (c, profile)
    → load_profile y.decode_profile c.profile ≡ ok profile
unfolding configure_proxy
configure_proxy_loaded y path flags e =
    let (read, _, e1) =
      >>=-eq-ok (read_config y path) (λ c. with_profile y (apply_proxy_flags flags c)) e in
    with_profile_loaded y (apply_proxy_flags flags read) e1

module _ (y : Environment) (c : ProxyConfig) (profile : Profile) (path : Bytes)
    (flags : List ProxyFlag) (configured : configure_proxy y path flags ≡ ok (c, profile)) where
  served_by-Ends :
      (r : Result ProxyError Proxy)
      → new_proxy (options_of y profile) ≡ r
      → Ends y path flags (served_by y c r)
  unfolding served_by
  served_by-Ends (err e) made = refl
  served_by-Ends (ok p) made =
      let loaded = configure_proxy_loaded y path flags configured in
      let (valid, runs) =
        new_proxy-load_profile y.decode_profile c.profile profile (options_of y profile) p loaded
          refl made in
      let at = λ (metrics : Bool) (is : metrics ≡ not (is_empty c.metrics_addr)).
        let up : Runs y path flags (record { listening = true; metrics = metrics }) p = record {
          config = c;
          profile = profile;
          configured = configured;
          loaded = loaded;
          valid = valid;
          runs = runs;
          listening = refl;
          metrics = is;
          idle_timeout = new_proxy_idle y profile p made;
          sound = table_stays-IsSound (options_of y profile) p made Reach.here;
        } in
        up in
      if_elim (Ends y path flags) (is_empty c.metrics_addr) _ _ (λ e. at false (ground (arith, e)))
        (λ e.
          if_elim (Ends y path flags) y.metrics_listened _ _ (λ _. at true (ground (arith, e)))
            (λ _. refl))

  opened-Ends : Ends y path flags (opened y (c, profile))
  unfolding opened
  opened-Ends =
      if_elim (Ends y path flags) y.listen_resolved _ _
        (λ _.
          if_elim (Ends y path flags) y.listened _ _
            (λ _.
              if_elim (Ends y path flags) y.upstream_resolved _ _
                (λ _. served_by-Ends (new_proxy (options_of y profile)) refl) (λ _. refl))
            (λ _. refl))
        (λ _. refl)

-- The start of the proxy command ends in an error with no socket left open, or with a proxy on an open socket,
-- and the listener of the metrics open just if there is an address for it. The proxy's profile is the one
-- that `loadProfile` returns for the configuration, which is valid, unless the name of that is empty; its idle
-- timeout is the default, and its table is sound.
pub start_proxy-Ends :
    (y : Environment) (path : Bytes) (flags : List ProxyFlag)
    → Ends y path flags (start_proxy y path flags)
unfolding start_proxy
start_proxy-Ends y path flags = elim (Result-cases (configure_proxy y path flags)) [
  | inr (e, failed) ↦ subst (λ r. Ends y path flags (started y r)) (sym failed) refl
  | inl ((c, profile), fine) ↦
      subst (λ r. Ends y path flags (started y r)) (sym fine)
        (opened-Ends y c profile path flags fine)
]
