-- ===== src/ServerCommand/Ends.antt =====
-- How the start of the server command ends.
use quixiot.Prelude.{
  inl, inr, ◌^◌, ◌<◌, ◌≡◌, refl, ap, sym, ◌∙◌, subst, true, false, not, ◌&&◌, List, Bytes, some,
  is_empty, if_elim, Result, Result-cases, ok, err,
}
use quixiot.Upload.{DirEntry}
use quixiot.Upload.Pruning.{bytes_of, regulars, Readable}
use quixiot.Server.Routes.{Server}
use quixiot.Server.Start.{
  ServerError, no_packet_conn, no_tls_config, negative_max_bytes, create_dir, listen_early,
  prune_upload_dir, Host, new_server,
}
use quixiot.Server.Start.Bounded.{Started, Refused, Ends, new_server-Ends}
use quixiot.ServerCommand.{
  ServerConfig, ServerFlag, RunError, Environment, configure_server, Launched, certs_generated,
  serving, Process, server_options, launched, prepared, from_config, start_server, generate,
  with_files, as_launched,
}

-- The server that the configuration asks for serves on an open conn.
pub record Serves (y : Environment) (path : Bytes) (flags : List ServerFlag)
    (entries : List DirEntry) (h : Host) (p : Process) (s : Server) : Type 0 where
  pub config : ServerConfig
  pub configured : configure_server y path flags ≡ ok config
  pub no_certs : y.gen_certs ≡ false
  pub conn : p.conn ≡ true
  pub started : Started y.system (server_options config) entries h.disk p.host s

-- Nothing is left open.
abbrev pub Closed : Process → Type 0
Closed p = (p.conn ≡ false) × (p.host.transport ≡ false)

abbrev pub StartEnds :
    Environment
    → Bytes
    → List ServerFlag
    → List DirEntry
    → Host
    → Process × Result RunError Launched
    → Type 0
StartEnds y path flags entries h (p, ok (serving s)) = Serves y path flags entries h p s
StartEnds y path flags entries h (p, ok certs_generated) =
    (y.gen_certs ≡ true)
    × ((generate y h).0 ≡ ok tt)
    × (p.host.disk ≡ with_files (generate y h).1 h.disk)
    × Closed p
StartEnds y path flags entries h (p, err e) = Closed p

module _ (y : Environment) (path : Bytes) (flags : List ServerFlag) (entries : List DirEntry)
    (h : Host) (listed : y.system.listing ≡ some entries) (readable : Readable entries)
    (small : bytes_of (regulars entries) < 2 ^ 63) (unopened : h.transport ≡ false) where
  abbrev Fine : Process × Result RunError Launched → Type 0
  Fine = StartEnds y path flags entries h

  -- Where `New` failed, its transport is closed.
  Refused-closed :
      (c : ServerConfig) (g : Host) (e : ServerError)
      → Refused y.system (server_options c) h.disk h g e
      → g.transport ≡ false
  Refused-closed c g no_packet_conn r = ap (λ (k : Host). k.transport) r.1 ∙ unopened
  Refused-closed c g no_tls_config r = ap (λ (k : Host). k.transport) r.1 ∙ unopened
  Refused-closed c g negative_max_bytes r = ap (λ (k : Host). k.transport) r.1 ∙ unopened
  Refused-closed c g create_dir r = ap (λ (k : Host). k.transport) r.1 ∙ unopened
  Refused-closed c g (prune_upload_dir e) r = r.1 ∙ unopened
  Refused-closed c g listen_early r = r.1

  generated-Fine :
      y.gen_certs ≡ true
      → Fine (
        record { conn = false; host = record h { disk = with_files (generate y h).1 h.disk } },
        as_launched (generate y h).0,
      )
  unfolding as_launched
  generated-Fine gen = elim (Result-cases (generate y h).0) [
    | inl (u, made) ↦ rw made (gen, made, refl, (refl, unopened))
    | inr (e, failed) ↦ rw failed (refl, unopened)
  ]

  module _ (c : ServerConfig) (configured : configure_server y path flags ≡ ok c) where
    launched-Fine :
        (x : Host × Result ServerError Server)
        → y.gen_certs ≡ false
        → Ends y.system (server_options c) entries h x
        → Fine (launched y c x)
    unfolding launched
    launched-Fine (g, err e) no_certs r = (refl, Refused-closed c g e r)
    launched-Fine (g, ok s) no_certs r =
        if_elim Fine (not (is_empty c.metrics_plain_addr) && not y.metrics_listened) _ _
          (λ _. (refl, refl))
          (λ _. record {
            config = c;
            configured = configured;
            no_certs = no_certs;
            conn = refl;
            started = r;
          })

    prepared-Fine : Fine (prepared y h c)
    unfolding prepared
    prepared-Fine =
        if_elim Fine y.gen_certs _ _ (λ gen. generated-Fine gen)
          (λ no_certs.
            if_elim Fine (not y.tls_loaded) _ _ (λ _. (refl, unopened))
              (λ _.
                if_elim Fine (not y.listened) _ _ (λ _. (refl, unopened))
                  (λ _.
                    launched-Fine (new_server y.system (server_options c) h) no_certs (
                      new_server-Ends y.system (server_options c) entries listed readable small
                        h))))

  -- The start of the server command, on a host whose transport is not open, where the listing of the upload
  -- directory is read, no `Info` fails and the sizes sum to an int64. It ends in an error, or behind
  -- `--gen-certs`, where `GenerateLocal` succeeded and the disk holds the files that it left and no others, with
  -- neither the conn nor the transport open; or with a
  -- server on an open conn, which has started as `New` promises for the options of its configuration.
  pub start_server-StartEnds : StartEnds y path flags entries h (start_server y path flags h)
  unfolding start_server from_config
  start_server-StartEnds = elim (Result-cases (configure_server y path flags)) [
    | inr (e, failed) ↦ subst (λ r. Fine (from_config y h r)) (sym failed) (refl, unopened)
    | inl (c, fine) ↦ subst (λ r. Fine (from_config y h r)) (sym fine) (prepared-Fine c fine)
  ]
