-- ===== src/ServerCommand/Tests.antt =====
-- The start of the server command.
use quixiot.Prelude.{refl, true, false, List, [], ◌∷◌, none, some, arith}
use quixiot.Prelude.Int.{pos}
use quixiot.Prelude.Strings.{codes}
use quixiot.Upload.{DirEntry, UploadFile, regular, removed_now}
use quixiot.Server.Start.{Host}
use quixiot.ServerCommand.{Environment, ServerFlag, set_upload_max_bytes, start_server}
use quixiot.ServerCommand.Ends.{StartEnds, start_server-StartEnds}

abbrev kept_file : UploadFile
kept_file = record { path = codes "var/uploads/a"; size = 60; mod_time = 1 }

abbrev entries : List DirEntry
entries = regular kept_file ∷ []

abbrev environment : Environment
environment = record {
  decode = λ path c. none;
  log_opened = true;
  gen_certs = false;
  cert_dir = codes "var/certs";
  sans = codes "localhost";
  valid_for = pos 3600000000000;
  is_ip = λ san. false;
  clock = 3;
  issuing = record {
    dir_made = true;
    issued = true;
    ca_key = codes "ca";
    server_key = codes "server";
    sign = λ certificate. codes "signed";
    pem = λ i. record {
      created = true;
      mode_set = true;
      encoded = true;
      closed = true;
      renamed = true;
      mode_kept = true;
    };
  };
  mode = λ path. 420;
  tls_loaded = true;
  listened = true;
  system = record {
    now = 3;
    dir_made = true;
    listing = some entries;
    remove = λ path. removed_now;
    listens = true;
  };
  metrics_listened = true;
}

abbrev host : Host
host = record { disk = record { file = λ path. none; temp = none; stored = [] }; transport = false }

abbrev flags : List ServerFlag
flags = set_upload_max_bytes (pos 50) ∷ []

start_server-StartEnds_example :
    StartEnds environment [] flags entries host (start_server environment [] flags host)
start_server-StartEnds_example =
    start_server-StartEnds environment [] flags entries host refl tt (omega arith) refl
