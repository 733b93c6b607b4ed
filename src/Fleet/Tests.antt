-- ===== src/Fleet/Tests.antt =====
-- A fleet of three children.
use quixiot.Prelude.{◌≡◌, ◌≢◌, ◌⊎◌, refl, true, false, [], none, some, get_elem?, ok, err, arith}
use quixiot.Prelude.Int.{pos}
use quixiot.Prelude.Strings.{codes, same_bytes}
use quixiot.Fleet.{
  FleetConfig, Child, children, Events, WriteAnswers, interrupted, Files, check_fleet,
  bad_port_base, run_fleet,
}
use quixiot.Fleet.Children.{IsChild, children_distinct}
use quixiot.Fleet.Targets.{Unpublished, Published, run_fleet-Ends}

-- The last port is above 65535.
abbrev fleet : FleetConfig
fleet = record {
  server_url = codes "https://localhost:4444";
  ca_file = codes "ca.pem";
  role = codes "mixed";
  count = pos 3;
  stagger_ms = pos 250;
  metrics_port_base = pos 65534;
  metrics_host = codes "host";
  targets_file = codes "t.json";
  log_level = codes "info";
  child_log_dir = [];
  child_log_max_bytes = pos 10;
  child_log_max_files = pos 2;
}

abbrev events : Events
events = record {
  log_dir_made = true;
  starts = λ id. true;
  stopped_behind = λ id. same_bytes id (codes "fleet-001");
  ending = interrupted;
}

abbrev fine : WriteAnswers
fine = record { dir_made = true; written = true; renamed = true }

abbrev full : WriteAnswers
full = record { dir_made = true; written = false; renamed = true }

abbrev no_files : Files
no_files path = none

checks_run :
    (check_fleet fleet ≡ ok tt)
    × (check_fleet (record fleet { metrics_port_base = pos 65536 }) ≡ err bad_port_base)
unfolding check_fleet
checks_run = (refl, refl)

children_distinct_example :
    (a : Child) × (b : Child) × (get_elem? (children fleet) 0 ≡ some a)
    × (get_elem? (children fleet) 2 ≡ some b)
    × IsChild fleet 0 a
    × IsChild fleet 2 b
    × (a.id ≢ b.id)
    × (a.metrics_addr ≢ b.metrics_addr)
    × (a.scrape_addr ≢ b.scrape_addr)
children_distinct_example =
    children_distinct fleet (omega arith) 0 2 (omega arith) (omega arith)
      (λ e. absurd (omega (arith, e)))

run_fleet-Ends_example :
    Unpublished fleet no_files (run_fleet events fine full fleet no_files)
    ⊎ Published full fleet (run_fleet events fine full fleet no_files)
run_fleet-Ends_example = run_fleet-Ends events fine full fleet refl no_files
