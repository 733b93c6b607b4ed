-- ===== src/Fleet.antt =====
-- cmd/fleet/main.go: the flags, the children with their ports, the targets file, and the run. What the file system
-- answers and the events that the run meets are given.
pub mod Children
pub mod Targets
mod Tests
use quixiot.Prelude.{
  ℕ, zero, suc, ◌+◌, Bool, true, false, not, ◌&&◌, ◌||◌, List, [], ◌∷◌, ◌++◌, Bytes, Option, none,
  some, is_empty, ltb, ◌==◌, if◌then◌else◌, Result, ok, err, guard, ◌>>=◌, ◌>>◌, map,
}
use quixiot.Prelude.Int.{ℤ, pos, negsuc, pos_part, leb_ℤ}
use quixiot.Prelude.Strings.{codes, same_bytes, update}
use quixiot.Roles.{digits, padded}

-- The flags that the run reads.
pub record FleetConfig : Type 0 where
  pub server_url : Bytes
  pub ca_file : Bytes
  pub role : Bytes
  pub count : ℤ
  pub stagger_ms : ℤ
  pub metrics_port_base : ℤ
  pub metrics_host : Bytes
  pub targets_file : Bytes
  pub log_level : Bytes
  pub child_log_dir : Bytes
  pub child_log_max_bytes : ℤ
  pub child_log_max_files : ℤ

pub data FleetError : Type 0 where
  bad_count bad_stagger bad_port_base child_log_dir_failed : FleetError
  mkdir_targets write_targets_tmp rename_targets : FleetError
  start_failed child_exited : Bytes → FleetError

-- The checks of `run`.
pub check_fleet : FleetConfig → Result FleetError (Unit {0})
check_fleet f = do
  guard (leb_ℤ (pos 1) f.count) bad_count
  guard (leb_ℤ (pos 0) f.stagger_ms) bad_stagger
  guard (leb_ℤ (pos 0) f.metrics_port_base && leb_ℤ f.metrics_port_base (pos 65535)) bad_port_base

pub record Child : Type 0 where
  pub id : Bytes
  pub metrics_addr : Bytes
  pub scrape_addr : Bytes

-- `%s:%d`
pub host_port : Bytes → ℕ → Bytes
host_port host port = host ++ (58 ∷ digits (suc port) port)

pub child_of : FleetConfig → ℕ → Child
unfolding host_port
child_of f i =
    let port = pos_part f.metrics_port_base + i in
    let metered = ltb 0 (pos_part f.metrics_port_base) in
    record {
      id = codes "fleet-" ++ padded i;
      metrics_addr = if metered then host_port (codes "127.0.0.1") port else [];
      scrape_addr = if metered then host_port f.metrics_host port else [];
    }

-- The loop over the children, from one on.
pub children_from : FleetConfig → ℕ → ℕ → List Child
children_from f i zero = []
children_from f i (suc n) = child_of f i ∷ children_from f (suc i) n

pub children : FleetConfig → List Child
unfolding children_from
children f = children_from f 0 (pos_part f.count)

-- `strconv.FormatInt` in decimal.
decimal : ℤ → Bytes
decimal (pos n) = digits (suc n) n
decimal (negsuc n) = 45 ∷ digits (suc (suc n)) (suc n)

-- The arguments of a child; `log_path` is `filepath.Join`.
pub args_of : (Bytes → Bytes → Bytes) → FleetConfig → Child → List Bytes
unfolding decimal
args_of log_path f c =
    codes "--server-url"
    ∷ f.server_url
    ∷ codes "--ca-file"
    ∷ f.ca_file
    ∷ codes "--client-id"
    ∷ c.id
    ∷ codes "--role"
    ∷ f.role
    ∷ codes "--metrics-addr"
    ∷ c.metrics_addr
    ∷ codes "--log-level"
    ∷ f.log_level
    ∷ (if is_empty f.child_log_dir
        then []
        else codes "--log-file"
          ∷ log_path f.child_log_dir (c.id ++ codes ".log")
          ∷ codes "--log-max-bytes"
          ∷ decimal f.child_log_max_bytes
          ∷ codes "--log-max-files"
          ∷ decimal f.child_log_max_files
          ∷ [])

-- An entry of the targets file: its address, and the label `client_id`; `job` is constant.
pub record TargetEntry : Type 0 where
  pub address : Bytes
  pub client_id : Bytes

pub entries_of : List Child → List TargetEntry
entries_of [] = []
entries_of (c ∷ rest) =
    let more = entries_of rest in
    if is_empty c.scrape_addr
    then more
    else record { address = c.scrape_addr; client_id = c.id } ∷ more

-- A file of entries in JSON, or one whose writing broke off.
pub data Contents : Type 0 where
  listed : List TargetEntry → Contents
  broken : Contents

abbrev pub Files : Type 0
Files = Bytes → Option Contents

-- If each of the calls of `writeTargetsFile` succeeds.
pub record WriteAnswers : Type 0 where
  pub dir_made : Bool
  pub written : Bool
  pub renamed : Bool

-- `writeTargetsFile`
pub write_targets_file :
    WriteAnswers → Bytes → List Child → Files → Files × Result FleetError (Unit {0})
unfolding entries_of
write_targets_file a path cs d =
    let tmp = path ++ codes ".tmp" in
    let entries = listed (entries_of cs) in
    if is_empty path
    then (d, ok tt)
    else if not a.dir_made
    then (d, err mkdir_targets)
    else if not a.written
    then (update d tmp (some broken), err write_targets_tmp)
    else if not a.renamed
    then (update d tmp (some entries), err rename_targets)
    else (update (update d path (some entries)) tmp none, ok tt)

-- How the run ends once all children are started.
pub data Ending : Type 0 where
  interrupted : Ending
  exits : Bytes → Ending

-- What the run meets: which children start, behind which of them it is interrupted, and how it ends.
pub record Events : Type 0 where
  pub log_dir_made : Bool
  pub starts : Bytes → Bool
  pub stopped_behind : Bytes → Bool
  pub ending : Ending

end_of : Ending → Result FleetError (Unit {0})
end_of interrupted = ok tt
end_of (exits id) = err (child_exited id)

-- The loop that starts the children: those started, the latest first, and the result.
pub launch : Events → List Child → List Child → List Child × Result FleetError (Unit {0})
unfolding end_of
launch e started [] = (started, end_of e.ending)
launch e started (c ∷ rest) =
    let on = launch e (c ∷ started) rest in
    if not (e.starts c.id)
    then (started, err (start_failed c.id))
    else if not (is_empty rest) && e.stopped_behind c.id
    then (c ∷ started, ok tt)
    else on

-- Behind the first writing of the targets, with the deferred one.
published :
    Events
    → WriteAnswers
    → FleetConfig
    → Files × Result FleetError (Unit {0})
    → Files × List Child × Result FleetError (Unit {0})
unfolding launch write_targets_file
published e last f (d, err failure) = (d, [], err failure)
published e last f (d, ok u) =
    let (started, result) = launch e [] (children f) in
    ((write_targets_file last f.targets_file [] d).0, started, result)

-- Behind the checks.
checked_run :
    Events
    → WriteAnswers
    → WriteAnswers
    → FleetConfig
    → Files
    → Result FleetError (Unit {0})
    → Files × List Child × Result FleetError (Unit {0})
unfolding published children
checked_run e first last f d (err failure) = (d, [], err failure)
checked_run e first last f d (ok u) =
    if not (is_empty f.child_log_dir) && not e.log_dir_made
    then (d, [], err child_log_dir_failed)
    else published e last f (write_targets_file first f.targets_file (children f) d)

-- `run`, behind the parsing of the flags and the opening of its log: the files, the children that were started, the
-- latest first, and the result.
pub run_fleet :
    Events
    → WriteAnswers
    → WriteAnswers
    → FleetConfig
    → Files
    → Files × List Child × Result FleetError (Unit {0})
unfolding checked_run check_fleet
run_fleet e first last f d = checked_run e first last f d (check_fleet f)
