-- ===== src/Certs.antt =====
-- internal/tlsutil/tlsutil.go: what `GenerateLocal` asks of its arguments, the certificates that it signs and
-- the files that it writes, with `splitSANs` of cmd/server/main.go. The keys, the signatures and the DER
-- bytes are crypto/x509's: they are parameters. Times are nanoseconds.
pub mod Validity
pub mod Writing
mod Tests
use quixiot.Prelude.{
  ℕ, suc, ◌+◌, ◌-◌, ◌*◌, ◌%◌, ◌^◌, Bool, true, false, not, List, [], ◌∷◌, ◌++◌, Bytes, Option, none,
  some, is_empty, ltb, leb, ◌==◌, if◌then◌else◌, map, Result, ok, err, guard, ◌>>=◌, ◌>>◌,
}
use quixiot.Prelude.Int.{ℤ, pos_part, pos, negsuc, ◌+ℤ◌, ◌-ℤ◌, leb_ℤ, ltb_ℤ}
use quixiot.Prelude.Strings.{codes, same_bytes, update, split_at}
use quixiot.Upload.{trim_space}

abbrev pub hour : ℕ
hour = 3600000000000

-- `10 * 365 * 24 * time.Hour`
abbrev pub ten_years : ℕ
ten_years = 10 * 365 * 24 * hour

-- The int64 that a bit pattern below 2^64 stands for.
abbrev signed : ℕ → ℤ
signed n = if ltb n (2 ^ 63) then pos n else negsuc (2 ^ 64 - 1 - n)

-- `10 * validFor` in int64, capped; the validity has passed the test for being positive.
unfoldable pub ca_valid : ℕ → ℤ
ca_valid valid_for =
    let ten = signed (10 * valid_for % 2 ^ 64) in
    if ltb_ℤ (pos ten_years) ten then pos ten_years else ten

-- `normalizeSANs`, on runes: the names without the space around them, but for those that are blank.
pub trimmed_sans : List (List ℕ) → List (List ℕ)
trimmed_sans [] = []
trimmed_sans (san ∷ rest) =
    let more = trimmed_sans rest in
    let name = trim_space san in if is_empty name then more else name ∷ more

-- `splitSANs`
pub split_sans : List ℕ → List (List ℕ)
unfolding trimmed_sans
split_sans raw = trimmed_sans (split_at 44 [] raw)

pub data CertError : Type 0 where
  bad_validity no_san mkdir_failed issue_failed write_failed : CertError

pub normalize_sans : List (List ℕ) → Result CertError (List (List ℕ))
unfolding trimmed_sans
normalize_sans sans = do guard (not (is_empty (trimmed_sans sans))) no_san; ok (trimmed_sans sans)

-- What the templates say of a certificate.
pub record Certificate : Type 0 where
  pub not_before : ℤ
  pub not_after : ℤ
  pub is_ca : Bool
  pub dns_names : List (List ℕ)
  pub ip_addresses : List (List ℕ)

pub ca_template : ℕ → ℕ → Certificate
ca_template now valid_for = record {
  not_before = pos now -ℤ pos hour;
  not_after = pos now +ℤ ca_valid valid_for;
  is_ca = true;
  dns_names = [];
  ip_addresses = [];
}

-- The names that `net.ParseIP` reads, and those that it does not.
pub select : (List ℕ → Bool) → Bool → List (List ℕ) → List (List ℕ)
select is_ip which [] = []
select is_ip which (name ∷ rest) =
    let more = select is_ip which rest in
    if is_ip name
    then (if which then name ∷ more else more)
    else (if which then more else name ∷ more)

pub leaf_template : (List ℕ → Bool) → ℕ → ℕ → List (List ℕ) → Certificate
unfolding select
leaf_template is_ip now valid_for sans = record {
  not_before = pos now -ℤ pos hour;
  not_after = pos (now + valid_for);
  is_ca = false;
  dns_names = select is_ip false sans;
  ip_addresses = select is_ip true sans;
}

-- A file with its mode. `temps` counts the temporary files.
pub record Files : Type 0 where
  pub file : Bytes → Option (Bytes × ℕ)
  pub temps : ℕ

-- If each call of `writePEM` succeeds. The removal of its temporary file does.
pub record PemAnswers : Type 0 where
  pub created : Bool
  pub mode_set : Bool
  pub encoded : Bool
  pub closed : Bool
  pub renamed : Bool
  pub mode_kept : Bool

-- `writePEM`: if it succeeds, and the files behind it. `os.Remove` of a temporary file that was renamed
-- fails, and is not looked at.
pub write_pem : PemAnswers → Bytes → Bytes → ℕ → Files → Bool × Files
write_pem a path content mode d =
    let opened = record d { temps = suc d.temps } in
    let removed : Files = record opened { temps = opened.temps - 1 } in
    let placed : Files = record {
      file = update d.file path (some (content, mode));
      temps = d.temps;
    } in
    if not a.created
    then (false, d)
    else if not a.mode_set
    then (false, removed)
    else if not a.encoded
    then (false, removed)
    else if not a.closed
    then (false, removed)
    else if not a.renamed
    then (false, removed)
    else if not a.mode_kept
    then (false, placed)
    else (true, placed)

-- `PathsIn`: `filepath.Join` of a clean directory.
abbrev pub path_in : Bytes → Bytes → Bytes
path_in dir name = dir ++ (47 ∷ name)

pub record Pem : Type 0 where
  pub path : Bytes
  pub content : Bytes
  pub mode : ℕ

-- The writes of `GenerateLocal`, up to the first that fails.
pub write_all_pem : (ℕ → PemAnswers) → ℕ → List Pem → Files → Bool × Files
unfolding write_pem
write_all_pem a i [] d = (true, d)
write_all_pem a i (p ∷ rest) d =
    let (good, e) = write_pem (a i) p.path p.content p.mode d in
    let more = write_all_pem a (i + 1) rest e in if good then more else (false, e)

-- What the libraries answer: if the directory is made, if all keys, serials and signatures are, the keys'
-- encodings, which never fail for this curve, and the bytes that `sign` makes of a certificate.
pub record Issuing : Type 0 where
  pub dir_made : Bool
  pub issued : Bool
  pub ca_key : Bytes
  pub server_key : Bytes
  pub sign : Certificate → Bytes
  pub pem : ℕ → PemAnswers

-- The files that `GenerateLocal` writes, in order; a key is for its owner alone.
abbrev pub pem_files : (List ℕ → Bool) → Issuing → Bytes → ℕ → ℕ → List (List ℕ) → List Pem
pem_files is_ip g dir now valid_for sans =
    (record {
      path = path_in dir (codes "ca.pem");
      content = g.sign (ca_template now valid_for);
      mode = 420;
    })
    ∷ (record { path = path_in dir (codes "ca.key"); content = g.ca_key; mode = 384 })
    ∷ (record {
      path = path_in dir (codes "server.pem");
      content = g.sign (leaf_template is_ip now valid_for sans);
      mode = 420;
    })
    ∷ (record { path = path_in dir (codes "server.key"); content = g.server_key; mode = 384 })
    ∷ []

-- Before it writes: the names to sign for.
pub check_request : Issuing → ℤ → List (List ℕ) → Result CertError (List (List ℕ))
unfolding normalize_sans
check_request g valid_for sans = do
  guard (ltb_ℤ (pos 0) valid_for) bad_validity
  names ← normalize_sans sans
  guard g.dir_made mkdir_failed
  guard g.issued issue_failed
  ok names

-- `GenerateLocal`
pub generate_local :
    (List ℕ → Bool)
    → Issuing
    → Bytes
    → ℕ
    → List (List ℕ)
    → ℤ
    → Files
    → Result CertError (Unit {0}) × Files
unfolding check_request write_all_pem
generate_local is_ip g dir now sans valid_for d = elim (check_request g valid_for sans) [
  | err e ↦ (err e, d)
  | ok names ↦
      let (good, e) =
        write_all_pem g.pem 0 (pem_files is_ip g dir now (pos_part valid_for) names) d in
      (if good then ok tt else err write_failed, e)
]
