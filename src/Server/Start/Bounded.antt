-- ===== src/Server/Start/Bounded.antt =====
-- How `New` ends.
use quixiot.Prelude.{
  if_elim, ℕ, ◌+◌, ◌^◌, ◌<◌, ◌≤◌, ◌≡◌, refl, sym, ap, subst, ◌∙◌, ◌⊎◌, inl, inr, true, false, List,
  ◌++◌, Option, none, some, is_empty, ◌==◌, Bool-cases, Option-cases, Result, ok, err, arith,
}
use quixiot.Prelude.Int.{ℤ, pos, negsuc, leb_ℤ}
use quixiot.Prelude.Strings.{codes}
use quixiot.Upload.{DirEntry, UploadFile, PruneResult, PruneError, sort_by_age, prune_dir, start}
use quixiot.Upload.Pruning.{
  bytes_of, regulars, Readable, evictable, Prunes, Needed, prune_dir-Prunes,
}
use quixiot.Upload.Serving.{Disk, without_gone}
use quixiot.Server.Routes.{Server}
use quixiot.Server.Start.{
  Options, System, ServerError, no_packet_conn, no_tls_config, negative_max_bytes, create_dir,
  listen_early, prune_upload_dir, Host, max_bytes, max_bytes_of, upload_dir_of, server_of,
  check_options, prepared, pruned, listen, new_server,
}

max_bytes_lem :
    (n : ℤ) → leb_ℤ (pos 0) n ≡ true → (0 < max_bytes n) × ((pos (max_bytes n) ≡ n) ⊎ (n ≡ pos 0))
unfolding max_bytes
max_bytes_lem (negsuc n) h = ground (arith, h)
max_bytes_lem (pos n) h = elim (Bool-cases (n == 0)) [
  | inl e ↦ rw e (omega arith, inr (ground (arith, e)))
  | inr e ↦ rw e (ground (arith, e), inl refl)
]

check_options_cases :
    (o : Options)
    → ((check_options o ≡ ok tt)
        × (o.packet_conn ≡ true)
        × (o.tls_config ≡ true)
        × (leb_ℤ (pos 0) o.upload_max_bytes ≡ true))
      ⊎ ((check_options o ≡ err no_packet_conn) × (o.packet_conn ≡ false))
      ⊎ ((check_options o ≡ err no_tls_config) × (o.tls_config ≡ false))
      ⊎ ((check_options o ≡ err negative_max_bytes) × (leb_ℤ (pos 0) o.upload_max_bytes ≡ false))
unfolding check_options
check_options_cases o = elim (Bool-cases o.packet_conn) [
  | inr e ↦ inr (inl (simp e, e))
  | inl c ↦ elim (Bool-cases o.tls_config) [
    | inr e ↦ inr (inr (inl (simp (c, e), e)))
    | inl t ↦ elim (Bool-cases (leb_ℤ (pos 0) o.upload_max_bytes)) [
      | inr e ↦ inr (inr (inr (simp (c, t, e), e)))
      | inl b ↦ inl (simp (c, t, b), c, t, b)
    ]
  ]
]

module _ (y : System) (o : Options) where
  -- The pruning at the start.
  abbrev pub start_pruning : PruneResult × Option PruneError
  start_pruning = prune_dir y.remove (max_bytes_of o) (codes ".") y.listing

  -- The server `s` has started on the host `g`, over the disk `d`.
  pub record Started (entries : List DirEntry) (d : Disk) (g : Host) (s : Server) : Type 0 where
    pub conn : (o.packet_conn ≡ true) × (o.tls_config ≡ true)
    pub bound : 0 < s.uploads.max_storage_bytes
    pub asked :
        (pos s.uploads.max_storage_bytes ≡ o.upload_max_bytes) ⊎ (o.upload_max_bytes ≡ pos 0)
    pub dir : is_empty s.uploads.dir ≡ false
    pub version : is_empty s.version ≡ false
    pub transport : g.transport ≡ true
    pub disk : g.disk ≡ without_gone start_pruning.0.gone d
    pub oldest_first :
        (left : List UploadFile) × (evictable (codes ".") (sort_by_age (regulars entries))
          ≡ start_pruning.0.gone ++ left)
    pub fits :
        bytes_of (regulars entries) ≤ s.uploads.max_storage_bytes + bytes_of start_pruning.0.gone
    pub needed :
        Needed s.uploads.max_storage_bytes (bytes_of (regulars entries)) start_pruning.0.gone

  -- Why the server has not started, and what was done before that.
  abbrev pub Refused : Disk → Host → Host → ServerError → Type 0
  Refused d h g no_packet_conn = (o.packet_conn ≡ false) × (g ≡ h)
  Refused d h g no_tls_config = (o.tls_config ≡ false) × (g ≡ h)
  Refused d h g negative_max_bytes = (leb_ℤ (pos 0) o.upload_max_bytes ≡ false) × (g ≡ h)
  Refused d h g create_dir = (y.dir_made ≡ false) × (g ≡ h)
  Refused d h g (prune_upload_dir e) =
      (start_pruning.1 ≡ some e)
      × (g.transport ≡ h.transport)
      × (g.disk ≡ without_gone start_pruning.0.gone d)
  Refused d h g listen_early =
      (y.listens ≡ false) × (g.transport ≡ false) × (g.disk ≡ without_gone start_pruning.0.gone d)

  abbrev pub Ends : List DirEntry → Host → Host × Result ServerError Server → Type 0
  Ends entries h (g, ok s) = Started entries h.disk g s
  Ends entries h (g, err e) = Refused h.disk h g e

  dir_lem : is_empty (upload_dir_of o) ≡ false
  unfolding upload_dir_of
  dir_lem = elim (Bool-cases (is_empty o.upload_dir)) [ inl e ↦ rw e refl | inr e ↦ rw e e ]

  version_lem : is_empty (server_of y o).version ≡ false
  unfolding server_of
  version_lem = elim (Bool-cases (is_empty o.version)) [ inl e ↦ rw e refl | inr e ↦ rw e e ]

  module _ (entries : List DirEntry) (listed : y.listing ≡ some entries)
      (readable : Readable entries) (small : bytes_of (regulars entries) < 2 ^ 63) where
    abbrev sum : ℕ
    sum = bytes_of (regulars entries)

    pruning :
        0 < max_bytes_of o
        → Prunes y.remove
            (max_bytes_of o)
            (codes ".")
            (sort_by_age (regulars entries))
            (start y.remove (max_bytes_of o) (codes ".") sum)
            start_pruning.0
            start_pruning.1
    pruning positive =
        rw listed
          (prune_dir-Prunes y.remove (max_bytes_of o) (codes ".") entries positive readable small).3

    start-Started :
        (h : Host)
        → o.packet_conn ≡ true
        → o.tls_config ≡ true
        → leb_ℤ (pos 0) o.upload_max_bytes ≡ true
        → start_pruning.1 ≡ none
        → Started entries h.disk
            (record { disk = without_gone start_pruning.0.gone h.disk; transport = true })
            (server_of y o)
    unfolding server_of max_bytes_of
    start-Started h conn tls bound fine =
        let (positive, asked) = max_bytes_lem o.upload_max_bytes bound in
        let p = pruning positive in
        let gone : start_pruning.0.gone ≡ p.evicted = p.gone in
        record {
          conn = (conn, tls);
          bound = positive;
          asked = asked;
          dir = dir_lem;
          version = version_lem;
          transport = refl;
          disk = refl;
          oldest_first = (p.left, p.oldest_first ∙ ap (λ xs. xs ++ p.left) (sym gone));
          fits = omega (arith, p.remaining, p.under_cap fine, ap bytes_of gone);
          needed = subst (λ xs. Needed (max_bytes o.upload_max_bytes) sum xs) (sym gone) p.needed;
        }

    listen-Ends :
        (h : Host)
        → o.packet_conn ≡ true
        → o.tls_config ≡ true
        → leb_ℤ (pos 0) o.upload_max_bytes ≡ true
        → start_pruning.1 ≡ none
        → Ends entries h (listen y o (record h { disk = without_gone start_pruning.0.gone h.disk }))
    unfolding listen
    listen-Ends h conn tls bound fine =
        if_elim (Ends entries h) y.listens _ _ (λ e. start-Started h conn tls bound fine)
          (λ e. (e, refl, refl))

    pruned-Ends :
        (h : Host)
        → o.packet_conn ≡ true
        → o.tls_config ≡ true
        → leb_ℤ (pos 0) o.upload_max_bytes ≡ true
        → Ends entries h (pruned y o h start_pruning)
    unfolding pruned
    pruned-Ends h conn tls bound = elim (Option-cases start_pruning.1) [
      | inl fine ↦ rw (fine, pruned) (listen-Ends h conn tls bound fine)
      | inr (e, failed) ↦ rw (failed, pruned) (failed, refl, refl)
    ]

    made-Ends :
        (h : Host)
        → o.packet_conn ≡ true
        → o.tls_config ≡ true
        → leb_ℤ (pos 0) o.upload_max_bytes ≡ true
        → Ends entries h (prepared y o h (ok tt))
    unfolding prepared
    made-Ends h conn tls bound =
        if_elim (Ends entries h) y.dir_made (pruned y o h start_pruning) (h, err create_dir)
          (λ _. pruned-Ends h conn tls bound) (λ e. (e, refl))

    -- `New` ends in one of these ways, where the listing of the upload directory is read, no `Info` fails and
    -- the sizes sum to an int64. A server that started has its packet conn and TLS configuration, a bound
    -- above 0, the one that was asked for if that was not 0, and a directory and a version that are not
    -- empty. The transport is open; of the regular files, in the order of age, the first were removed, each
    -- while more than the bound was left, so that the others fit the bound of the upload handler. An error
    -- has its cause; one of the options or of the directory leaves the host as it was, the other two come
    -- behind the pruning, and if the listener fails, the transport is closed.
    pub new_server-Ends : (h : Host) → Ends entries h (new_server y o h)
    unfolding new_server prepared
    new_server-Ends h = elim (check_options_cases o) [
      | inl (e, conn, tls, bound) ↦
          subst (λ r. Ends entries h (prepared y o h r)) (sym e) (made-Ends h conn tls bound)
      | inr (inl (e, c)) ↦ subst (λ r. Ends entries h (prepared y o h r)) (sym e) (c, refl)
      | inr (inr (inl (e, c))) ↦ subst (λ r. Ends entries h (prepared y o h r)) (sym e) (c, refl)
      | inr (inr (inr (e, c))) ↦ subst (λ r. Ends entries h (prepared y o h r)) (sym e) (c, refl)
    ]
