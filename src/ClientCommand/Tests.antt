-- ===== src/ClientCommand/Tests.antt =====
-- Configurations at concrete inputs, and the theorem on them.
use quixiot.Prelude.{◌≡◌, refl, true, [], ◌∷◌, none, some, inr, ok, err}
use quixiot.Prelude.Strings.{codes, same_bytes, split_at}
use quixiot.ClientCommand.{
  split_list, ClientConfig, client_defaults, configure, unsupported_role, config_file,
  set_client_id, Started, start_role, check_started, handle_config,
}
use quixiot.ClientCommand.Starts.{IsRunnable, IsRole, role_name, start_role_starts}

-- The file says one ID and the flags another, and the flags win.
configured_run :
    (configure
        (λ _ c. some (record c { client_id = codes "a"; role = codes "mixed" }))
        (codes "c.yaml")
        (set_client_id (codes "b") ∷ [])
      ≡ ok (record client_defaults { client_id = codes "b"; role = codes "mixed" }))
    × (configure (λ _ c. none) (codes "c.yaml") [] ≡ err config_file)
    × (configure (λ _ c. none) [] [] ≡ ok client_defaults)
unfolding configure
configured_run = (refl, refl, refl)

unsupported_run :
    start_role (record client_defaults { role = codes "Mixed" }) none true ≡ err unsupported_role
unfolding start_role client_defaults same_bytes
unsupported_run = refl

abbrev mixed : ClientConfig
unfolding client_defaults
mixed = record client_defaults { role = codes "mixed" }

mixed-IsRunnable : IsRunnable mixed
unfolding client_defaults
mixed-IsRunnable = record {
  has_id = refl;
  polls = refl;
  uploads = refl;
  sized = refl;
  reports = refl;
  commands = refl;
  pays = refl;
}

-- A no-break space goes, and a letter whose last byte is 160 stays.
topics_run :
    split_list (194 ∷ 160 ∷ 97 ∷ 32 ∷ 44 ∷ 32 ∷ 44 ∷ 98 ∷ 195 ∷ 160 ∷ [])
    ≡ (97 ∷ []) ∷ (98 ∷ 195 ∷ 160 ∷ []) ∷ []
unfolding split_list split_at
topics_run = refl

mixed_role : IsRole mixed.role
unfolding client_defaults same_bytes
mixed_role = inr (inr (inr (inr refl)))

start_role_starts_example :
    (s : Started) × (start_role mixed (some (handle_config mixed.client_id)) true ≡ ok s)
    × (same_bytes mixed.role (role_name s) ≡ true)
    × (check_started s ≡ true)
start_role_starts_example = start_role_starts mixed mixed-IsRunnable mixed_role
