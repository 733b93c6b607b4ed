-- ===== src/ClientCommand/Starts.antt =====
-- A client that is configured soundly starts its role.
use quixiot.Prelude.{
  ◌≡◌, ◌⊎◌, inl, inr, refl, true, false, [], ◌∷◌, Bytes, some, is_empty, if_elim, Bool-cases,
  Result, ok,
}
use quixiot.Prelude.Int.{pos, leb_ℤ}
use quixiot.Prelude.Strings.{codes, same_bytes}
use quixiot.UploadPath.{check_uploader}
use quixiot.Roles.Stamps.{check_poller, check_publisher, check_subscriber}
use quixiot.ClientCommand.{
  ClientConfig, handle_config, first_non_empty, split_list, CommandError, Started, poller_of,
  uploader_of, publisher_of, subscriber_of, pub_sub, start_role, passes, check_started,
  starts_poller, starts_uploader, starts_publisher, starts_subscriber, starts_mixed,
}

-- What the roles ask of a configuration.
pub record IsRunnable (c : ClientConfig) : Type 0 where
  pub has_id : is_empty c.client_id ≡ false
  pub polls : leb_ℤ (pos 1) c.poll_interval ≡ true
  pub uploads : leb_ℤ (pos 1) c.upload_interval ≡ true
  pub sized : leb_ℤ (pos 0) c.upload_size ≡ true
  pub reports : leb_ℤ (pos 1) c.telemetry_interval ≡ true
  pub commands : leb_ℤ (pos 1) c.command_interval ≡ true
  pub pays : leb_ℤ (pos 1) c.pub_sub_payload_size ≡ true

abbrev pub IsRole : Bytes → Type 0
IsRole role =
    (same_bytes role (codes "poller") ≡ true)
    ⊎ (same_bytes role (codes "uploader") ≡ true)
    ⊎ (same_bytes role (codes "publisher") ≡ true)
    ⊎ (same_bytes role (codes "subscriber") ≡ true)
    ⊎ (same_bytes role (codes "mixed") ≡ true)

filled : (a b : Bytes) → is_empty b ≡ false → is_empty (first_non_empty a b) ≡ false
unfolding first_non_empty
filled [] b h = h
filled (x ∷ a) b h = refl

none_of :
    (role : Bytes)
    → IsRole role
    → same_bytes role (codes "poller") ≡ false
    → same_bytes role (codes "uploader") ≡ false
    → same_bytes role (codes "publisher") ≡ false
    → same_bytes role (codes "subscriber") ≡ false
    → same_bytes role (codes "mixed") ≡ false
    → ⊥
none_of r0 (inl r) a b c d e = cc
none_of r0 (inr (inl r)) a b c d e = cc
none_of r0 (inr (inr (inl r))) a b c d e = cc
none_of r0 (inr (inr (inr (inl r)))) a b c d e = cc
none_of r0 (inr (inr (inr (inr r)))) a b c d e = cc

-- The role of what was started.
pub role_name : Started → Bytes
role_name (starts_poller p) = codes "poller"
role_name (starts_uploader u) = codes "uploader"
role_name (starts_publisher p) = codes "publisher"
role_name (starts_subscriber s) = codes "subscriber"
role_name (starts_mixed p u q s) = codes "mixed"

module _ (c : ClientConfig) (h : IsRunnable c) where
  poller_passes : passes (check_poller (poller_of c)) ≡ true
  unfolding check_poller poller_of passes
  poller_passes = simp (h.has_id, h.polls)

  uploader_passes : passes (check_uploader (uploader_of c)) ≡ true
  unfolding check_uploader uploader_of passes
  uploader_passes = simp (h.has_id, h.uploads, h.sized)

  topics_some :
      (is_empty (first_non_empty c.telemetry_topic (handle_config c.client_id).telemetry_topic)
        ≡ false)
      × (is_empty (first_non_empty c.command_topic (handle_config c.client_id).command_topic)
          ≡ false)
  unfolding first_non_empty handle_config
  topics_some = (filled c.telemetry_topic _ refl, filled c.command_topic _ refl)

  publisher_passes : passes (check_publisher (publisher_of c (handle_config c.client_id))) ≡ true
  unfolding check_publisher publisher_of passes
  publisher_passes = simp (topics_some.0, topics_some.1, h.reports, h.commands, h.pays)

  subscriber_passes : passes (check_subscriber (subscriber_of c (handle_config c.client_id))) ≡ true
  unfolding check_subscriber subscriber_of passes
  subscriber_passes = elim (Bool-cases (is_empty (split_list c.subscribe_topics))) [
    | inl e ↦ simp e
    | inr e ↦ simp e
  ]

  abbrev Starts : Result CommandError Started → Type 0
  Starts r =
      (s : Started) × (r ≡ ok s)
      × (same_bytes c.role (role_name s) ≡ true)
      × (check_started s ≡ true)

  -- With one of the five roles, an ID, intervals and a payload size that are positive and an upload size
  -- that is not negative, a client that the server answers and that can connect starts the role that it
  -- names, and no other, and the checks of the role's `Run` pass, whatever topics are set or left out.
  pub start_role_starts :
      IsRole c.role
      → (s : Started) × (start_role c (some (handle_config c.client_id)) true ≡ ok s)
        × (same_bytes c.role (role_name s) ≡ true)
        × (check_started s ≡ true)
  unfolding role_name start_role check_started pub_sub
  start_role_starts role =
      let d = handle_config c.client_id in
      if_elim Starts (same_bytes c.role (codes "poller")) _ _
        (λ e1. (starts_poller (poller_of c), refl, e1, poller_passes))
        (λ e1.
          if_elim Starts (same_bytes c.role (codes "uploader")) _ _
            (λ e2. (starts_uploader (uploader_of c), refl, e2, uploader_passes))
            (λ e2.
              if_elim Starts (same_bytes c.role (codes "publisher")) _ _
                (λ e3. (starts_publisher (publisher_of c d), refl, e3, publisher_passes))
                (λ e3.
                  if_elim Starts (same_bytes c.role (codes "subscriber")) _ _
                    (λ e4. (starts_subscriber (subscriber_of c d), refl, e4, subscriber_passes))
                    (λ e4.
                      if_elim Starts (same_bytes c.role (codes "mixed")) _ _
                        (λ e5. (
                          starts_mixed (poller_of c) (uploader_of c) (publisher_of c d)
                              (subscriber_of c d),
                          refl,
                          e5,
                          simp
                              (poller_passes, uploader_passes, publisher_passes, subscriber_passes),
                        ))
                        (λ e5. absurd (none_of c.role role e1 e2 e3 e4 e5))))))
