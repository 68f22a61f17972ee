-- ===== src/Api/Settings/Saved.antt =====
-- What internal/api/settings.go leaves in memory and in config.yaml.
use nx_iio_t_gateway_max_gat.Shared.{
  ◌≡◌, ◌⊎◌, refl, sym, ap, subst, ◌∙◌, inl, inr, Bool, true, false, not, ◌||◌, [], Option, none,
  some, Bool-cases, Option-cases, trim_space, trim_space_again, contains_any,
}
use nx_iio_t_gateway_max_gat.Queue.Codec.Names.{bytes_of, same_bytes}
use nx_iio_t_gateway_max_gat.Config.{Text, MqttConfig, Config, or_text}
use nx_iio_t_gateway_max_gat.Api.Settings.{
  Outside, SettingsDto, Refusal, bad_broker, bad_transport, no_connection, bad_ntp_server,
  no_config_path, not_written, drop_prefix, white, normalize_ntp_server, Kept, normalize_broker_url,
  test_mqtt_connect, new_mqtt, assign_identity, assign_rest, write_config, commit, save_enabled,
  submit, save_settings,
}

ntp_plain : (raw ntp : Text) → normalize_ntp_server raw ≡ some ntp → contains_any white ntp ≡ false
unfolding normalize_ntp_server contains_any
ntp_plain raw ntp h = elim (Bool-cases (same_bytes (trim_space raw) [])) [
  | inl blank ↦ let e : [] ≡ ntp = cc (rw (blank, normalize_ntp_server) at h) in rw (sym e) refl
  | inr texted ↦ elim (Bool-cases (contains_any white (drop_prefix (trim_space raw)))) [
    | inl spaced ↦ cc (rw (texted, normalize_ntp_server, spaced) at h)
    | inr plain ↦
        let e : drop_prefix (trim_space raw) ≡ ntp =
          cc (rw (texted, normalize_ntp_server, plain) at h) in
        rw (sym e) plain
  ]
]

module _ (env : Outside) where
  -- What was saved: the file holds what is in memory, which is what was submitted.
  pub record IsSaved (dto : SettingsDto) (mqtt : MqttConfig) (k : Kept) : Type 0 where
    pub on_disk : k.file ≡ some k.cfg
    pub identity : k.cfg.gateway ≡ dto.gateway
    pub switch : k.cfg.disabled ≡ not dto.enabled
    pub transport : k.cfg.forwarder.transport ≡ dto.transport
    pub broker : k.cfg.mqtt ≡ mqtt
    pub plain_ntp : contains_any white k.cfg.time.ntp_server ≡ false

  commit-IsSaved :
      (has_path : Bool) (dto : SettingsDto) (mqtt : MqttConfig) (k : Kept)
      → (commit env has_path dto mqtt k).1 ≡ none
      → IsSaved dto mqtt (commit env has_path dto mqtt k).0
  unfolding commit write_config assign_identity assign_rest
  commit-IsSaved false dto mqtt k h = elim (Option-cases (normalize_ntp_server dto.ntp_server)) [
    | inl spaced ↦ cc (rw (spaced, commit) at h)
    | inr (ntp, plain) ↦ cc (rw (plain, commit) at h)
  ]
  commit-IsSaved true dto mqtt k h = elim (Option-cases (normalize_ntp_server dto.ntp_server)) [
    | inl spaced ↦ cc (rw (spaced, commit) at h)
    | inr (ntp, plain) ↦
        let c = assign_rest env dto ntp (assign_identity env dto mqtt k.cfg) in
        elim (Bool-cases (env.writes c)) [
          | inr broke ↦ cc (rw (plain, commit, broke) at h)
          | inl wrote ↦
              rw (plain, commit, wrote)
                (record {
                  on_disk = refl;
                  identity = refl;
                  switch = refl;
                  transport = refl;
                  broker = refl;
                  plain_ntp = ntp_plain dto.ntp_server ntp plain;
                })
        ]
  ]

  broker_plain :
      (raw url : Text)
      → normalize_broker_url env raw ≡ some url
      → (env.has_host url ≡ true) × (url ≡ trim_space raw)
  unfolding normalize_broker_url
  broker_plain raw url h = elim (Bool-cases (same_bytes (trim_space raw) [])) [
    | inl blank ↦ cc (rw (blank, normalize_broker_url) at h)
    | inr texted ↦ elim (Bool-cases (env.has_host (trim_space raw))) [
      | inr bad ↦ cc (rw (texted, normalize_broker_url, bad) at h)
      | inl good ↦
          let e : trim_space raw ≡ url = cc (rw (texted, normalize_broker_url, good) at h) in
          (rw (sym e) good, sym e)
    ]
  ]

  -- The broker of a configuration that forwards: its URL has a host and no space at its ends, and
  -- with the MQTT transport a connection with these settings, under another client ID, has worked.
  pub record IsReachable (c : Config) : Type 0 where
    pub named : env.has_host c.mqtt.broker_url ≡ true
    pub trimmed : trim_space c.mqtt.broker_url ≡ c.mqtt.broker_url
    pub tested : test_mqtt_connect env c.mqtt c.forwarder.transport ≡ true

  abbrev url_of : SettingsDto → MqttConfig → Text → MqttConfig
  url_of dto m url = new_mqtt env url dto m

  saved-IsReachable :
      (dto : SettingsDto) (k k' : Kept) (url : Text)
      → normalize_broker_url env dto.broker_url ≡ some url
      → test_mqtt_connect env (url_of dto k.cfg.mqtt url) dto.transport ≡ true
      → IsSaved dto (url_of dto k.cfg.mqtt url) k'
      → IsReachable k'.cfg
  unfolding new_mqtt
  saved-IsReachable dto k k' url e tested v =
      let (named, is_trim) = broker_plain dto.broker_url url e in
      record {
        named = rw v.broker named;
        trimmed = rw (v.broker, is_trim) (trim_space_again dto.broker_url);
        tested = rw (v.broker, v.transport) tested;
      }

  abbrev IsForwarding : SettingsDto → Kept → Kept → Type 0
  IsForwarding dto k k' =
      ((url : Text) × IsSaved dto (url_of dto k.cfg.mqtt url) k') × IsReachable k'.cfg

  save_enabled-IsForwarding :
      (has_path : Bool) (dto : SettingsDto) (k : Kept)
      → (save_enabled env has_path dto k).1 ≡ none
      → IsForwarding dto k (save_enabled env has_path dto k).0
  unfolding save_enabled
  save_enabled-IsForwarding has_path dto k h =
      elim (Option-cases (normalize_broker_url env dto.broker_url)) [
        | inl bad ↦ cc (rw (bad, save_enabled) at h)
        | inr (url, good) ↦
            elim (Bool-cases (
              same_bytes dto.transport (bytes_of "http")
              || same_bytes dto.transport (bytes_of "mqtt"))) [
                | inr other ↦ cc (rw (good, save_enabled, other) at h)
                | inl known ↦
                    let m = url_of dto k.cfg.mqtt url in
                    elim (Bool-cases (test_mqtt_connect env m dto.transport)) [
                      | inr failed ↦ cc (rw (good, save_enabled, known, failed) at h)
                      | inl tested ↦
                          let committed : (commit env has_path dto m k).1 ≡ none =
                            rw (good, save_enabled, known, tested) at h in
                          let saved = commit-IsSaved has_path dto m k committed in
                          rw (good, save_enabled, known, tested)
                            ((url, saved), saved-IsReachable dto k _ url good tested saved)
                    ]
              ]
      ]

  password_kept :
      (dto : SettingsDto) (m : MqttConfig) (url : Text)
      → (url_of dto m url).password ≡ or_text dto.password m.password
  unfolding new_mqtt
  password_kept dto m url = refl

  -- What a save leaves behind that succeeds.
  pub record IsAccepted (dto : SettingsDto) (k k' : Kept) : Type 0 where
    pub written : k'.file ≡ some k'.cfg
    pub same_gateway : k'.cfg.gateway ≡ dto.gateway
    pub one_host : contains_any white k'.cfg.time.ntp_server ≡ false
    pub reachable : (k'.cfg.disabled ≡ true) ⊎ IsReachable k'.cfg
    pub password : k'.cfg.mqtt.password ≡ or_text dto.password k.cfg.mqtt.password

  saved-IsAccepted :
      (dto : SettingsDto) (k k' : Kept) (url : Text)
      → IsSaved dto (url_of dto k.cfg.mqtt url) k'
      → (k'.cfg.disabled ≡ true) ⊎ IsReachable k'.cfg
      → IsAccepted dto k k'
  saved-IsAccepted dto k k' url v reach = record {
    written = v.on_disk;
    same_gateway = v.identity;
    one_host = v.plain_ntp;
    reachable = reach;
    password = rw v.broker (password_kept dto k.cfg.mqtt url);
  }

  submit-IsAccepted :
      (on has_path : Bool) (dto : SettingsDto) (k : Kept)
      → dto.enabled ≡ on
      → (submit env on has_path dto k).1 ≡ none
      → IsAccepted dto k (submit env on has_path dto k).0
  unfolding submit
  submit-IsAccepted true has_path dto k on h =
      let (saved, reach) = save_enabled-IsForwarding has_path dto k h in
      saved-IsAccepted dto k _ saved.0 saved.1 (inr reach)
  submit-IsAccepted false has_path dto k off h =
      let url = trim_space dto.broker_url in
      let saved = commit-IsSaved has_path dto (url_of dto k.cfg.mqtt url) k h in
      saved-IsAccepted dto k _ url saved (inl (saved.switch ∙ ap not off))

  -- A save that succeeds has written to the file just what is in memory: the submitted gateway, an
  -- NTP server without white space, and an empty password field keeps the password. While the
  -- gateway forwards, the broker's URL has a host and no space at its ends, and with MQTT a test
  -- connection with these settings, under a client ID of its own, has worked.
  pub save_settings-IsAccepted :
      (has_path : Bool) (dto : SettingsDto) (k : Kept)
      → (save_settings env has_path (some dto) k).1 ≡ none
      → IsAccepted dto k (save_settings env has_path (some dto) k).0
  unfolding save_settings
  save_settings-IsAccepted has_path dto k h = elim (Bool-cases (same_bytes dto.gateway.id [])) [
    | inl blank ↦ cc (rw (blank, save_settings) at h)
    | inr named ↦
        rw (named, save_settings)
          (submit-IsAccepted dto.enabled has_path dto k refl (rw (named, save_settings) at h))
  ]

  -- The errors that come behind the first assignments.
  pub data IsLate : Refusal → Type 0 where
    ntp : IsLate bad_ntp_server
    path : IsLate no_config_path
    disk : IsLate not_written

  abbrev IsKept : Kept → Kept × Option Refusal → Type 0
  IsKept k out =
      (r : Refusal)
      → out.1 ≡ some r
      → ((out.0.file ≡ k.file) ⊎ (r ≡ not_written)) × ((out.0 ≡ k) ⊎ IsLate r)

  early : (k : Kept) (r : Refusal) → IsKept k (k, some r)
  early k r r' h = (inl refl, inl refl)

  write_config-IsKept :
      (has_path : Bool) (k : Kept) (c : Config)
      → IsKept k (write_config env has_path (record k { cfg = c }))
  unfolding write_config
  write_config-IsKept false k c r h = (inl refl, inr (subst IsLate (cc h) path))
  write_config-IsKept true k c r h = elim (Bool-cases (env.writes c)) [
    | inl wrote ↦ cc (rw (wrote, write_config) at h)
    | inr broke ↦
        let e : not_written ≡ r = cc (rw (broke, write_config) at h) in
        rw (broke, write_config) (inr (sym e), inr (subst IsLate e disk))
  ]

  commit-IsKept :
      (has_path : Bool) (dto : SettingsDto) (mqtt : MqttConfig) (k : Kept)
      → IsKept k (commit env has_path dto mqtt k)
  unfolding commit
  commit-IsKept has_path dto mqtt k r h =
      elim (Option-cases (normalize_ntp_server dto.ntp_server)) [
        | inl spaced ↦
            let e : bad_ntp_server ≡ r = cc (rw (spaced, commit) at h) in
            rw (spaced, commit) (inl refl, inr (subst IsLate e ntp))
        | inr (server, plain) ↦
            rw (plain, commit) (write_config-IsKept has_path k _ r (rw (plain, commit) at h))
      ]

  save_enabled-IsKept :
      (has_path : Bool) (dto : SettingsDto) (k : Kept) → IsKept k (save_enabled env has_path dto k)
  unfolding save_enabled
  save_enabled-IsKept has_path dto k =
      elim (Option-cases (normalize_broker_url env dto.broker_url)) [
        | inl bad ↦ rw (bad, save_enabled) (early k bad_broker)
        | inr (url, good) ↦
            elim (Bool-cases (
              same_bytes dto.transport (bytes_of "http")
              || same_bytes dto.transport (bytes_of "mqtt"))) [
                | inr other ↦ rw (good, save_enabled, other) (early k bad_transport)
                | inl known ↦
                    let m = url_of dto k.cfg.mqtt url in
                    elim (Bool-cases (test_mqtt_connect env m dto.transport)) [
                      | inr failed ↦ rw (good, save_enabled, known, failed) (early k no_connection)
                      | inl tested ↦
                          rw (good, save_enabled, known, tested) (commit-IsKept has_path dto m k)
                    ]
              ]
      ]

  submit-IsKept :
      (on has_path : Bool) (dto : SettingsDto) (k : Kept) → IsKept k (submit env on has_path dto k)
  unfolding submit
  submit-IsKept true has_path dto k = save_enabled-IsKept has_path dto k
  submit-IsKept false has_path dto k = commit-IsKept has_path dto _ k

  -- A save that is refused leaves the file as it was, unless the refusal is that the file could not
  -- be written. It leaves the configuration in memory as it was, unless the refusal is about the NTP
  -- server, the unknown path of the file, or its writing.
  pub save_settings-IsLate :
      (has_path : Bool) (body : Option SettingsDto) (k : Kept) (r : Refusal)
      → (save_settings env has_path body k).1 ≡ some r
      → let after = (save_settings env has_path body k).0 in
        ((after.file ≡ k.file) ⊎ (r ≡ not_written)) × ((after ≡ k) ⊎ IsLate r)
  unfolding save_settings
  save_settings-IsLate has_path none k r h = (inl refl, inl refl)
  save_settings-IsLate has_path (some dto) k r h =
      elim (Bool-cases (same_bytes dto.gateway.id [])) [
        | inl blank ↦ rw (blank, save_settings) (inl refl, inl refl)
        | inr named ↦
            rw (named, save_settings)
              (submit-IsKept dto.enabled has_path dto k r (rw (named, save_settings) at h))
      ]
