-- ===== src/Tests/Startup.antt =====
-- The first start of a host.
use secnano.Prelude.{[], ◌∷◌, ◌⧺◌, ◌↔◌, String, Bool, false, ◌||◌, eqb, strip, ◌≡◌, ◌⊎◌, true}
use secnano.Types.{RegisteredGroup}
use secnano.Effect.{ok, raised}
use secnano.Db.Database.{init_database}
use secnano.Db.Groups.{unique_failed, jid_taken}
use secnano.Host.{Host}
use secnano.Wiring.{Config, Regex, needs_trigger, matches_group_trigger, ensure_main_bootstrap}
use secnano.Wiring.MainGroup.{IsBootstrapped, wanted, ensure_main_bootstrap-outcome}
use secnano.GroupFolder.{is_alnum}
use secnano.Wiring.Mentions.{IsMention, trigger_body, matches_group_trigger-IsMention}
use secnano.Wiring.Startup.{Channel, directories, start_host}
use secnano.Wiring.Started.{IsStarted, start_host-IsStarted}
use secnano.Tests.Data.{test_system, test_host, test_group}

abbrev test_config : Config
test_config = record {
  assistant_name = "Andy";
  default_main_jid = "web:main";
  default_main_folder = "main";
  default_main_name = "Main Web Chat";
  data_dir = "/srv/data";
}

abbrev fresh_host : Host
fresh_host = record test_host { db = init_database }

ensure_main_bootstrap-outcome_example :
    (jid_taken (wanted test_system test_config fresh_host) fresh_host.db ≡ true)
      × ((ensure_main_bootstrap test_system test_config fresh_host).0 ≡ raised unique_failed)
      × ((ensure_main_bootstrap test_system test_config fresh_host).1.db ≡ fresh_host.db)
    ⊎ (group : RegisteredGroup) × ((ensure_main_bootstrap test_system test_config fresh_host).0
        ≡ ok group)
      × IsBootstrapped fresh_host (ensure_main_bootstrap test_system test_config fresh_host).1 group
ensure_main_bootstrap-outcome_example =
    ensure_main_bootstrap-outcome test_system test_config fresh_host

-- ASCII letters, digits and `_` make words, and case counts.
abbrev test_regex : Regex
test_regex = record { is_word_char = λ c. is_alnum c || eqb c 95; same_char = λ c d. eqb c d }

matches_group_trigger-IsMention_example :
    (matches_group_trigger test_regex "Andy" test_group " @Andy hello" ≡ true) ↔ (
      (needs_trigger test_regex test_group.requires_trigger ≡ false)
      ⊎ IsMention test_regex (trigger_body test_regex "Andy" test_group) (strip " @Andy hello"))
matches_group_trigger-IsMention_example =
    matches_group_trigger-IsMention test_regex "Andy" test_group " @Andy hello"

abbrev web_channel : Channel
web_channel = record { name = "web"; connects = ok tt; disconnects = ok tt }

-- A channel that cannot be connected.
abbrev down_channel : Channel
down_channel = record { name = "chat"; connects = raised "refused"; disconnects = ok tt }

abbrev join_path : String → String → String
join_path path name = path ⧺ ("/" ⧺ name)

abbrev no_input : String → Bool
no_input folder = false

start_host-IsStarted_example :
    (jid_taken (wanted test_system test_config fresh_host) fresh_host.db ≡ true)
      × ((start_host test_system test_config join_path "/srv/groups" no_input web_channel
            (down_channel ∷ [])
            fresh_host).0
          ≡ raised unique_failed)
      × ((start_host test_system test_config join_path "/srv/groups" no_input web_channel
            (down_channel ∷ [])
            fresh_host).1
          ≡ directories test_system test_config join_path "/srv/groups" no_input)
      × ((start_host test_system test_config join_path "/srv/groups" no_input web_channel
            (down_channel ∷ [])
            fresh_host).2.db
          ≡ fresh_host.db)
    ⊎ ((start_host test_system test_config join_path "/srv/groups" no_input web_channel
          (down_channel ∷ [])
          fresh_host).0
        ≡ ok tt)
      × IsStarted web_channel
          (down_channel ∷ [])
          (start_host test_system test_config join_path "/srv/groups" no_input web_channel
            (down_channel ∷ [])
            fresh_host).1
          (start_host test_system test_config join_path "/srv/groups" no_input web_channel
            (down_channel ∷ [])
            fresh_host).2
start_host-IsStarted_example =
    start_host-IsStarted test_system test_config join_path "/srv/groups" no_input web_channel
      (down_channel ∷ []) fresh_host
