-- ===== src/Wiring/Startup.antt =====
-- `main` of secnano/main.py: how the host starts, and how it stops.
use secnano.Prelude.{String, Bool, List, [], ◌∷◌, ◌++◌, map}
use secnano.Types.{RegisteredGroup}
use secnano.Effect.{Result, ok, raised}
use secnano.Db.Groups.{list_registered_groups}
use secnano.Host.{System, Host}
use secnano.ChannelRegistry.{register_channel}
use secnano.Wiring.{Config, ensure_main_bootstrap, recover_pending_messages}

-- A channel, and how its `connect` and its `disconnect` end.
pub record Channel : Type 0 where
  pub name : String
  pub connects : Result (Unit {0})
  pub disconnects : Result (Unit {0})

-- The calls that start or stop something.
pub data HostCall : Type 0 where
  make_directory : String → HostCall
  start_scheduler_loop : HostCall
  start_ipc_watcher : (group_folders : List String) → HostCall
  process_group_messages : (folder : String) → HostCall
  connect : (name : String) → Result (Unit {0}) → HostCall
  shutdown : HostCall
  disconnect : (name : String) → Result (Unit {0}) → HostCall

abbrev pub channel_name : Channel → String
channel_name channel = channel.name

abbrev pub group_folder : RegisteredGroup → String
group_folder group = group.folder

-- A `connect` that raises is logged, and the next channel is connected.
unfoldable pub connect_all : List Channel → List HostCall
connect_all [] = []
connect_all (channel ∷ channels) = connect channel.name channel.connects ∷ connect_all channels

-- A `disconnect` that raises is suppressed.
unfoldable pub disconnect_all : List Channel → List HostCall
disconnect_all [] = []
disconnect_all (channel ∷ channels) =
    disconnect channel.name channel.disconnects ∷ disconnect_all channels

-- `join` is `/` of a path and a name, and `has_input` tells for a folder whether its input directory holds a file.
module _ (sys : System) (config : Config) (join : String → String → String) (groups_dir : String)
    (has_input : String → Bool) where
  abbrev pub directories : List HostCall
  directories =
      make_directory config.data_dir
      ∷ make_directory groups_dir
      ∷ make_directory (join config.data_dir "ipc")
      ∷ make_directory (join config.data_dir "sessions")
      ∷ []

  -- From the registration of the web channel on.
  abbrev pub background : (web : Channel) → (registry : List Channel) → Host → List HostCall
  background web registry h =
      start_scheduler_loop
        ∷ start_ipc_watcher (map group_folder (list_registered_groups h.db))
        ∷ map (λ (group : RegisteredGroup). process_group_messages group.folder)
            (recover_pending_messages has_input h.db)
      ++ connect_all (register_channel channel_name web registry)

  abbrev pub after_main_bootstrap :
      (web : Channel)
      → (registry : List Channel) → Result RegisteredGroup × Host
      → Result (Unit {0}) × List HostCall × Host
  after_main_bootstrap web registry (raised e, h) = (raised e, directories, h)
  after_main_bootstrap web registry (ok group, h) =
      (ok tt, directories ++ background web registry h, h)

  -- `main` up to its endless loop. The tables are there already.
  unfoldable pub start_host :
      (web : Channel) → (registry : List Channel) → Host → Result (Unit {0}) × List HostCall × Host
  unfolding ensure_main_bootstrap
  start_host web registry h = after_main_bootstrap web registry (ensure_main_bootstrap sys config h)

-- `main` after an interrupt.
unfoldable pub stop_host : List Channel → List HostCall
unfolding disconnect_all
stop_host channels = shutdown ∷ disconnect_all channels
