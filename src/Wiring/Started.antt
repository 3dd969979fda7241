-- ===== src/Wiring/Started.antt =====
-- What `main` of secnano/main.py has done when it reaches its endless loop.
use mathlib.Core.Path.{subst}
use mathlib.Core.List.{append_assoc, map-append}
use secnano.Prelude.{
  String, ◌≡◌, refl, sym, ap, ◌∙◌, ◌⊎◌, inl, inr, Bool, true, false, List, [], ◌∷◌, ◌++◌, map, ◌==◌,
  is_some, Bool-cases,
}
use secnano.Types.{RegisteredGroup}
use secnano.Effect.{Result, ok, raised}
use secnano.Db.Table.{upsert_row}
use secnano.Db.Groups.{list_registered_groups, unique_failed, jid_taken}
use secnano.Host.{System, Host}
use secnano.ChannelRegistry.{register_channel}
use secnano.Wiring.{Config, ensure_main_bootstrap, first_main, is_main_of, recover_pending_messages}
use secnano.Wiring.MainGroup.{IsBootstrapped, has_main, wanted, ensure_main_bootstrap-outcome}
use secnano.Wiring.Startup.{
  Channel, HostCall, start_ipc_watcher, start_scheduler_loop, process_group_messages, connect,
  channel_name, group_folder, connect_all, directories, background, after_main_bootstrap,
  start_host,
}

module _ {ℓ} {A : Type ℓ} where
  -- The item is in the list.
  abbrev pub Stands : A → List A → Type ℓ
  Stands x xs = (before : List A) × (after : List A) × (xs ≡ before ++ x ∷ after)

  Stands-here : (x : A) (xs : List A) → Stands x (x ∷ xs)
  Stands-here x xs = ([], xs, refl)

  Stands-append : (x : A) (ys xs : List A) → Stands x xs → Stands x (ys ++ xs)
  Stands-append x ys xs (before, after, e) = (
    ys ++ before,
    after,
    ap (λ (l : List A). ys ++ l) e ∙ sym (append_assoc ys before (x ∷ after)),
  )

Stands-map {ℓ k} :
    {A : Type ℓ} {B : Type k} (f : A → B) (x : A) (xs : List A)
    → Stands x xs
    → Stands (f x) (map f xs)
Stands-map f x xs (before, after, e) =
    (map f before, map f after, ap (map f) e ∙ map-append f before (x ∷ after))

first_main-Stands :
    (groups : List RegisteredGroup)
    → is_some (first_main groups) ≡ true
    → (group : RegisteredGroup) × (is_main_of group.is_main ≡ true) × Stands group groups
unfolding first_main
first_main-Stands [] h = cc
first_main-Stands (group ∷ groups) h = elim (Bool-cases (is_main_of group.is_main)) [
  | inl e ↦ (group, e, Stands-here group groups)
  | inr e ↦
      let (found, main, there) = first_main-Stands groups (rw e at h) in
      (found, main, Stands-append found (group ∷ []) groups there)
]

-- The web channel is registered, and so is every channel of another name that was before.
register_channel-web :
    (web : Channel) (registry : List Channel)
    → Stands web (register_channel channel_name web registry)
unfolding register_channel upsert_row
register_channel-web web [] = Stands-here web []
register_channel-web web (channel ∷ registry) = elim (Bool-cases (channel.name == web.name)) [
  | inl e ↦ rw e (Stands-here web registry)
  | inr e ↦ rw e (
      Stands-append web (channel ∷ []) (register_channel channel_name web registry)
        (register_channel-web web registry))
]

register_channel-others :
    (web channel : Channel) (before after : List Channel)
    → (channel.name == web.name) ≡ false
    → Stands channel (register_channel channel_name web (before ++ channel ∷ after))
unfolding register_channel upsert_row
register_channel-others web channel [] after other =
    rw other (Stands-here channel (register_channel channel_name web after))
register_channel-others web channel (first ∷ before) after other =
    elim (Bool-cases (first.name == web.name)) [
      | inl e ↦
          rw e (Stands-append channel (web ∷ []) (before ++ channel ∷ after) (before, after, refl))
      | inr e ↦ rw e (
          Stands-append channel (first ∷ [])
            (register_channel channel_name web (before ++ channel ∷ after))
            (register_channel-others web channel before after other))
    ]

abbrev connect_call : Channel → HostCall
connect_call channel = connect channel.name channel.connects

connect_all-map : (channels : List Channel) → connect_all channels ≡ map connect_call channels
unfolding connect_all
connect_all-map [] = refl
connect_all-map (channel ∷ channels) =
    ap (λ (l : List HostCall). connect_call channel ∷ l) (connect_all-map channels)

connect_all-Stands :
    (channel : Channel) (channels : List Channel)
    → Stands channel channels
    → Stands (connect_call channel) (connect_all channels)
connect_all-Stands channel channels there =
    rw (connect_all-map channels) (Stands-map connect_call channel channels there)

-- The host is started with these calls: some main group is registered, the watcher was given its folder
-- among the groups', and the web channel and every other registered channel were told to connect.
pub record IsStarted (web : Channel) (registry : List Channel) (calls : List HostCall) (h : Host)
    : Type 0 where
  pub group : RegisteredGroup
  pub main : is_main_of group.is_main ≡ true
  pub registered : Stands group (list_registered_groups h.db)
  pub folders : List String
  pub watched : Stands (start_ipc_watcher folders) calls
  pub own_folder : Stands group.folder folders
  pub web_connects : Stands (connect web.name web.connects) calls
  pub others_connect :
      (channel : Channel)
      → Stands channel registry
      → (channel.name == web.name) ≡ false
      → Stands (connect channel.name channel.connects) calls

module _ (sys : System) (config : Config) (join : String → String → String) (groups_dir : String)
    (has_input : String → Bool) where
  abbrev starts : List HostCall
  starts = directories sys config join groups_dir has_input

  background-IsStarted :
      (web : Channel) (registry : List Channel) (h : Host)
      → has_main h.db ≡ true
      → IsStarted web registry
          (starts ++ background sys config join groups_dir has_input web registry h)
          h
  background-IsStarted web registry h has =
      let (group, main, there) = first_main-Stands (list_registered_groups h.db) has in
      let folders = map group_folder (list_registered_groups h.db) in
      let recovered =
        map (λ (group : RegisteredGroup). process_group_messages group.folder)
          (recover_pending_messages has_input h.db) in
      let channels = register_channel channel_name web registry in
      let connected : (channel : Channel)
          → Stands channel channels
          → Stands (connect_call channel)
              (starts ++ background sys config join groups_dir has_input web registry h) =
        λ channel among.
          Stands-append (connect_call channel) starts
            (background sys config join groups_dir has_input web registry h)
            (Stands-append (connect_call channel)
              (start_scheduler_loop ∷ start_ipc_watcher folders ∷ recovered) (connect_all channels)
              (connect_all-Stands channel channels among)) in
      record {
        group = group;
        main = main;
        registered = there;
        folders = folders;
        watched = (starts ++ start_scheduler_loop ∷ [], recovered ++ connect_all channels, refl);
        own_folder = Stands-map group_folder group (list_registered_groups h.db) there;
        web_connects = connected web (register_channel-web web registry);
        others_connect = λ channel (before, after, e) other. connected channel (
            subst (λ (l : List Channel). Stands channel (register_channel channel_name web l))
              (sym e) (register_channel-others web channel before after other));
      }

  -- The host's start either raises the UNIQUE error, because the jid of the group that is to become the main
  -- group belongs to another folder, and then it has made directories only and the database is as it was;
  -- or it succeeds with a main group, whose folder the watcher was given, and the web channel and every
  -- other registered channel were told to connect, whatever the other channels' `connect` raised.
  pub start_host-IsStarted :
      (web : Channel) (registry : List Channel) (h : Host)
      → (jid_taken (wanted sys config h) h.db ≡ true)
          × ((start_host sys config join groups_dir has_input web registry h).0
              ≡ raised unique_failed)
          × ((start_host sys config join groups_dir has_input web registry h).1 ≡ starts)
          × ((start_host sys config join groups_dir has_input web registry h).2.db ≡ h.db)
        ⊎ ((start_host sys config join groups_dir has_input web registry h).0 ≡ ok tt)
          × IsStarted web registry
              (start_host sys config join groups_dir has_input web registry h).1
              (start_host sys config join groups_dir has_input web registry h).2
  unfolding start_host
  start_host-IsStarted web registry h =
      go (ensure_main_bootstrap sys config h) (ensure_main_bootstrap-outcome sys config h)
    where
      go :
          (r : Result RegisteredGroup × Host)
          → (jid_taken (wanted sys config h) h.db ≡ true)
              × (r.0 ≡ raised unique_failed)
              × (r.1.db ≡ h.db)
            ⊎ (group : RegisteredGroup) × (r.0 ≡ ok group) × IsBootstrapped h r.1 group
          → (jid_taken (wanted sys config h) h.db ≡ true)
              × ((after_main_bootstrap sys config join groups_dir has_input web registry r).0
                  ≡ raised unique_failed)
              × ((after_main_bootstrap sys config join groups_dir has_input web registry r).1
                  ≡ starts)
              × ((after_main_bootstrap sys config join groups_dir has_input web registry r).2.db
                  ≡ h.db)
            ⊎ ((after_main_bootstrap sys config join groups_dir has_input web registry r).0 ≡ ok tt)
              × IsStarted web registry
                  (after_main_bootstrap sys config join groups_dir has_input web registry r).1
                  (after_main_bootstrap sys config join groups_dir has_input web registry r).2
      go (raised e, k) (inl (taken, error, same)) = inl (taken, cc, refl, same)
      go (raised e, k) (inr (group, error, made)) = cc
      go (ok made, k) (inl (taken, error, same)) = cc
      go (ok group, k) (inr (found, same, made)) =
          inr (refl, background-IsStarted web registry k made.has)
