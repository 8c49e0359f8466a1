-- ===== src/Discovery/Publisher.antt =====
-- The callbacks of a server in src/network.cpp: its service is registered, reset and renamed.
pub mod Announced
pub mod Found
use exposure.Base.{
  ℕ, suc, ◌+◌, ◌≡◌, Bool, true, false, not, ◌&&◌, List, [], ◌∷◌, ◌++◌, if◌then◌else◌,
}
use exposure.Base.Outcome.{
  Outcome, ok, err, ◌>>=◌, ◌>>◌, require, null_dereference, uncaught, use_after_free,
}
use exposure.Base.Text.{Text}
use exposure.Config.{work_port, communication_port}
use exposure.Worker.Identity.{generate_random_id}
use exposure.Discovery.Records.{AvahiStringList, encode_dnssd_txt}

-- What Avahi answers, and the letters that are drawn for an identity.
pub record Answers : Type 0 where
  pub group_made : Bool
  pub group_is_empty : Bool
  pub service_added : Bool
  pub committed : Bool
  pub letters : ℕ → ℕ

pub data ServerState : Type 0 where
  running collision registering failure connecting : ServerState

pub data GroupState : Type 0 where
  established uncommited group_registering group_collision group_failure : GroupState

pub data PublisherEvent : Type 0 where
  server_state : ServerState → Answers → PublisherEvent
  group_state : GroupState → Answers → PublisherEvent

-- What `start_mdns_service` leaves: whether there is a poll, whether the future that it returns is
-- valid, which it is if there is a thread, and whether that thread has freed the poll.
pub record Service : Type 0 where
  pub poll : Bool
  pub valid : Bool
  pub freed : Bool

unfoldable pub start_mdns_service : (poll_made client_made : Bool) → Service
start_mdns_service poll_made client_made =
    if not poll_made
    then record { poll = false; valid = false; freed = false }
    else if not client_made
    then record { poll = true; valid = false; freed = false }
    else record { poll = true; valid = true; freed = false }

-- The thread that `start_mdns_service` starts: once its loop was told to quit, as the callbacks do
-- when Avahi fails, it frees the poll, which the global still points to.
unfoldable pub run_mdns_service : (quit : Bool) → Service → Service
run_mdns_service quit service = record service { freed = service.valid && quit }

-- `avahi_simple_poll_quit` takes a poll that exists and is not freed, and `wait` throws for a future
-- that is not valid.
unfoldable pub stop_mdns_service : Service → Outcome (Unit {0})
stop_mdns_service service = do
  require service.poll null_dereference
  require (not service.freed) use_after_free
  require service.valid uncaught

module _ (avahi : AvahiStringList) (alternative_name : Text → Text) where
  open avahi use {Strings}

  -- The globals `group` and `name`, the services that were added to the group since its last reset,
  -- the lists of strings that were encoded and freed, and whether the poll was told to quit.
  pub record Publisher : Type 0 where
    pub group : Bool
    pub service_name : Text
    pub services : List (Text × Strings)
    pub encoded : ℕ
    pub freed : ℕ
    pub commits : ℕ
    pub quit : Bool

  abbrev add_service : Answers → Publisher → Publisher
  add_service answers s =
      let txt = encode_dnssd_txt avahi (record {
        name = generate_random_id answers.letters;
        work_port = work_port;
        communication_port = communication_port;
      }) in
      let tried = record s { encoded = s.encoded + 1; freed = s.freed + 1 } in
      if not answers.service_added then tried else record tried {
        services = s.services ++ (s.service_name, txt) ∷ [];
        commits = if answers.committed then suc s.commits else s.commits;
      }

  unfoldable pub create_avahi_services : Answers → Publisher → Publisher
  create_avahi_services answers s =
      if not s.group && not answers.group_made
      then s
      else if answers.group_is_empty
      then add_service answers (record s { group = true })
      else record s { group = true }

  unfoldable pub avahi_server_callback : ServerState → Answers → Publisher → Publisher
  unfolding create_avahi_services
  avahi_server_callback running answers s = create_avahi_services answers s
  avahi_server_callback failure answers s = record s { quit = true }
  avahi_server_callback collision answers s = if s.group then record s { services = [] } else s
  avahi_server_callback registering answers s = if s.group then record s { services = [] } else s
  avahi_server_callback connecting answers s = s

  unfoldable pub avahi_entry_group_callback : GroupState → Answers → Publisher → Publisher
  unfolding create_avahi_services
  avahi_entry_group_callback established answers s = record s { group = true }
  avahi_entry_group_callback uncommited answers s = record s { group = true }
  avahi_entry_group_callback group_registering answers s = record s { group = true }
  avahi_entry_group_callback group_collision answers s =
      create_avahi_services answers
        (record s { group = true; service_name = alternative_name s.service_name })
  avahi_entry_group_callback group_failure answers s = record s { group = true; quit = true }

  unfoldable pub publisher_event : PublisherEvent → Publisher → Publisher
  unfolding avahi_server_callback avahi_entry_group_callback
  publisher_event (server_state t answers) s = avahi_server_callback t answers s
  publisher_event (group_state t answers) s = avahi_entry_group_callback t answers s

  -- The callbacks of the loop, until it is told to quit.
  unfoldable pub publish : List PublisherEvent → Publisher → Publisher
  unfolding publisher_event
  publish [] s = s
  publish (e ∷ es) s = let next = publish es (publisher_event e s) in if s.quit then s else next

  -- The state that `start_mdns_service` leaves, whose name is `ImageHistogramServer`
  abbrev pub started : Text → Publisher
  started name = record {
    group = false;
    service_name = name;
    services = [];
    encoded = 0;
    freed = 0;
    commits = 0;
    quit = false;
  }
