-- ===== src/Discovery/Client.antt =====
-- The callbacks of a worker in src/network.cpp, and `mdns_find_server`, which runs them.
pub mod Finding
use exposure.Base.{
  ℕ, zero, suc, ◌+◌, ◌-◌, ◌/◌, ◌≡◌, Bool, true, false, not, ◌&&◌, ◌||◌, Option, none, some, List,
  [], ◌∷◌, ◌++◌, replicate, ◌==◌, if◌then◌else◌,
}
use exposure.Base.Text.{Text, bytes, text_eq}
use exposure.Base.Decimal.{to_string}
use exposure.Base.Outcome.{Outcome, ok, err, ◌>>=◌}
use exposure.Worker.Servers.{ServerDetails, Worker, add_server}
use exposure.Discovery.Records.{ServerConfiguration, AvahiStringList, decode_dnssd_txt}

pub data IpVersion : Type 0 where
  inet inet6 : IpVersion

-- An address: its bytes, and what `avahi_address_snprint` prints of it.
pub record Address : Type 0 where
  pub address_bytes : List ℕ
  pub printed : Text

-- `IN6_IS_ADDR_LINKLOCAL` and `IN6_IS_ADDR_LOOPBACK`
abbrev pub is_link_local : List ℕ → Bool
is_link_local [] = false
is_link_local (b ∷ []) = false
is_link_local (b ∷ c ∷ rest) = b == 254 && (c / 64 == 2)

abbrev pub is_loopback : List ℕ → Bool
is_loopback b = text_eq b (replicate 15 0 ++ 1 ∷ [])

-- The address with the interface, where a link-local one needs it.
unfoldable pub scoped : IpVersion → ℕ → Address → Text
scoped inet interface a = a.printed
scoped inet6 interface a =
    if is_link_local a.address_bytes || is_loopback a.address_bytes
    then a.printed ++ bytes "%" ++ to_string interface
    else a.printed

-- `MdnsContext`, with the resolvers that are not freed, and whether the poll was told to quit.
pub record MdnsContext : Type 0 where
  pub worker : Worker
  pub persist : Bool
  pub resolvers : ℕ
  pub quit : Bool

-- The flag of a new service: whether its resolver could be made.
pub data BrowserEvent : Type 0 where
  browser_failure : BrowserEvent
  browser_new : (resolver_made : Bool) → BrowserEvent
  browser_remove browser_all_for_now browser_cache_exhausted : BrowserEvent

-- What of Avahi could be made.
pub record Setup : Type 0 where
  pub poll_made : Bool
  pub client_made : Bool
  pub browser_made : Bool

-- Of the objects that `mdns_find_server` made, those that it has not freed. `avahi_client_free` frees
-- the browser and the resolvers of its client.
pub record Held : Type 0 where
  pub poll : Bool
  pub client : Bool
  pub name : Bool

-- Where the loop is when the events that came are handled: told to quit, or waiting for more.
pub data Looped : Type 0 where
  has_quit still_waits : MdnsContext → Looped

-- Where a call of `mdns_find_server` is: the worker, what is not freed, and whether it has returned.
pub record Search : Type 0 where
  pub worker : Worker
  pub held : Held
  pub has_returned : Bool

abbrev pub after_loop : Looped → Search
after_loop (has_quit c) = record {
  worker = c.worker;
  held = record { poll = false; client = false; name = false };
  has_returned = true;
}
after_loop (still_waits c) = record {
  worker = c.worker;
  held = record { poll = true; client = true; name = true };
  has_returned = false;
}

-- An early return, which frees nothing.
abbrev pub given_up : Worker → Held → Search
given_up w held = record { worker = w; held = held; has_returned = true }

module _ (avahi : AvahiStringList) where
  open avahi use {Strings}

  pub data ResolverEvent : Type 0 where
    failure : ResolverEvent
    found : (interface : ℕ) → IpVersion → Address → (txt : Strings) → ResolverEvent

  abbrev add_found : ServerConfiguration → Text → Worker → Outcome Worker
  add_found c address w =
      add_server
        (record {
          name = c.name;
          address = address;
          work_port = c.work_port;
          communication_port = c.communication_port;
        })
        w

  abbrev free_resolver : MdnsContext → MdnsContext
  free_resolver c = record c { resolvers = c.resolvers - 1 }

  unfoldable pub avahi_client_resolve_callback : ResolverEvent → MdnsContext → Outcome MdnsContext
  unfolding scoped
  avahi_client_resolve_callback failure c = ok (free_resolver c)
  avahi_client_resolve_callback (found interface version address txt) c = do
    configuration ← decode_dnssd_txt avahi txt
    w ← add_found configuration (scoped version interface address) c.worker
    ok (free_resolver (record c { worker = w; quit = c.quit || not c.persist }))

  unfoldable pub avahi_client_browse_callback : BrowserEvent → MdnsContext → MdnsContext
  avahi_client_browse_callback browser_failure c = record c { quit = true }
  avahi_client_browse_callback (browser_new made) c =
      if made then record c { resolvers = c.resolvers + 1 } else c
  avahi_client_browse_callback browser_remove c = c
  avahi_client_browse_callback browser_all_for_now c = c
  avahi_client_browse_callback browser_cache_exhausted c = c

  -- `avahi_client_callback`: whether the state is a failure.
  unfoldable pub avahi_client_callback : Bool → MdnsContext → MdnsContext
  avahi_client_callback failed c = if failed then record c { quit = true } else c

  pub data ClientEvent : Type 0 where
    client_state : (failed : Bool) → ClientEvent
    browsed : BrowserEvent → ClientEvent
    resolved : ResolverEvent → ClientEvent

  unfoldable pub client_event : ClientEvent → MdnsContext → Outcome MdnsContext
  unfolding avahi_client_resolve_callback avahi_client_browse_callback avahi_client_callback
  client_event (client_state failed) c = ok (avahi_client_callback failed c)
  client_event (browsed e) c = ok (avahi_client_browse_callback e c)
  client_event (resolved e) c = avahi_client_resolve_callback e c

  -- `avahi_simple_poll_loop`: until it is told to quit.
  unfoldable pub poll_loop : List ClientEvent → MdnsContext → Outcome Looped
  unfolding client_event
  poll_loop [] c = ok (if c.quit then has_quit c else still_waits c)
  poll_loop (e ∷ es) c =
      let next = client_event e c >>= poll_loop es in if c.quit then ok (has_quit c) else next

  unfoldable pub mdns_find_server : Setup → Bool → List ClientEvent → Worker → Outcome Search
  unfolding poll_loop
  mdns_find_server setup persist es w =
      if not setup.poll_made
      then ok (given_up w (record { poll = false; client = false; name = false }))
      else if not setup.client_made
      then ok (given_up w (record { poll = true; client = false; name = true }))
      else if not setup.browser_made
      then ok (given_up w (record { poll = true; client = true; name = true }))
      else poll_loop es (record { worker = w; persist = persist; resolvers = 0; quit = false })
        >>= λ l. ok (after_loop l)
