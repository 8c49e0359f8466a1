-- ===== src/Discovery/Publisher/Found.antt =====
-- A worker that resolves a service of a server: `avahi_client_resolve_callback` on what
-- `create_avahi_services` published.
use exposure.Base.{
  ℕ, ◌-◌, ◌≡◌, refl, false, not, ◌||◌, inl, inr, Option, some, none, List, [], ◌∷◌, is_empty,
  length, get_elem?, Option-cases,
}
use exposure.Base.Text.{Text, text_eq_refl}
use exposure.Base.Map
use exposure.Base.Outcome.{ok}
use exposure.Config.{work_port, communication_port, worker_id_letter_count}
use exposure.Semaphore
use exposure.Worker.Servers.{ServerDetails, Worker, add_server}
use exposure.Discovery.Records.{AvahiStringList, decode_dnssd_txt}
use exposure.Discovery.Client.{
  IpVersion, Address, scoped, MdnsContext, found, avahi_client_resolve_callback,
}
use exposure.Discovery.Publisher.{PublisherEvent, publish, started}
use exposure.Discovery.Publisher.Announced.{
  IsAnnounced, DrawPositive, AreAnnounced-at, publish-AreAnnounced,
}

-- The details of a server with this identity at this address
abbrev pub server_of : Text → Text → ServerDetails
server_of id address = record {
  name = id;
  address = address;
  work_port = work_port;
  communication_port = communication_port;
}

abbrev pub known_or : Option ServerDetails → ServerDetails → ServerDetails
known_or none d = d
known_or (some known) d = known

-- The server is in the map, as it was if it was there, and this resolver is freed.
pub record IsFound (d : ServerDetails) (before after : MdnsContext) : Type 0 where
  pub listed :
      Map.find d.name after.worker.server_details
      ≡ some (known_or (Map.find d.name before.worker.server_details) d)
  pub resolvers_freed : after.resolvers ≡ before.resolvers - 1
  pub quits : after.quit ≡ (before.quit || not before.persist)

named : (id : Text) → length id ≡ worker_id_letter_count → is_empty id ≡ false
named [] h = cc
named (c ∷ id) h = refl

add_server_listed :
    (d : ServerDetails) (w : Worker)
    → is_empty d.name ≡ false
    → (v : Worker) × (add_server d w ≡ ok v)
      × (Map.find d.name v.server_details ≡ some (known_or (Map.find d.name w.server_details) d))
unfolding add_server
add_server_listed d w h = elim (Option-cases (Map.find d.name w.server_details)) [
  | inl new ↦ (
    record {
      server_details = Map.insert d.name d w.server_details;
      connection_semaphore = Semaphore.release 1 w.connection_semaphore;
    },
    rw (h, new),
    rw (Map.find-insert d.name d.name d w.server_details new, text_eq_refl d.name, new),
  )
  | inr (known, there) ↦ (w, rw (h, there), rw there)
]

module _ (avahi : AvahiStringList) where
  open avahi use {Strings}

  resolve_announced :
      (txt : Strings) (id : Text) (interface : ℕ) (version : IpVersion) (address : Address)
      (c : MdnsContext)
      → IsAnnounced avahi id txt
      → (after : MdnsContext) × (avahi_client_resolve_callback avahi
            (found interface version address txt)
            c
          ≡ ok after)
        × IsFound (server_of id (scoped version interface address)) c after
  unfolding avahi_client_resolve_callback
  resolve_announced txt id interface version address c announced =
      let d = server_of id (scoped version interface address) in
      let (w, runs, listed) = add_server_listed d c.worker (named id announced.size) in
      (
        record c { worker = w; quit = c.quit || not c.persist; resolvers = c.resolvers - 1 },
        rw (announced.decoded, runs),
        record { listed = listed; resolvers_freed = refl; quits = refl },
      )

-- Whatever callbacks a server ran since its start, if its letters are drawn from 1 on: the strings
-- of each of its services say an identity of five letters and both ports. A worker that resolves the
-- service then lists, under that very identity, a server with the address that was resolved and both
-- ports, or, if one was listed under that identity before, the one that was; it frees the resolver,
-- and quits unless it persists.
pub published-resolve :
    (avahi : AvahiStringList) (alternative_name : Text → Text) (name : Text)
    (es : List PublisherEvent) (i : ℕ) (service : Text × avahi.Strings) (interface : ℕ)
    (version : IpVersion) (address : Address) (c : MdnsContext)
    → DrawPositive es
    → get_elem? (publish avahi alternative_name es (started avahi alternative_name name)).services i
      ≡ some service
    → (id : Text) × (length id ≡ worker_id_letter_count)
      × (decode_dnssd_txt avahi service.1
          ≡ ok (record {
            name = id;
            work_port = work_port;
            communication_port = communication_port;
          }))
      × (after : MdnsContext) × (avahi_client_resolve_callback avahi
            (found interface version address service.1)
            c
          ≡ ok after)
      × IsFound (server_of id (scoped version interface address)) c after
published-resolve avahi alternative_name name es i service interface version address c h there =
    let all = publish-AreAnnounced avahi alternative_name es _ h tt in
    let (id, announced) = AreAnnounced-at avahi _ i service all there in
    let (after, runs, is_found) =
      resolve_announced avahi service.1 id interface version address c announced in
    (id, announced.size, announced.decoded, after, runs, is_found)
