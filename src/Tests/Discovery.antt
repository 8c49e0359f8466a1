-- ===== src/Tests/Discovery.antt =====
-- The theorems on the discovery of servers at concrete runs, with lists of pairs for Avahi's strings.
use exposure.Base.{
  ◌≡◌, ◌≢◌, refl, ap, true, false, inl, inr, Option, some, none, List, [], ◌∷◌, length, get_elem?,
  arith, if◌then◌else◌, Bool-cases,
}
use exposure.Base.Text.{Text, bytes, text_eq, text_eq_refl, text_eq_sound}
use exposure.Base.Outcome.{ok}
use exposure.Config.{work_port, communication_port, worker_id_letter_count}
use exposure.Worker.Servers.{ServerDetails, init}
use exposure.Worker.Servers.Growing.{Grows}
use exposure.Worker.Identity.{
  work_endpoint, communication_endpoint, draw_letters, generate_random_id,
}
use exposure.Worker.Identity.Distinct.{HasPorts, endpoints_inj}
use exposure.Discovery.Records.{
  ServerConfiguration, AvahiStringList, encode_dnssd_txt, decode_dnssd_txt,
}
use exposure.Discovery.Records.RoundTrip.{IsConfiguration, decode_dnssd_txt-encode_dnssd_txt}
use exposure.Discovery.Client.{
  inet, Address, scoped, MdnsContext, ClientEvent, found, browsed, browser_new, resolved, Setup,
  Search, mdns_find_server, avahi_client_resolve_callback,
}
use exposure.Discovery.Client.Finding.{mdns_find_server-Grows}
use exposure.Discovery.Publisher.{
  Answers, running, PublisherEvent, server_state, publish, started, publisher_event,
  avahi_server_callback, create_avahi_services,
}
use exposure.Discovery.Publisher.Found.{server_of, IsFound, published-resolve}

abbrev Pairs : Type 0
Pairs = List (Text × Text)

find_pair : Pairs → Text → Option Pairs
find_pair [] k = none
find_pair ((j, v) ∷ l) k =
    let rest = find_pair l k in if text_eq j k then some ((j, v) ∷ l) else rest

abbrev first_pair : Pairs → Text × Text
first_pair [] = ([], [])
first_pair (e ∷ l) = e

differ : (k j : Text) → length k ≢ length j → text_eq k j ≡ false
differ k j h = elim (Bool-cases (text_eq k j)) [
  | inl same ↦ absurd (h (ap length (text_eq_sound k j same)))
  | inr other ↦ other
]

find_added_pair : (l : Pairs) (k v : Text) → find_pair ((k, v) ∷ l) k ≡ some ((k, v) ∷ l)
unfolding find_pair
find_added_pair l k v = rw (text_eq_refl k)

find_before_pair :
    (l : Pairs) (k v j : Text) → length k ≢ length j → find_pair ((k, v) ∷ l) j ≡ find_pair l j
unfolding find_pair
find_before_pair l k v j h = rw (differ k j h)

abbrev avahi_pairs : AvahiStringList
avahi_pairs = record {
  Strings = Pairs;
  null = [];
  add_pair = λ l k v. (k, v) ∷ l;
  find = find_pair;
  get_pair = first_pair;
  find_added = λ l k v h. find_added_pair l k v;
  find_before = λ l k v j h h' n. find_before_pair l k v j n;
  get_added = λ l k v h. refl;
}

abbrev configuration : ServerConfiguration
configuration = record { name = bytes "abcde"; work_port = 42069; communication_port = 42070 }

plain_configuration : IsConfiguration configuration
plain_configuration = record {
  name_plain = (refl, (refl, (refl, (refl, (refl, tt)))));
  work_fits = omega arith;
  communication_fits = omega arith;
}

decode_dnssd_txt-encode_dnssd_txt_example :
    decode_dnssd_txt avahi_pairs (encode_dnssd_txt avahi_pairs configuration) ≡ ok configuration
decode_dnssd_txt-encode_dnssd_txt_example =
    decode_dnssd_txt-encode_dnssd_txt avahi_pairs configuration plain_configuration

abbrev host : ServerDetails
host = server_of (bytes "abcde") (bytes "10.0.0.1")

host_ports : HasPorts host
host_ports = record { work_fits = omega arith; communication_fits = omega arith }

abbrev same_host : ServerDetails
same_host = server_of (bytes "fghij") (bytes "10.0.0.1")

endpoints_inj_example :
    (host.address ≡ same_host.address)
    × (host.work_port ≡ same_host.work_port)
    × (host.communication_port ≡ same_host.communication_port)
unfolding work_endpoint communication_endpoint
endpoints_inj_example =
    endpoints_inj host same_host host_ports
      (record { work_fits = omega arith; communication_fits = omega arith }) refl refl

abbrev same_name : Text → Text
same_name name = name

abbrev all_granted : Answers
all_granted = record {
  group_made = true;
  group_is_empty = true;
  service_added = true;
  committed = true;
  letters = λ i. 97;
}

abbrev starts : List PublisherEvent
starts = server_state running all_granted ∷ []

abbrev published : Pairs
published = encode_dnssd_txt avahi_pairs (record {
  name = 97 ∷ 97 ∷ 97 ∷ 97 ∷ 97 ∷ [];
  work_port = work_port;
  communication_port = communication_port;
})

abbrev service : Text × Pairs
service = (bytes "ImageHistogramServer", published)

service_is_there :
    get_elem?
      (publish avahi_pairs same_name starts
        (started avahi_pairs same_name (bytes "ImageHistogramServer"))).services
      0
    ≡ some service
unfolding publish publisher_event avahi_server_callback create_avahi_services generate_random_id
    draw_letters
service_is_there = refl

abbrev address : Address
address = record { address_bytes = 10 ∷ 0 ∷ 0 ∷ 1 ∷ []; printed = bytes "10.0.0.1" }

abbrev context : MdnsContext
context = record { worker = init; persist = false; resolvers = 1; quit = false }

published-resolve_example :
    (id : Text) × (length id ≡ worker_id_letter_count)
    × (decode_dnssd_txt avahi_pairs published
        ≡ ok (record { name = id; work_port = work_port; communication_port = communication_port }))
    × (after : MdnsContext) × (avahi_client_resolve_callback avahi_pairs
          (found 2 inet address published)
          context
        ≡ ok after)
    × IsFound (server_of id (scoped inet 2 address)) context after
published-resolve_example =
    published-resolve avahi_pairs same_name (bytes "ImageHistogramServer") starts 0 service 2 inet
      address context ((λ i. omega arith), tt) service_is_there

abbrev finds : List (ClientEvent avahi_pairs)
finds =
    browsed (browser_new true)
    ∷ resolved (found 2 inet address (encode_dnssd_txt avahi_pairs configuration))
    ∷ []

abbrev all_made : Setup
all_made = record { poll_made = true; client_made = true; browser_made = true }

mdns_find_server-Grows_example :
    (r : Search) × (mdns_find_server avahi_pairs all_made false finds init ≡ ok r)
    × Grows 1 init r.worker
    × (r.has_returned ≡ true)
    × (r.held.poll ≡ false)
    × (r.held.client ≡ false)
    × (r.held.name ≡ false)
mdns_find_server-Grows_example = mdns_find_server-Grows avahi_pairs all_made false finds init (
  tt,
  (
    (
      configuration,
      decode_dnssd_txt-encode_dnssd_txt avahi_pairs configuration plain_configuration,
      refl,
    ),
    tt,
  ),
)
