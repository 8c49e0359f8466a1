-- ===== src/Discovery/Publisher/Announced.antt =====
-- What the services of a server tell the workers that find them.
use exposure.Base.{
  ℕ, zero, suc, ◌+◌, ◌≤◌, ◌≡◌, subst, Bool, true, false, not, ◌&&◌, List, [], ◌∷◌, ◌++◌, length,
  arith, if◌then◌else◌, length-append, get_elem?, some,
}
use exposure.Base.Text.{Text}
use exposure.Base.Outcome.{ok}
use exposure.Config.{work_port, communication_port, worker_id_letter_count}
use exposure.Worker.Identity.{draw_letters, generate_random_id}
use exposure.Discovery.Records.{AvahiStringList, encode_dnssd_txt, decode_dnssd_txt}
use exposure.Discovery.Records.RoundTrip.{IsCText, decode_dnssd_txt-encode_dnssd_txt}
use exposure.Discovery.Publisher.{
  Answers, Publisher, create_avahi_services, avahi_server_callback, running, collision, registering,
  failure, connecting, avahi_entry_group_callback, established, uncommited, group_registering,
  group_collision, group_failure, PublisherEvent, server_state, group_state, publisher_event,
  publish,
}

-- The distribution starts at 1.
abbrev pub ArePositive : (ℕ → ℕ) → Type 0
ArePositive letters = (i : ℕ) → 1 ≤ letters i

IsCText-append : (s : Text) (c : ℕ) → IsCText s → 1 ≤ c → IsCText (s ++ c ∷ [])
IsCText-append [] c h k = (ground arith, tt)
IsCText-append (x ∷ s) c h k = (h.0, IsCText-append s c h.1 k)

draw_letters-IsCText :
    (rounds i : ℕ) (letters : ℕ → ℕ) (id : Text)
    → ArePositive letters
    → IsCText id
    → IsCText (draw_letters rounds i letters id)
unfolding draw_letters
draw_letters-IsCText zero i letters id h k = k
draw_letters-IsCText (suc rounds) i letters id h k =
    draw_letters-IsCText rounds (suc i) letters (id ++ letters i ∷ []) h
      (IsCText-append id (letters i) k (h i))

length-draw_letters :
    (rounds i : ℕ) (letters : ℕ → ℕ) (id : Text)
    → length (draw_letters rounds i letters id) ≡ length id + rounds
unfolding draw_letters
length-draw_letters zero i letters id = omega arith
length-draw_letters (suc rounds) i letters id = omega (
  arith,
  length-draw_letters rounds (suc i) letters (id ++ letters i ∷ []),
  length-append id (letters i ∷ []),
)

module _ (avahi : AvahiStringList) where
  open avahi use {Strings}

  -- The strings are those of a server with this identity.
  pub record IsAnnounced (id : Text) (txt : Strings) : Type 0 where
    pub plain : IsCText id
    pub size : length id ≡ worker_id_letter_count
    pub decoded :
        decode_dnssd_txt avahi txt
        ≡ ok (record { name = id; work_port = work_port; communication_port = communication_port })

  abbrev pub AreAnnounced : List (Text × Strings) → Type 0
  AreAnnounced [] = Unit {0}
  AreAnnounced (e ∷ es) = ((id : Text) × IsAnnounced id e.1) × AreAnnounced es

  AreAnnounced-append :
      (es : List (Text × Strings)) (e : Text × Strings) (id : Text)
      → AreAnnounced es
      → IsAnnounced id e.1
      → AreAnnounced (es ++ e ∷ [])
  AreAnnounced-append [] e id h k = ((id, k), tt)
  AreAnnounced-append (x ∷ es) e id h k = (h.0, AreAnnounced-append es e id h.1 k)

  pub AreAnnounced-at :
      (es : List (Text × Strings)) (i : ℕ) (e : Text × Strings)
      → AreAnnounced es
      → get_elem? es i ≡ some e
      → (id : Text) × IsAnnounced id e.1
  AreAnnounced-at [] i e h there = cc
  AreAnnounced-at (x ∷ es) zero e h there =
      let same : x ≡ e = cc in subst (λ y. (id : Text) × IsAnnounced id y.1) same h.0
  AreAnnounced-at (x ∷ es) (suc i) e h there = AreAnnounced-at es i e h.1 there

  generate_random_id-IsAnnounced :
      (letters : ℕ → ℕ)
      → ArePositive letters
      → IsAnnounced (generate_random_id letters) (
          encode_dnssd_txt avahi (record {
            name = generate_random_id letters;
            work_port = work_port;
            communication_port = communication_port;
          }))
  unfolding generate_random_id
  generate_random_id-IsAnnounced letters h =
      let plain = draw_letters-IsCText worker_id_letter_count 0 letters [] h tt in
      record {
        plain = plain;
        size = length-draw_letters worker_id_letter_count 0 letters [];
        decoded = decode_dnssd_txt-encode_dnssd_txt avahi _ (record {
          name_plain = plain;
          work_fits = omega arith;
          communication_fits = omega arith;
        });
      }

-- The letters of the answers of an event are positive.
abbrev pub DrawsPositive : PublisherEvent → Type 0
DrawsPositive (server_state t answers) = ArePositive answers.letters
DrawsPositive (group_state t answers) = ArePositive answers.letters

abbrev pub DrawPositive : List PublisherEvent → Type 0
DrawPositive [] = Unit {0}
DrawPositive (e ∷ es) = DrawsPositive e × DrawPositive es

module _ (avahi : AvahiStringList) (alternative_name : Text → Text) where
  branch-AreAnnounced :
      (test : Bool) (s t : Publisher avahi alternative_name)
      → AreAnnounced avahi s.services
      → AreAnnounced avahi t.services
      → AreAnnounced avahi (if test then s else t).services
  branch-AreAnnounced true s t h k = h
  branch-AreAnnounced false s t h k = k

  create-AreAnnounced :
      (answers : Answers) (s : Publisher avahi alternative_name)
      → ArePositive answers.letters
      → AreAnnounced avahi s.services
      → AreAnnounced avahi (create_avahi_services avahi alternative_name answers s).services
  unfolding create_avahi_services
  create-AreAnnounced answers s h k =
      let new = generate_random_id-IsAnnounced avahi answers.letters h in
      let added = AreAnnounced-append avahi s.services (s.service_name, _) _ k new in
      branch-AreAnnounced (not s.group && not answers.group_made) s _ k (
        branch-AreAnnounced answers.group_is_empty _ _
          (branch-AreAnnounced (not answers.service_added) _ _ k added) k)

  event-AreAnnounced :
      (e : PublisherEvent) (s : Publisher avahi alternative_name)
      → DrawsPositive e
      → AreAnnounced avahi s.services
      → AreAnnounced avahi (publisher_event avahi alternative_name e s).services
  unfolding publisher_event avahi_server_callback avahi_entry_group_callback
  event-AreAnnounced (server_state running answers) s h k = create-AreAnnounced answers s h k
  event-AreAnnounced (server_state collision answers) s h k = branch-AreAnnounced s.group _ s tt k
  event-AreAnnounced (server_state registering answers) s h k = branch-AreAnnounced s.group _ s tt k
  event-AreAnnounced (server_state failure answers) s h k = k
  event-AreAnnounced (server_state connecting answers) s h k = k
  event-AreAnnounced (group_state group_collision answers) s h k =
      create-AreAnnounced answers
        (record s { group = true; service_name = alternative_name s.service_name }) h k
  event-AreAnnounced (group_state established answers) s h k = k
  event-AreAnnounced (group_state uncommited answers) s h k = k
  event-AreAnnounced (group_state group_registering answers) s h k = k
  event-AreAnnounced (group_state group_failure answers) s h k = k

  -- Whatever callbacks run, each service that is in the group of a server at the end announces an
  -- identity of five letters and both ports to the workers that decode it, if those that were there
  -- before do.
  pub publish-AreAnnounced :
      (es : List PublisherEvent) (s : Publisher avahi alternative_name)
      → DrawPositive es
      → AreAnnounced avahi s.services
      → AreAnnounced avahi (publish avahi alternative_name es s).services
  unfolding publish
  publish-AreAnnounced [] s h k = k
  publish-AreAnnounced (e ∷ es) s h k = branch-AreAnnounced s.quit s _ k (
      publish-AreAnnounced es (publisher_event avahi alternative_name e s) h.1
        (event-AreAnnounced e s h.0 k))
