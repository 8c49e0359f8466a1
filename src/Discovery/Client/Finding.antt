-- ===== src/Discovery/Client/Finding.antt =====
-- What `mdns_find_server` leaves in the worker, and what it does not free.
use exposure.Base.{
  ℕ, suc, ◌+◌, ◌-◌, ◌≤◌, ◌≡◌, refl, ap, ◌∙◌, Bool, true, false, not, ◌&&◌, ◌||◌, List, [], ◌∷◌,
  is_empty, length, arith, if◌then◌else◌,
}
use exposure.Base.Outcome.{Outcome, ok, ◌>>=◌}
use exposure.Worker.Servers.{ServerDetails, Worker, add_server}
use exposure.Worker.Servers.Growing.{Grows, Grows-same, Grows-trans, add_server-Grows}
use exposure.Discovery.Records.{ServerConfiguration, AvahiStringList, decode_dnssd_txt}
use exposure.Discovery.Client.{
  scoped, MdnsContext, failure, found, avahi_client_resolve_callback, browser_failure, browser_new,
  browser_remove, browser_all_for_now, browser_cache_exhausted, avahi_client_browse_callback,
  avahi_client_callback, ClientEvent, client_state, browsed, resolved, client_event, poll_loop,
  Looped, has_quit, still_waits, after_loop, Setup, Search, mdns_find_server,
}

module _ (avahi : AvahiStringList) where
  -- The strings of a service that is found have the three parts, ports that are numbers, and a name.
  abbrev pub IsReadable : ClientEvent avahi → Type 0
  IsReadable (client_state failed) = Unit {0}
  IsReadable (browsed e) = Unit {0}
  IsReadable (resolved failure) = Unit {0}
  IsReadable (resolved (found interface version address txt)) =
      (c : ServerConfiguration) × (decode_dnssd_txt avahi txt ≡ ok c) × (is_empty c.name ≡ false)

  abbrev pub AreReadable : List (ClientEvent avahi) → Type 0
  AreReadable [] = Unit {0}
  AreReadable (e ∷ es) = IsReadable e × AreReadable es

  -- How many servers a run can add
  abbrev pub budget : Bool → Bool → List (ClientEvent avahi) → ℕ
  budget quit persist es = if quit then 0 else if persist then length es else 1

  -- Whether a callback tells the loop to quit
  abbrev pub is_told : Bool → ClientEvent avahi → Bool
  is_told persist (client_state failed) = failed
  is_told persist (browsed browser_failure) = true
  is_told persist (browsed (browser_new made)) = false
  is_told persist (browsed browser_remove) = false
  is_told persist (browsed browser_all_for_now) = false
  is_told persist (browsed browser_cache_exhausted) = false
  is_told persist (resolved failure) = false
  is_told persist (resolved (found interface version address txt)) = not persist

  abbrev pub are_told : Bool → List (ClientEvent avahi) → Bool
  are_told persist [] = false
  are_told persist (e ∷ es) = is_told persist e || are_told persist es

  or_assoc : (a b c : Bool) → ((a || b) || c) ≡ (a || (b || c))
  or_assoc true b c = refl
  or_assoc false b c = refl

  or_false : (a : Bool) → a ≡ (a || false)
  or_false true = refl
  or_false false = refl

  or_true : (a : Bool) → true ≡ (a || true)
  or_true true = refl
  or_true false = refl

  -- One callback: a server is added only if the loop is told to quit, or persists.
  record IsCall (told : Bool) (before after : MdnsContext) : Type 0 where
    added : ℕ
    grows : Grows added before.worker after.worker
    same_persist : after.persist ≡ before.persist
    quits : after.quit ≡ (before.quit || told)
    bound :
        (es : List (ClientEvent avahi))
        → added + budget after.quit after.persist es
          ≤ (if before.persist then suc (length es) else 1)

  idle-IsCall :
      (before : MdnsContext) (resolvers : ℕ) (quit told : Bool)
      → quit ≡ (before.quit || told)
      → IsCall told before (record before { resolvers = resolvers; quit = quit })
  idle-IsCall before resolvers quit told h = record {
    added = 0;
    grows = Grows-same 0 before.worker;
    same_persist = refl;
    quits = h;
    bound = λ es. ground arith;
  }

  found-IsCall :
      (d : ServerDetails) (before : MdnsContext)
      → is_empty d.name ≡ false
      → (w : Worker) × (add_server d before.worker ≡ ok w)
        × IsCall (not before.persist) before (record before {
          worker = w;
          quit = before.quit || not before.persist;
          resolvers = before.resolvers - 1;
        })
  found-IsCall d before h =
      let (w, runs, grows) = add_server-Grows d before.worker h in
      (
        w,
        runs,
        record {
          added = 1;
          grows = grows;
          same_persist = refl;
          quits = refl;
          bound = λ es. ground arith;
        },
      )

  event-IsCall :
      (e : ClientEvent avahi) (before : MdnsContext)
      → IsReadable e
      → (after : MdnsContext) × (client_event avahi e before ≡ ok after)
        × IsCall (is_told before.persist e) before after
  unfolding client_event avahi_client_callback avahi_client_browse_callback
      avahi_client_resolve_callback
  event-IsCall (client_state true) before h =
      (_, refl, idle-IsCall before before.resolvers true true (or_true before.quit))
  event-IsCall (client_state false) before h =
      (_, refl, idle-IsCall before before.resolvers before.quit false (or_false before.quit))
  event-IsCall (browsed browser_failure) before h =
      (_, refl, idle-IsCall before before.resolvers true true (or_true before.quit))
  event-IsCall (browsed (browser_new true)) before h =
      (_, refl, idle-IsCall before (before.resolvers + 1) before.quit false (or_false before.quit))
  event-IsCall (browsed (browser_new false)) before h =
      (_, refl, idle-IsCall before before.resolvers before.quit false (or_false before.quit))
  event-IsCall (browsed browser_remove) before h =
      (_, refl, idle-IsCall before before.resolvers before.quit false (or_false before.quit))
  event-IsCall (browsed browser_all_for_now) before h =
      (_, refl, idle-IsCall before before.resolvers before.quit false (or_false before.quit))
  event-IsCall (browsed browser_cache_exhausted) before h =
      (_, refl, idle-IsCall before before.resolvers before.quit false (or_false before.quit))
  event-IsCall (resolved failure) before h =
      (_, refl, idle-IsCall before (before.resolvers - 1) before.quit false (or_false before.quit))
  event-IsCall (resolved (found interface version address txt)) before (c, decoded, named) =
      let d : ServerDetails = record {
        name = c.name;
        address = scoped version interface address;
        work_port = c.work_port;
        communication_port = c.communication_port;
      } in
      let (w, runs, call) = found-IsCall d before named in (_, rw (decoded, runs), call)

  abbrev context_of : Looped → MdnsContext
  context_of (has_quit c) = c
  context_of (still_waits c) = c

  abbrev is_over : Looped → Bool
  is_over (has_quit c) = true
  is_over (still_waits c) = false

  abbrev Runs : Outcome Looped → ℕ → Bool → Worker → Type 0
  Runs result most told w =
      (l : Looped) × (result ≡ ok l) × Grows most w (context_of l).worker × (is_over l ≡ told)

  at_end :
      (quit : Bool) (c : MdnsContext) (most : ℕ)
      → Runs (ok (if quit then has_quit c else still_waits c)) most (quit || false) c.worker
  at_end true c most = (has_quit c, refl, Grows-same most c.worker, refl)
  at_end false c most = (still_waits c, refl, Grows-same most c.worker, refl)

  unless_quit :
      (quit told : Bool) (c : MdnsContext) (next : Outcome Looped) (most : ℕ)
      → Runs next most (quit || told) c.worker
      → Runs
          (if quit then ok (has_quit c) else next)
          (if quit then 0 else most)
          (quit || told)
          c.worker
  unless_quit true told c next most h = (has_quit c, refl, Grows-same 0 c.worker, refl)
  unless_quit false told c next most h = h

  poll_loop-Runs :
      (es : List (ClientEvent avahi)) (before : MdnsContext)
      → AreReadable es
      → Runs
          (poll_loop avahi es before)
          (budget before.quit before.persist es)
          (before.quit || are_told before.persist es)
          before.worker
  unfolding poll_loop
  poll_loop-Runs [] before h = at_end before.quit before _
  poll_loop-Runs (e ∷ es) before h =
      let (middle, first, call) = event-IsCall e before h.0 in
      let (after, rest, grows, over) = poll_loop-Runs es middle h.1 in
      let told : (middle.quit || are_told middle.persist es)
          ≡ (before.quit || (is_told before.persist e || are_told before.persist es)) =
        rw (call.quits, call.same_persist) (or_assoc before.quit _ _) in
      unless_quit before.quit _ before _ _ (
        after,
        ap (λ r. r >>= poll_loop avahi es) first ∙ rest,
        Grows-trans call.added (budget middle.quit middle.persist es) _ before.worker middle.worker
            (context_of after).worker (call.bound es) call.grows grows,
        over ∙ told,
      )

  -- Where a call is: `told` is whether the loop was told to quit.
  abbrev Ends : Setup → Bool → Outcome Search → ℕ → Worker → Type 0
  Ends setup told result most w =
      let made = setup.poll_made && setup.client_made && setup.browser_made in
      (r : Search) × (result ≡ ok r)
      × Grows most w r.worker
      × (r.has_returned ≡ (not made || told))
      × (r.held.poll ≡ (setup.poll_made && not (made && told)))
      × (r.held.client ≡ (setup.poll_made && setup.client_made && not (made && told)))
      × (r.held.name ≡ (setup.poll_made && not (made && told)))

  after_loop-Ends :
      (l : Looped) (told : Bool) (most : ℕ) (w : Worker)
      → Grows most w (context_of l).worker
      → is_over l ≡ told
      → Ends
          (record { poll_made = true; client_made = true; browser_made = true })
          told
          (ok (after_loop l))
          most
          w
  after_loop-Ends (has_quit c) told most w grows over =
      (_, refl, grows, over, ap not over, ap not over, ap not over)
  after_loop-Ends (still_waits c) told most w grows over =
      (_, refl, grows, over, ap not over, ap not over, ap not over)

  with_setup :
      (poll client browser persist told : Bool) (es : List (ClientEvent avahi)) (w : Worker)
      (most : ℕ)
      → Runs
          (poll_loop avahi es
            (record { worker = w; persist = persist; resolvers = 0; quit = false }))
          most
          told
          w
      → let setup : Setup = record {
        poll_made = poll;
        client_made = client;
        browser_made = browser;
      } in
        Ends setup told (mdns_find_server avahi setup persist es w) most w
  unfolding mdns_find_server
  with_setup false client browser persist told es w most h =
      (_, refl, Grows-same most w, refl, refl, refl, refl)
  with_setup true false browser persist told es w most h =
      (_, refl, Grows-same most w, refl, refl, refl, refl)
  with_setup true true false persist told es w most h =
      (_, refl, Grows-same most w, refl, refl, refl, refl)
  with_setup true true true persist told es w most (l, runs, grows, over) =
      rw runs (after_loop-Ends l told most w grows over)

-- With whatever events, if the services that are found have readable strings, no callback of
-- mdns_find_server throws. It has returned exactly if the poll, the client or the browser could not
-- be made, or a failure or, without persist, a service that was found has told the loop to quit.
-- Each server that was listed stays as it was, one release of the semaphore goes with each that is
-- added, and without persist at most one is added. The poll, the client and the name that were made
-- are freed exactly if all three could be made and the loop was told to quit.
pub mdns_find_server-Grows :
    (avahi : AvahiStringList) (setup : Setup) (persist : Bool) (es : List (ClientEvent avahi))
    (w : Worker)
    → AreReadable avahi es
    → let made = setup.poll_made && setup.client_made && setup.browser_made in
      let told = are_told avahi persist es in
      (r : Search) × (mdns_find_server avahi setup persist es w ≡ ok r)
      × Grows (if persist then length es else 1) w r.worker
      × (r.has_returned ≡ (not made || told))
      × (r.held.poll ≡ (setup.poll_made && not (made && told)))
      × (r.held.client ≡ (setup.poll_made && setup.client_made && not (made && told)))
      × (r.held.name ≡ (setup.poll_made && not (made && told)))
mdns_find_server-Grows avahi setup persist es w h =
    with_setup avahi setup.poll_made setup.client_made setup.browser_made persist _ es w _ (
      poll_loop-Runs avahi es
        (record { worker = w; persist = persist; resolvers = 0; quit = false }) h)
