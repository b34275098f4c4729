-- ===== src/Shutdown/Closing.antt =====
-- One step of `creg_shutdown_all` of src/client_registry.c: a client whose only reference is the
-- registry's, and that has no invitations.
use multi_threaded_tic_tac_t.Base.{
  ℕ, ◌+◌, ◌≡◌, refl, Bool, false, ◌≢◌, true, false, Option, none, some, [], ◌∷◌, arith, ==_self,
}
use multi_threaded_tic_tac_t.Objects.{Ptr, null, Player, Client}
use multi_threaded_tic_tac_t.World.{
  Env, World, done, holds, without, same_mutex, registry_lock, lock, unlock, update, load_client,
  load_player, unlocked_world,
}
use multi_threaded_tic_tac_t.Player.{player_unref}
use multi_threaded_tic_tac_t.Client.{client_get_fd, client_unref}
use multi_threaded_tic_tac_t.ClientRegistry.{
  fd_in_list, remove_client, signal_empty, creg_unregister,
}
use multi_threaded_tic_tac_t.Session.{client_logout}
use multi_threaded_tic_tac_t.Session.Logout.{Idle, dropped, logout_shared}
use multi_threaded_tic_tac_t.Shutdown.{shut_client, end_service}

-- A client with one reference, whose descriptor is found in the list of the registry, in a memory
-- without locked mutexes.
pub record Leaving (w : World) (c : Ptr) (k : Client) : Type 0 where
  pub client_ne : c ≢ null
  pub live : w.clients c ≡ some k
  pub single : k.ref_count ≡ 1
  pub found :
      (v : World) → v.clients ≡ w.clients → fd_in_list w.client_registry.head k.fd v ≡ done true v
  pub free : w.held ≡ []

abbrev gone : World → Ptr → World
gone w c = record w {
  clients = update w.clients c none;
  client_registry = signal_empty (remove_client w.client_registry c);
}

unregister_anonymous :
    (w : World) (c : Ptr) (k : Client)
    → Leaving w c k
    → k.player ≡ null
    → creg_unregister c w ≡ done true (gone w c)
unfolding creg_unregister client_get_fd client_unref player_unref load_client lock unlock holds
    without same_mutex
unregister_anonymous w c k h e = ground (
  arith,
  h.client_ne,
  h.live,
  h.single,
  h.found (record w { held = registry_lock ∷ w.held }) refl,
  h.free,
  ==_self c,
  ==_self k.fd,
  unlocked_world w,
)

abbrev spend : World → Ptr → Player → ℕ → World
spend w a p n = record w { players = update w.players a (some (record p { ref_count = n })) }

unregister_player :
    (w : World) (c : Ptr) (k : Client) (p : Player) (n : ℕ)
    → Leaving w c k
    → k.player ≢ null
    → w.players k.player ≡ some p
    → p.ref_count ≡ n + 2
    → creg_unregister c w ≡ done true (gone (spend w k.player p (n + 1)) c)
unfolding creg_unregister client_get_fd client_unref player_unref load_client load_player lock
    unlock holds without same_mutex
unregister_player w c k p n h ne live count = ground (
  arith,
  h.client_ne,
  h.live,
  h.single,
  h.found (record w { held = registry_lock ∷ w.held }) refl,
  h.free,
  ==_self c,
  ==_self k.fd,
  ne,
  live,
  count,
  unlocked_world w,
)

-- Before: what the client holds of a player.
pub data Holding (players : Ptr → Option Player) (k : Client) : Type 0 where
  anonymous : k.logged_in ≡ false → k.player ≡ null → Holding players k
  logged :
      {p : Player} (n : ℕ)
      → k.logged_in ≡ true
      → k.player ≢ null
      → k.invitations ≡ []
      → players k.player ≡ some p
      → p.ref_count ≡ n + 3
      → Holding players k

-- Behind it: the client is freed, and its player has two references less.
unfoldable pub after_client :
    (players : Ptr → Option Player) (k : Client) → Holding players k → Ptr → Option Player
after_client players k (anonymous a b) = players
after_client players k (logged {p} n a b c d e) =
    update (update players k.player (some (record p { ref_count = n + 2 }))) k.player
      (some (record p { ref_count = n + 1 }))

logout_anonymous :
    (env : Env) (w : World) (c : Ptr) (k : Client)
    → Leaving w c k
    → k.logged_in ≡ false
    → client_logout env c w ≡ done false w
unfolding client_logout load_client lock unlock holds without same_mutex
logout_anonymous env w c k h e = ground (arith, h.client_ne, h.live, h.free, unlocked_world w)

-- Logging out and leaving the registry.
pub departs :
    (env : Env) (w : World) (c : Ptr) (k : Client)
    → Leaving w c k
    → (x : Holding w.players k)
    → (b : Bool) × (u : World) × (client_logout env c w ≡ done b u)
      × (creg_unregister c u
          ≡ done true (record w {
            players = after_client w.players k x;
            clients = update w.clients c none;
            client_registry = signal_empty (remove_client w.client_registry c);
          }))
unfolding after_client
departs env w c k h (anonymous a b) =
    (false, w, logout_anonymous env w c k h a, unregister_anonymous w c k h b)
departs env w c k h (logged {p} n a b d e m) =
    let q = record p { ref_count = n + 2 } in
    let u = dropped w k p (n + 2) in
    let idle : Idle w c k p (n + 2) = record {
      client_ne = h.client_ne;
      live = h.live;
      logged_in = a;
      player_ne = b;
      player_live = e;
      no_invitations = d;
      count = omega (arith, m);
      free = h.free;
    } in
    let f : Leaving u c k = record {
      client_ne = h.client_ne;
      live = h.live;
      single = h.single;
      found = λ v same. h.found v same;
      free = h.free;
    } in
    (
      true,
      u,
      logout_shared env w c k p (n + 2) idle (omega arith),
      unregister_player u c k q n f b (rw (==_self k.player) refl) refl,
    )

-- The memory behind it.
abbrev pub departed : (w : World) (c : Ptr) (k : Client) → Holding w.players k → World
departed w c k x = record w {
  players = after_client w.players k x;
  clients = update w.clients c none;
  client_registry = signal_empty (remove_client w.client_registry c);
}

pub shut_client_lem :
    (env : Env) (w : World) (c : Ptr) (k : Client)
    → Leaving w c k
    → (x : Holding w.players k)
    → shut_client env c w ≡ done tt (record (departed w c k x) { shut = k.fd ∷ w.shut })
unfolding shut_client client_get_fd load_client after_client
shut_client_lem env w c k h x =
    let v = record w { shut = k.fd ∷ w.shut } in
    let f : Leaving v c k = record {
      client_ne = h.client_ne;
      live = h.live;
      single = h.single;
      found = λ u same. h.found u same;
      free = h.free;
    } in
    let (b, u, out, removed) = departs env v c k f x in rw (h.live, out, removed) refl

pub end_service_lem :
    (env : Env) (w : World) (c : Ptr) (k : Client)
    → Leaving w c k
    → (x : Holding w.players k) → end_service env c w ≡ done tt (departed w c k x)
unfolding end_service player_unref
end_service_lem env w c k h x =
    let (b, u, out, removed) = departs env w c k h x in rw (out, removed) refl
