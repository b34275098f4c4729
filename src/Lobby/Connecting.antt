-- ===== src/Lobby/Connecting.antt =====
-- A new connection: `creg_register` of src/client_registry.c.
use multi_threaded_tic_tac_t.Base.{
  ◌⊎◌, ◌≢◌, ℕ, ◌+◌, ◌<◌, ◌≡◌, refl, inl, inr, Bool, true, false, some, [], ◌∷◌, arith, ◌||◌, leb,
  if◌then◌else◌, ==_self, ==_false, Bool-cases,
}
use multi_threaded_tic_tac_t.Objects.{Ptr, null, Client}
use multi_threaded_tic_tac_t.World.{
  Env, World, done, update, request, lock, unlock, holds, without, same_mutex, registry_lock,
  unlocked_world,
}
use multi_threaded_tic_tac_t.Client.{client_create}
use multi_threaded_tic_tac_t.ClientRegistry.{max_clients, is_listed, insert_client, creg_register}
use multi_threaded_tic_tac_t.Shutdown.Quiet.{Quiet, Closing, uses, uses-update, AllQuiet-map}
use multi_threaded_tic_tac_t.Shutdown.Listed.{Quiet-at, fd_in_list-told}
use multi_threaded_tic_tac_t.Lobby.{Lobby, AllGranted}

-- A client that is new.
abbrev newcomer : ℕ → Client
newcomer fd = record { fd = fd; ref_count = 1; logged_in = false; player = null; invitations = [] }

abbrev joined : World → ℕ → World
joined w fd = record w {
  clients = update w.clients w.fresh (some (newcomer fd));
  fresh = w.fresh + 1;
  requests = w.requests + 1;
  client_registry = insert_client w.client_registry w.fresh;
}

-- No client has an address that was not given out.
pub fresh_unlisted : (w : World) → Lobby w → is_listed w.client_registry.head w.fresh ≡ false
fresh_unlisted w h = elim (Bool-cases (is_listed w.client_registry.head w.fresh)) [
  | inl listed ↦
      let q =
        Quiet-at w.clients w.players w.client_registry.head w.fresh h.quiescent.closing.quiet
          listed in
      absurd (omega (arith, h.clients_below w.fresh q.client q.live))
  | inr unlisted ↦ unlisted
]

joined-Closing :
    (w : World) (fd : ℕ) → Lobby w → Closing (joined w fd) (w.fresh ∷ w.client_registry.head)
unfolding insert_client uses
joined-Closing w fd h =
    let c = h.quiescent.closing in
    let cs = w.client_registry.head in
    let fresh = fresh_unlisted w h in
    let kept : (d : Ptr)
        → is_listed cs d ≡ true
        → Quiet w.clients w.players d
        → Quiet (joined w fd).clients w.players d =
      λ d e q. record {
        client = q.client;
        client_ne = q.client_ne;
        live =
            rw (==_false d w.fresh (λ same. omega (arith, h.clients_below d q.client q.live, same)))
              q.live;
        single = q.single;
        no_invitations = q.no_invitations;
        owner = q.owner;
      } in
    record {
      listed = refl;
      counted = ground (arith, c.counted);
      free = c.free;
      quiet = (
        record {
          client = newcomer fd;
          client_ne = h.fresh_ne;
          live = rw (==_self w.fresh) refl;
          single = refl;
          no_invitations = refl;
          owner = inl (refl, refl);
        },
        AllQuiet-map w.clients (joined w fd).clients w.players w.players cs kept c.quiet,
      );
      different = (fresh, c.different);
      references = λ a p e. ground (
        arith,
        c.references a p e,
        uses-update w.clients (some (newcomer fd)) cs w.fresh a fresh,
        ==_self w.fresh,
      );
    }

joined-Lobby :
    (w : World) (fd : ℕ)
    → Lobby w
    → w.client_registry.client_count < max_clients
    → Lobby (joined w fd)
unfolding insert_client
joined-Lobby w fd h room = record {
  quiescent = record {
    closing = joined-Closing w fd h;
    different = h.quiescent.different;
    players_ne = h.quiescent.players_ne;
    players_live = h.quiescent.players_live;
  };
  bounded = omega (arith, room);
  fresh_ne = λ e. omega (arith, e);
  clients_below = λ c k e. ground (arith, h.clients_below c k);
  players_below = λ a p e. omega (arith, h.players_below a p e);
  known = h.known;
}

register_joins :
    (env : Env) (fd : ℕ) (w : World)
    → AllGranted env
    → Lobby w
    → (b : Bool) × (creg_register env fd w ≡ (
        if b || leb max_clients w.client_registry.client_count
        then done null w
        else done w.fresh (joined w fd)))
unfolding creg_register client_create request lock unlock holds without same_mutex
register_joins env fd w granted h =
    let c = h.quiescent.closing in
    let taken = record w { held = registry_lock ∷ [] } in
    let (b, told) = fd_in_list-told taken w.players w.client_registry.head fd c.quiet in
    (b, ground (arith, told, c.free, granted w.requests, h.fresh_ne, unlocked_world w))

-- A connection, granted or refused, returns and keeps what holds between the requests.
pub connects :
    (env : Env) (fd : ℕ) (w : World)
    → AllGranted env
    → Lobby w
    → (p : Ptr) × (v : World) × (creg_register env fd w ≡ done p v)
      × Lobby v
      × (((p ≡ null) × (v ≡ w))
          ⊎ ((p ≢ null)
              × (v.client_registry.head ≡ p ∷ w.client_registry.head)
              × ((k : Client) × (v.clients p ≡ some k) × (k.logged_in ≡ false))))
unfolding insert_client
connects env fd w granted h =
    let (b, e) = register_joins env fd w granted h in
    elim (Bool-cases (b || leb max_clients w.client_registry.client_count)) [
      | inl full ↦ (null, w, rw full at e, h, inl (refl, refl))
      | inr room ↦ (
        w.fresh,
        joined w fd,
        rw room at e,
        joined-Lobby w fd h (ground arith),
        inr (h.fresh_ne, refl, (newcomer fd, rw (==_self w.fresh) refl, refl)),
      )
    ]
