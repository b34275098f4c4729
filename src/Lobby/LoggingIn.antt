-- ===== src/Lobby/LoggingIn.antt =====
-- `client_login` of src/client.c behind `preg_register` of src/player_registry.c: the player has a
-- reference more than it is accounted for, until the login takes it.
pub mod Registering
use multi_threaded_tic_tac_t.Base.{
  ℕ, ◌+◌, ◌*◌, ◌≤◌, ◌<◌, ◌≡◌, refl, sym, ap, ◌∙◌, subst, ◌≢◌, ◌⊎◌, inl, inr, Bool, true, false,
  Option, none, some, List, [], ◌∷◌, arith, ◌==◌, if◌then◌else◌, length, ==_self, ==_false,
  Bool-cases, ◌&&◌,
}
use multi_threaded_tic_tac_t.Objects.{Ptr, null, Name, Player, Client}
use multi_threaded_tic_tac_t.World.{Env, World, done, update}
use multi_threaded_tic_tac_t.PlayerRegistry.{find_player}
use multi_threaded_tic_tac_t.ClientRegistry.{max_clients, is_listed, unlist}
use multi_threaded_tic_tac_t.ClientRegistry.Listing.{Live, AllLive}
use multi_threaded_tic_tac_t.Session.{client_login}
use multi_threaded_tic_tac_t.Session.Names.{Taken, LoggedInAs}
use multi_threaded_tic_tac_t.Session.Login.{MayLogin, logged, client_login-Taken}
use multi_threaded_tic_tac_t.Shutdown.Quiet.{
  Quiet, AllQuiet, AllDifferent, Closing, uses, uses-update, AllQuiet-map,
}
use multi_threaded_tic_tac_t.Shutdown.Listed.{uses-unlist, AllDifferent-unlist, Quiet-at}
use multi_threaded_tic_tac_t.Shutdown.Ending.{Quiescent, players_of}
use multi_threaded_tic_tac_t.Lobby.{Lobby, AllGranted}

-- The lobby with a reference more to the player at `q`.
pub record Half (w : World) (q : Ptr) (p : Player) : Type 0 where
  pub counted : w.client_registry.client_count ≡ length w.client_registry.head
  pub bounded : w.client_registry.client_count ≤ max_clients
  pub free : w.held ≡ []
  pub quiet : AllQuiet w.clients w.players w.client_registry.head
  pub different : AllDifferent w.client_registry.head
  pub q_ne : q ≢ null
  pub live : w.players q ≡ some p
  pub extra : p.ref_count ≡ 2 + 2 * uses w.clients w.client_registry.head q
  pub others :
      (a : Ptr) (o : Player)
      → a ≢ q
      → w.players a ≡ some o
      → o.ref_count ≡ 1 + 2 * uses w.clients w.client_registry.head a
  pub players_different : AllDifferent (players_of w.player_registry)
  pub players_ne : is_listed (players_of w.player_registry) null ≡ false
  pub players_live :
      (a : Ptr)
      → is_listed (players_of w.player_registry) a ≡ true
      → (o : Player) × (w.players a ≡ some o)
  pub fresh_ne : w.fresh ≢ null
  pub clients_below : (c : Ptr) (k : Client) → w.clients c ≡ some k → c < w.fresh
  pub players_below : (a : Ptr) (o : Player) → w.players a ≡ some o → a < w.fresh
  pub known :
      (name : Name) (a : Ptr)
      → find_player w.player_registry name ≡ some a
      → (o : Player) × (w.players a ≡ some o) × (o.username ≡ name)

pub AllLive-of :
    (clients : Ptr → Option Client) (players : Ptr → Option Player) (cs : List Ptr)
    → ((a : Ptr) (o : Player) → players a ≡ some o → 1 ≤ o.ref_count)
    → AllQuiet clients players cs
    → AllLive players clients cs
AllLive-of clients players [] positive h = tt
AllLive-of clients players (c ∷ cs) positive (q, rest) = (
  q.client_ne,
  (
    q.client,
    q.live,
    λ on ne. elim q.owner [
      | inl (off, nobody) ↦ absurd (ne nobody)
      | inr (is_in, somebody, (p, e)) ↦ record {
        player = p;
        player_ne = ne;
        here = e;
        counted = positive q.client.player p e;
      }
    ],
  ),
  AllLive-of clients players cs positive rest,
)

Half-positive :
    (w : World) (q : Ptr) (p : Player)
    → Half w q p
    → (a : Ptr) (o : Player) → w.players a ≡ some o
    → 1 ≤ o.ref_count
Half-positive w q p h a o e = elim (Bool-cases (a == q)) [
  | inl same ↦ ground (arith, h.live, h.extra, e)
  | inr other ↦ omega (arith, h.others a o (ground arith) e)
]

-- A client that is not logged in has no player.
nobody_owned :
    {clients : Ptr → Option Client} {players : Ptr → Option Player} {c : Ptr}
    → (x : Quiet clients players c) → x.client.logged_in ≡ false
    → x.client.player ≡ null
nobody_owned x off = elim x.owner [
  | inl (no_login, nobody) ↦ nobody
  | inr (is_in, somebody, there) ↦ absurd (ground arith)
]

module _ (w : World) (q : Ptr) (p : Player) (c : Ptr) (k : Client) (h : Half w q p)
    (listed : is_listed w.client_registry.head c ≡ true) (live : w.clients c ≡ some k)
    (off : k.logged_in ≡ false) where
  abbrev owner_now : Client
  owner_now = record k { logged_in = true; player = q }

  abbrev clients_now : Ptr → Option Client
  clients_now = update w.clients c (some owner_now)

  abbrev players_now : Ptr → Option Player
  players_now = update w.players q (some (record p { ref_count = p.ref_count + 1 }))

  -- The players that are there stay there, with their names, and no player is new.
  stays :
      (a : Ptr) (o : Player)
      → w.players a ≡ some o
      → (r : Player) × (players_now a ≡ some r) × (r.username ≡ o.username)
  stays a o e = elim (Bool-cases (a == q)) [
    | inl same ↦ (record p { ref_count = p.ref_count + 1 }, rw same refl, ground (arith, h.live, e))
    | inr other ↦ (o, rw other e, refl)
  ]

  was : (a : Ptr) (r : Player) → players_now a ≡ some r → (o : Player) × (w.players a ≡ some o)
  was a r e = elim (Bool-cases (a == q)) [
    | inl same ↦ (p, ground (arith, h.live))
    | inr other ↦ (r, rw other at e)
  ]

  quiet_now : AllQuiet clients_now players_now w.client_registry.head
  quiet_now =
      AllQuiet-map w.clients clients_now w.players players_now w.client_registry.head
        (λ d e x. elim (Bool-cases (d == c)) [
          | inl same ↦ record {
            client = owner_now;
            client_ne = x.client_ne;
            live = rw same refl;
            single = ground (arith, x.single, x.live, live);
            no_invitations = ground (arith, x.no_invitations, x.live, live);
            owner =
                inr (refl, h.q_ne, (record p { ref_count = p.ref_count + 1 }, rw (==_self q) refl));
          }
          | inr other ↦ record {
            client = x.client;
            client_ne = x.client_ne;
            live = rw other x.live;
            single = x.single;
            no_invitations = x.no_invitations;
            owner = elim x.owner [
              | inl out ↦ inl out
              | inr (is_in, somebody, (o, there)) ↦
                  let (r, still, same) = stays x.client.player o there in
                  inr (is_in, somebody, (r, still))
            ];
          }
        ])
        h.quiet

  -- The client now counts for the player at `q`, and for no other one.
  uses_now :
      (a : Ptr)
      → uses clients_now w.client_registry.head a
        ≡ uses w.clients w.client_registry.head a + (if q == a then 1 else 0)
  unfolding uses
  uses_now a =
      let cs = w.client_registry.head in
      let fresh = (AllDifferent-unlist cs c h.different).1 in
      ground (
        arith,
        uses-unlist w.clients cs c a listed,
        uses-unlist clients_now cs c a listed,
        uses-update w.clients (some owner_now) (unlist cs c) c a fresh,
        live,
        off,
        ==_self c,
      )

  references_now :
      (a : Ptr) (r : Player)
      → players_now a ≡ some r
      → r.ref_count ≡ 1 + 2 * uses clients_now w.client_registry.head a
  references_now a r e = elim (Bool-cases (a == q)) [
    | inl same ↦ ground (arith, e, h.extra, uses_now a)
    | inr other ↦ ground (arith, h.others a r, e, uses_now a)
  ]

  logged-Lobby :
      Lobby (record w { clients = clients_now; players = players_now; requests = w.requests + 1 })
  logged-Lobby = record {
    quiescent = record {
      closing = record {
        listed = refl;
        counted = h.counted;
        free = h.free;
        quiet = quiet_now;
        different = h.different;
        references = references_now;
      };
      different = h.players_different;
      players_ne = h.players_ne;
      players_live = λ a e.
          let (o, there) = h.players_live a e in
          let (r, still, same) = stays a o there in (r, still);
    };
    bounded = h.bounded;
    fresh_ne = h.fresh_ne;
    clients_below = λ d l e. ground (arith, h.clients_below d l, h.clients_below c k live);
    players_below = λ a r e. let (o, there) = was a r e in h.players_below a o there;
    known = λ name a found.
        let (o, there, named) = h.known name a found in
        let (r, still, same) = stays a o there in (r, still, same ∙ named);
  }

  may_login : MayLogin w c k q p
  may_login = record {
    client_ne = (Quiet-at w.clients w.players w.client_registry.head c h.quiet listed).client_ne;
    live = live;
    logged_out = off;
    player_ne = h.q_ne;
    player_live = h.live;
    all_live =
        AllLive-of w.clients w.players w.client_registry.head (Half-positive w q p h) h.quiet;
    bounded = omega (arith, h.counted, h.bounded);
    free = h.free;
  }

  -- A login under a name that is free is granted.
  pub login_granted :
      (env : Env)
      → AllGranted env
      → (Taken w.players w.clients w.client_registry.head p.username → ⊥)
      → (v : World) × (client_login env c q w ≡ done true v)
        × Lobby v
        × (v.clients c ≡ some owner_now)
        × (v.client_registry ≡ w.client_registry)
  login_granted env granted free_name =
      elim (client_login-Taken env w c k q p may_login (granted w.requests)) [
        | inl (refused, taken) ↦ absurd (free_name taken)
        | inr (ran, name_free) ↦ (
          record w { clients = clients_now; players = players_now; requests = w.requests + 1 },
          ran,
          logged-Lobby,
          rw (==_self c) refl,
          refl,
        )
      ]
