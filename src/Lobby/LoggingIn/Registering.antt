-- ===== src/Lobby/LoggingIn/Registering.antt =====
-- `preg_register` of src/player_registry.c while nobody plays, and what it does to the names that
-- are taken.
use multi_threaded_tic_tac_t.Base.{
  ◌+◌, ◌<◌, ◌≡◌, refl, sym, ◌∙◌, ◌≢◌, inl, inr, true, false, Option, none, some, List, [], ◌∷◌,
  arith, ◌==◌, ==_self, Bool-cases, Option-cases,
}
use multi_threaded_tic_tac_t.Objects.{Ptr, Name, Player, PlayerNode, Client, initial}
use multi_threaded_tic_tac_t.World.{Env, World, done, update}
use multi_threaded_tic_tac_t.PlayerRegistry.{same_text, find_player, preg_register}
use multi_threaded_tic_tac_t.PlayerRegistry.Names.{
  same_text-eq, registered, register_known, register_new,
}
use multi_threaded_tic_tac_t.ClientRegistry.{is_listed}
use multi_threaded_tic_tac_t.Session.Names.{Taken}
use multi_threaded_tic_tac_t.Shutdown.Quiet.{AllQuiet, uses, AllQuiet-map}
use multi_threaded_tic_tac_t.Shutdown.Ending.{players_of}
use multi_threaded_tic_tac_t.Lobby.{Lobby, AllGranted}
use multi_threaded_tic_tac_t.Lobby.LoggingIn.{Half}

-- A player that is found under a name is registered.
find_player-listed :
    (ns : List PlayerNode) (name : Name) (a : Ptr)
    → find_player ns name ≡ some a
    → is_listed (players_of ns) a ≡ true
unfolding find_player is_listed
find_player-listed [] name a e = ground arith
find_player-listed (n ∷ ns) name a e = ground (arith, find_player-listed ns name a, ==_self a)

-- The players that are in both memories have the same names.
abbrev pub SameNames : (Ptr → Option Player) → (Ptr → Option Player) → Type 0
SameNames f g = (a : Ptr) (o r : Player) → f a ≡ some o → g a ≡ some r → r.username ≡ o.username

pub Taken-back :
    (clients : Ptr → Option Client) (f g : Ptr → Option Player) (cs : List Ptr) (name : Name)
    → SameNames f g
    → AllQuiet clients f cs
    → Taken g clients cs name
    → Taken f clients cs name
Taken-back clients f g [] name same h t = t
Taken-back clients f g (c ∷ cs) name same (x, rest) (inr t) =
    inr (Taken-back clients f g cs name same rest t)
Taken-back clients f g (c ∷ cs) name same (x, rest) (inl t) = elim x.owner [
  | inl (off, nobody) ↦ absurd (ground (arith, t.live, x.live, t.logged_in))
  | inr (is_in, somebody, (o, there)) ↦ inl (record {
    client = x.client;
    player = o;
    live = x.live;
    logged_in = is_in;
    player_ne = somebody;
    player_live = there;
    name_is =
        sym (same x.client.player o t.player there (ground (arith, t.player_live, t.live, x.live)))
        ∙ t.name_is;
  })
]

-- What a registration gives the caller.
pub record Registered (w u : World) (name : Name) (q : Ptr) : Type 0 where
  pub player : Player
  pub half : Half u q player
  pub named : player.username ≡ name
  pub same_names : SameNames w.players u.players
  pub same_clients : u.clients ≡ w.clients
  pub same_registry : u.client_registry ≡ w.client_registry

module _ (w : World) (name : Name) (h : Lobby w) where
  -- A registered player, with a reference more.
  module _ (q : Ptr) (p : Player) (found : find_player w.player_registry name ≡ some q)
      (there : w.players q ≡ some p) (named : p.username ≡ name) where
    abbrev referred : World
    referred = record w {
      players = update w.players q (some (record p { ref_count = p.ref_count + 1 }));
    }

    stays :
        (a : Ptr) (o : Player)
        → w.players a ≡ some o
        → (r : Player) × (referred.players a ≡ some r) × (r.username ≡ o.username)
    stays a o e = elim (Bool-cases (a == q)) [
      | inl same ↦
          (record p { ref_count = p.ref_count + 1 }, rw same refl, ground (arith, there, e))
      | inr other ↦ (o, rw other e, refl)
    ]

    listed : is_listed (players_of w.player_registry) q ≡ true
    listed = find_player-listed w.player_registry name q found

    referred-Half : Half referred q (record p { ref_count = p.ref_count + 1 })
    referred-Half =
        let c = h.quiescent.closing in
        record {
          counted = c.counted;
          bounded = h.bounded;
          free = c.free;
          quiet =
              AllQuiet-map w.clients w.clients w.players referred.players w.client_registry.head
                (λ d e x. record {
                  client = x.client;
                  client_ne = x.client_ne;
                  live = x.live;
                  single = x.single;
                  no_invitations = x.no_invitations;
                  owner = elim x.owner [
                    | inl out ↦ inl out
                    | inr (is_in, somebody, (o, e2)) ↦
                        let (r, still, same) = stays x.client.player o e2 in
                        inr (is_in, somebody, (r, still))
                  ];
                })
                c.quiet;
          different = c.different;
          q_ne = λ e. absurd (ground (arith, listed, h.quiescent.players_ne, e));
          live = rw (==_self q) refl;
          extra = ground (arith, c.references q p there);
          others = λ a o ne e. c.references a o (ground (arith, ne, e));
          players_different = h.quiescent.different;
          players_ne = h.quiescent.players_ne;
          players_live = λ a e.
              let (o, e2) = h.quiescent.players_live a e in
              let (r, still, same) = stays a o e2 in (r, still);
          fresh_ne = h.fresh_ne;
          clients_below = h.clients_below;
          players_below = λ a o e. elim (Bool-cases (a == q)) [
            | inl same ↦ ground (arith, h.players_below q p there)
            | inr other ↦ h.players_below a o (rw other at e)
          ];
          known = λ n a e.
              let (o, e2, m) = h.known n a e in
              let (r, still, same) = stays a o e2 in (r, still, same ∙ m);
        }

    referred-Registered : Registered w referred name q
    referred-Registered = record {
      player = record p { ref_count = p.ref_count + 1 };
      half = referred-Half;
      named = named;
      same_names = λ a o r e f. ground (arith, e, f, there);
      same_clients = refl;
      same_registry = refl;
    }

-- No client is logged in as a player that is not there.
uses-none :
    (clients : Ptr → Option Client) (players : Ptr → Option Player) (cs : List Ptr) (a : Ptr)
    → AllQuiet clients players cs
    → players a ≡ none
    → uses clients cs a ≡ 0
unfolding uses
uses-none clients players [] a h e = refl
uses-none clients players (c ∷ cs) a (x, rest) e = elim x.owner [
  | inl (off, nobody) ↦ ground (arith, x.live, off, uses-none clients players cs a rest e)
  | inr (is_in, somebody, (o, there)) ↦
      let other : x.client.player ≢ a = λ same. ground (arith, there, e, same) in
      ground (arith, x.live, other, uses-none clients players cs a rest e)
]

module _ (env : Env) (w : World) (name : Name) (h : Lobby w)
    (unknown : find_player w.player_registry name ≡ none) where
  -- A new player, with the reference of the registry and the caller's.
  abbrev added : World
  added = registered env w name h.quiescent.closing.free

  abbrev new_player : Player
  new_player = record { username = name; rating = initial; ref_count = 2 }

  nobody_there : w.players w.fresh ≡ none
  nobody_there = elim (Option-cases (w.players w.fresh)) [
    | inl empty ↦ empty
    | inr (o, e) ↦ absurd (omega (arith, h.players_below w.fresh o e))
  ]

  -- An old player is where it was.
  old_stays : (a : Ptr) (o : Player) → w.players a ≡ some o → added.players a ≡ some o
  old_stays a o e = ground (arith, e, h.players_below a o e)

  unlisted : is_listed (players_of w.player_registry) w.fresh ≡ false
  unlisted = elim (Bool-cases (is_listed (players_of w.player_registry) w.fresh)) [
    | inl is_in ↦
        let (o, e) = h.quiescent.players_live w.fresh is_in in
        absurd (omega (arith, h.players_below w.fresh o e))
    | inr out ↦ out
  ]

  added-Half : Half added w.fresh new_player
  unfolding is_listed find_player
  added-Half =
      let c = h.quiescent.closing in
      record {
        counted = c.counted;
        bounded = h.bounded;
        free = c.free;
        quiet =
            AllQuiet-map w.clients w.clients w.players added.players w.client_registry.head
              (λ d e x. record {
                client = x.client;
                client_ne = x.client_ne;
                live = x.live;
                single = x.single;
                no_invitations = x.no_invitations;
                owner = elim x.owner [
                  | inl out ↦ inl out
                  | inr (is_in, somebody, (o, e2)) ↦
                      inr (is_in, somebody, (o, old_stays x.client.player o e2))
                ];
              })
              c.quiet;
        different = c.different;
        q_ne = h.fresh_ne;
        live = rw (==_self w.fresh) refl;
        extra = ground (
          arith,
          uses-none w.clients w.players w.client_registry.head w.fresh c.quiet nobody_there,
        );
        others = λ a o ne e. c.references a o (ground (arith, ne, e));
        players_different = (unlisted, h.quiescent.different);
        players_ne = ground (arith, h.quiescent.players_ne, h.fresh_ne);
        players_live = λ a e. elim (Bool-cases (w.fresh == a)) [
          | inl same ↦ (new_player, ground (arith, same))
          | inr other ↦
              let (o, e2) = h.quiescent.players_live a (rw other at e) in (o, old_stays a o e2)
        ];
        fresh_ne = λ e. omega (arith, e);
        clients_below = λ d k e. omega (arith, h.clients_below d k e);
        players_below = λ a o e. elim (Bool-cases (a == w.fresh)) [
          | inl same ↦ ground (arith, same)
          | inr other ↦
              let below : a < w.fresh = h.players_below a o (rw other at e) in omega (arith, below)
        ];
        known = λ n a e. elim (Bool-cases (same_text name n)) [
          | inl same ↦ (new_player, ground (arith, same, e), same_text-eq name n same)
          | inr other ↦ let (o, e2, m) = h.known n a (rw other at e) in (o, old_stays a o e2, m)
        ];
      }

  added-Registered : Registered w added name w.fresh
  added-Registered = record {
    player = new_player;
    half = added-Half;
    named = refl;
    same_names = λ a o r e f. ground (arith, f, old_stays a o e);
    same_clients = refl;
    same_registry = refl;
  }

-- While nobody plays, a registration returns a player with a reference for the caller.
pub registers :
    (env : Env) (w : World) (name : Name)
    → AllGranted env
    → Lobby w
    → (q : Ptr) × (u : World) × (preg_register env name w ≡ done q u) × Registered w u name q
registers env w name granted h =
    let free = h.quiescent.closing.free in
    elim (Option-cases (find_player w.player_registry name)) [
      | inl unknown ↦ (
        w.fresh,
        registered env w name free,
        register_new env w name free unknown h.fresh_ne (granted w.requests)
            (granted (w.requests + 1)),
        added-Registered env w name h unknown,
      )
      | inr (q, found) ↦
          let (p, there, named) = h.known name q found in
          let x = referred-Registered w name h q p found there named in
          (
            q,
            referred w name h q p found there named,
            register_known env w name free q p found x.half.q_ne there,
            x,
          )
    ]
