-- ===== src/Shutdown/Ending.antt =====
-- The end of the server: `preg_fini` of src/player_registry.c and `terminate` of src/main.c.
use multi_threaded_tic_tac_t.Base.{
  ◌≡◌, refl, sym, ◌≢◌, inl, inr, true, false, Option, none, some, List, [], ◌∷◌, arith, ◌==◌,
  ==_self, Bool-cases, subst,
}
use multi_threaded_tic_tac_t.Objects.{Ptr, null, Player, PlayerNode}
use multi_threaded_tic_tac_t.World.{
  Env, World, done, crash, load_client, update, lock, unlock, holds, without, same_mutex,
  load_player, player_registry_lock,
}
use multi_threaded_tic_tac_t.Player.{player_unref}
use multi_threaded_tic_tac_t.Session.{client_logout}
use multi_threaded_tic_tac_t.PlayerRegistry.{player_registry_free_nodes, preg_fini}
use multi_threaded_tic_tac_t.ClientRegistry.{
  is_listed, raise_flag, check_empty, pass, creg_wait_for_empty, creg_fini, free_clients,
}
use multi_threaded_tic_tac_t.Shutdown.{creg_shutdown_all, terminate, end_service}
use multi_threaded_tic_tac_t.Shutdown.Quiet.{Closing, AllDifferent, Keeps, uses}
use multi_threaded_tic_tac_t.Shutdown.Clients.{close_all, with_fds}

abbrev pub players_of : List PlayerNode → List Ptr
players_of [] = []
players_of (n ∷ ns) = n.player ∷ players_of ns

-- Each player has one reference left.
abbrev pub Last : (Ptr → Option Player) → List Ptr → Type 0
Last players [] = Unit {0}
Last players (a ∷ ps) =
    (a ≢ null) × ((p : Player) × (players a ≡ some p) × (p.ref_count ≡ 1)) × Last players ps

Last-update :
    (players : Ptr → Option Player) (a : Ptr) (ps : List Ptr)
    → is_listed ps a ≡ false
    → Last players ps
    → Last (update players a none) ps
unfolding is_listed
Last-update players a [] h l = tt
Last-update players a (b ∷ ps) h (ne, (p, e, one), rest) =
    (ne, (p, ground (arith, e), one), Last-update players a ps (ground arith) rest)

unref_last :
    (w : World) (a : Ptr) (p : Player)
    → a ≢ null
    → w.players a ≡ some p
    → p.ref_count ≡ 1
    → w.held ≡ player_registry_lock ∷ []
    → player_unref a w ≡ done tt (record w { players = update w.players a none })
unfolding player_unref lock unlock holds without same_mutex load_player
unref_last w a p ne e one h = ground (arith, ne, e, one, h)

-- The players behind the freeing of those at `ps`.
record Freed (f g : Ptr → Option Player) (ps : List Ptr) : Type 0 where
  freed : (a : Ptr) → is_listed ps a ≡ true → g a ≡ none
  kept : (a : Ptr) → f a ≡ none → g a ≡ none

free_nodes_lem :
    (w : World) (ns : List PlayerNode)
    → Last w.players (players_of ns)
    → AllDifferent (players_of ns)
    → w.held ≡ player_registry_lock ∷ []
    → (g : Ptr → Option Player) × (player_registry_free_nodes ns w
        ≡ done tt (record w { players = g }))
      × Freed w.players g (players_of ns)
unfolding player_registry_free_nodes is_listed
free_nodes_lem w [] l d h =
    (w.players, refl, record { freed = λ a e. ground arith; kept = λ a e. e })
free_nodes_lem w (n ∷ ns) (ne, (p, e, one), rest) (fresh, d) h =
    let f = update w.players n.player none in
    let v = record w { players = f } in
    let (g, run, others) =
      free_nodes_lem v ns (Last-update w.players n.player (players_of ns) fresh rest) d h in
    (
      g,
      rw (unref_last w n.player p ne e one h) run,
      record {
        freed = λ a x. elim (Bool-cases (n.player == a)) [
          | inl same ↦ others.kept a (ground arith)
          | inr other ↦ others.freed a (ground arith)
        ];
        kept = λ a x. others.kept a (ground (arith, x));
      },
    )

preg_fini_lem :
    (w : World)
    → Last w.players (players_of w.player_registry)
    → AllDifferent (players_of w.player_registry)
    → w.held ≡ []
    → (g : Ptr → Option Player) × (preg_fini w
        ≡ done tt (record w { players = g; player_registry = [] }))
      × Freed w.players g (players_of w.player_registry)
unfolding preg_fini lock unlock holds without same_mutex
preg_fini_lem w l d h =
    let taken = record w { held = player_registry_lock ∷ [] } in
    let (g, run, freed) = free_nodes_lem taken w.player_registry l d refl in
    (g, ground (arith, h, run), freed)

-- With no client left, the wait returns at once, and the registry of the clients is freed.
wait_and_fini :
    (w : World)
    → w.client_registry.head ≡ []
    → w.client_registry.client_count ≡ 0
    → (creg_wait_for_empty w
        ≡ done tt (record w { client_registry = raise_flag w.client_registry }))
      × (creg_fini (record w { client_registry = raise_flag w.client_registry })
          ≡ done true (record w { client_registry = raise_flag w.client_registry }))
unfolding creg_wait_for_empty creg_fini free_clients raise_flag check_empty pass
wait_and_fini w h e = (ground arith, ground arith)

-- Before the end: the registered clients do not play, and each registered player has one
-- reference of its registry and two for each client that is logged in as that player.
pub record Quiescent (w : World) : Type 0 where
  pub closing : Closing w w.client_registry.head
  pub different : AllDifferent (players_of w.player_registry)
  pub players_ne : is_listed (players_of w.player_registry) null ≡ false
  pub players_live :
      (a : Ptr)
      → is_listed (players_of w.player_registry) a ≡ true
      → (p : Player) × (w.players a ≡ some p)

Last-of :
    (players : Ptr → Option Player) (ps : List Ptr)
    → is_listed ps null ≡ false
    → ((a : Ptr) → is_listed ps a ≡ true → (p : Player) × (players a ≡ some p) × (p.ref_count ≡ 1))
    → Last players ps
unfolding is_listed
Last-of players [] h l = tt
Last-of players (a ∷ ps) h l = (
  λ e. ground (arith, e),
  l a (rw (==_self a) refl),
  Last-of players ps (ground arith) (λ b e. l b (ground (arith, e))),
)

Last-left :
    (w v : World)
    → Quiescent w
    → Closing v []
    → Keeps w.players v.players
    → Last v.players (players_of w.player_registry)
unfolding uses
Last-left w v h c keeps = Last-of v.players (players_of w.player_registry) h.players_ne (λ a e.
    let (p, there) = h.players_live a e in
    let (q, still) = keeps a p there in (q, still, c.references a q still))

-- Where nobody plays, each player has the references that its registry and its clients account for,
-- and no mutex is locked (`Quiescent`), `terminate` ends: the reading side of every client's
-- connection is shut, every client and every player is freed, both registries are empty and gone,
-- and no mutex stays locked.
pub terminate_lem :
    (env : Env) (w : World)
    → Quiescent w
    → (v : World) × (terminate env w ≡ done true v)
      × (v.shut ≡ with_fds w.clients w.client_registry.head w.shut)
      × ((c : Ptr) → is_listed w.client_registry.head c ≡ true → v.clients c ≡ none)
      × ((a : Ptr) → is_listed (players_of w.player_registry) a ≡ true → v.players a ≡ none)
      × (v.client_registry.head ≡ [])
      × (v.player_registry ≡ [])
      × (v.held ≡ [])
unfolding terminate creg_shutdown_all raise_flag
terminate_lem env w h =
    let (u, closed, c, behind) = close_all env w w.client_registry.head h.closing in
    let (waited, finished) = wait_and_fini u c.listed c.counted in
    let t = record u { client_registry = raise_flag u.client_registry } in
    let same = behind.same_names in
    let last = Last-left w u h c behind.players_kept in
    let (g, ended, freed) =
      preg_fini_lem t (subst (λ l. Last u.players (players_of l)) (sym same) last)
        (subst (λ l. AllDifferent (players_of l)) (sym same) h.different) c.free in
    (
      record t { players = g; player_registry = [] },
      rw (closed, waited, finished, ended) refl,
      behind.descriptors,
      behind.freed,
      λ a e. freed.freed a (subst (λ l. is_listed (players_of l) a ≡ true) (sym same) e),
      c.listed,
      refl,
      c.free,
    )

-- Where no registered client has an invitation, each has the one reference of the registry, each
-- player has one reference of its registry and two for each client that is logged in as it, and no
-- mutex is locked (`Closing`): behind `creg_shutdown_all`, the service thread of a client that was
-- registered reads the freed client when its connection ends.
pub service_ends_freed :
    (env : Env) (w : World) (c : Ptr)
    → Closing w w.client_registry.head
    → is_listed w.client_registry.head c ≡ true
    → (v : World) × (creg_shutdown_all env w ≡ done tt v) × (end_service env c v ≡ crash)
unfolding creg_shutdown_all end_service player_unref client_logout lock holds load_client
service_ends_freed env w c h e =
    let (v, closed, left, behind) = close_all env w w.client_registry.head h in
    (v, closed, ground (arith, behind.freed c e, left.free))
