-- ===== src/Lobby/Runs.antt =====
-- The whole life of the server while nobody plays: it starts, connections come, log in and go in
-- any order, and `terminate` of src/main.c ends it.
use multi_threaded_tic_tac_t.Base.{
  ℕ, ◌+◌, ◌≡◌, refl, ◌≢◌, inl, inr, true, false, Option, none, List, [], ◌∷◌, arith, if◌then◌else◌,
  Bool-cases,
}
use multi_threaded_tic_tac_t.Objects.{Ptr, null}
use multi_threaded_tic_tac_t.World.{
  Env, World, done, M, pure, ◌>>=◌, ◌>>◌, get_registry, load_client, request,
}
use multi_threaded_tic_tac_t.PlayerRegistry.{find_player, preg_init}
use multi_threaded_tic_tac_t.ClientRegistry.{is_listed, creg_init, creg_register}
use multi_threaded_tic_tac_t.Client.Sending.{AllWritten}
use multi_threaded_tic_tac_t.Server.{handle_login}
use multi_threaded_tic_tac_t.Shutdown.{end_service, terminate}
use multi_threaded_tic_tac_t.Shutdown.Listed.{Quiet-at}
use multi_threaded_tic_tac_t.Shutdown.Ending.{players_of, terminate_lem}
use multi_threaded_tic_tac_t.Lobby.{Lobby, AllGranted}
use multi_threaded_tic_tac_t.Lobby.Connecting.{connects}
use multi_threaded_tic_tac_t.Lobby.Leaving.{leaves}
use multi_threaded_tic_tac_t.Lobby.Requests.{logs_in}

-- A connection on a descriptor, a LOGIN of a client, or the end of a client's connection.
pub data Visit : Type 0 where
  connect : ℕ → Visit
  log_in : Ptr → Option (List ℕ) → Visit
  hang_up : Ptr → Visit

-- A client that is not registered has no thread, and does nothing.
unfoldable pub visit : Env → Visit → M (Unit {0})
visit env (connect fd) = do creg_register env fd; pure tt
visit env (log_in c payload) = do
  cr ← get_registry
  if is_listed cr.head c
      then (do k ← load_client c; handle_login env c k.logged_in payload; pure tt)
      else pure tt
visit env (hang_up c) = do
  cr ← get_registry
  if is_listed cr.head c then end_service env c else pure tt

unfoldable pub visit_all : Env → List Visit → M (Unit {0})
visit_all env [] = pure tt
visit_all env (x ∷ xs) = do visit env x; visit_all env xs

visit_lem :
    (env : Env) (x : Visit) (w : World)
    → AllGranted env
    → AllWritten env
    → Lobby w
    → (v : World) × (visit env x w ≡ done tt v) × Lobby v
unfolding visit load_client
visit_lem env (connect fd) w granted written h =
    let (p, v, ran, after, what) = connects env fd w granted h in (v, rw ran refl, after)
visit_lem env (log_in c payload) w granted written h =
    elim (Bool-cases (is_listed w.client_registry.head c)) [
      | inl listed ↦
          let q =
            Quiet-at w.clients w.players w.client_registry.head c h.quiescent.closing.quiet
              listed in
          let (b, v, ran, after, marked, same) =
            logs_in env granted written w c q.client h listed q.live q.client_ne payload in
          (v, rw (listed, q.live, ran) refl, after)
      | inr gone ↦ (w, rw gone refl, h)
    ]
visit_lem env (hang_up c) w granted written h =
    elim (Bool-cases (is_listed w.client_registry.head c)) [
      | inl listed ↦
          let (v, ran, after, fewer) = leaves env c w h listed in (v, rw (listed, ran) refl, after)
      | inr gone ↦ (w, rw gone refl, h)
    ]

pub visit_all_lem :
    (env : Env) (xs : List Visit) (w : World)
    → AllGranted env
    → AllWritten env
    → Lobby w
    → (v : World) × (visit_all env xs w ≡ done tt v) × Lobby v
unfolding visit_all
visit_all_lem env [] w granted written h = (w, refl, h)
visit_all_lem env (x ∷ xs) w granted written h =
    let (u, one, there) = visit_lem env x w granted written h in
    let (v, others, after) = visit_all_lem env xs u granted written there in
    (v, rw one others, after)

-- The memory of a process that starts.
pub record Blank (w : World) : Type 0 where
  pub no_clients : (c : Ptr) → w.clients c ≡ none
  pub no_players : (a : Ptr) → w.players a ≡ none
  pub free : w.held ≡ []
  pub fresh_ne : w.fresh ≢ null

abbrev pub with_clients : World → World
with_clients w = record w {
  requests = w.requests + 1 + 1 + 1;
  client_registry = record { P_flag = false; head = []; client_count = 0; semaphore = 0 };
}

abbrev pub with_registries : World → World
with_registries w = record (with_clients w) {
  requests = w.requests + 1 + 1 + 1 + 1;
  player_registry = [];
}

pub with_registries-Lobby : (w : World) → Blank w → Lobby (with_registries w)
unfolding find_player is_listed
with_registries-Lobby w h = record {
  quiescent = record {
    closing = record {
      listed = refl;
      counted = refl;
      free = h.free;
      quiet = tt;
      different = tt;
      references = λ a p e. ground (arith, e, h.no_players a);
    };
    different = tt;
    players_ne = refl;
    players_live = λ a e. ground (arith, e);
  };
  bounded = omega arith;
  fresh_ne = h.fresh_ne;
  clients_below = λ c k e. ground (arith, e, h.no_clients c);
  players_below = λ a p e. ground (arith, e, h.no_players a);
  known = λ name a e. ground (arith, e);
}

started :
    (env : Env) (w : World)
    → AllGranted env
    → (creg_init env w ≡ done true (with_clients w))
      × (preg_init env (with_clients w) ≡ done true (with_registries w))
unfolding creg_init preg_init request
started env w granted = (
  rw (granted w.requests, granted (w.requests + 1), granted (w.requests + 1 + 1)) refl,
  rw (granted (w.requests + 1 + 1 + 1)) refl,
)

-- Where every request for an object is granted and every write succeeds, the server starts in a
-- memory without clients and players, and connections come, log in under any names and go, in any
-- order. Every request returns; a player has one reference of the registry and two for each client
-- that is logged in as it; and `terminate` then ends, with every client and every player freed,
-- both registries empty and gone, and no mutex locked.
pub life_of_server :
    (env : Env) (xs : List Visit) (w : World)
    → AllGranted env
    → AllWritten env
    → Blank w
    → (a : World) × (b : World) × (v : World) × (u : World) × (creg_init env w ≡ done true a)
      × (preg_init env a ≡ done true b)
      × (visit_all env xs b ≡ done tt v)
      × Lobby v
      × (terminate env v ≡ done true u)
      × ((c : Ptr) → is_listed v.client_registry.head c ≡ true → u.clients c ≡ none)
      × ((p : Ptr) → is_listed (players_of v.player_registry) p ≡ true → u.players p ≡ none)
      × (u.client_registry.head ≡ [])
      × (u.player_registry ≡ [])
      × (u.held ≡ [])
life_of_server env xs w granted written blank =
    let (clients, players) = started env w granted in
    let (v, ran, h) =
      visit_all_lem env xs (with_registries w) granted written (with_registries-Lobby w blank) in
    let (u, ended, shut, freed, gone, empty, none_left, unlocked) =
      terminate_lem env v h.quiescent in
    (
      with_clients w,
      with_registries w,
      v,
      u,
      clients,
      players,
      ran,
      h,
      ended,
      freed,
      gone,
      empty,
      none_left,
      unlocked,
    )
