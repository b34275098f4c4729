-- ===== src/Examples/Life.antt =====
-- The server from its start to its end, src/main.c, with two connections.
use multi_threaded_tic_tac_t.Base.{
  ℕ, inl, inr, arith, ◌≡◌, refl, true, false, none, some, List, [], ◌∷◌,
}
use multi_threaded_tic_tac_t.Objects.{Ptr}
use multi_threaded_tic_tac_t.World.{World, done}
use multi_threaded_tic_tac_t.PlayerRegistry.{preg_init}
use multi_threaded_tic_tac_t.ClientRegistry.{is_listed, creg_init}
use multi_threaded_tic_tac_t.Shutdown.{terminate}
use multi_threaded_tic_tac_t.Shutdown.Ending.{players_of}
use multi_threaded_tic_tac_t.Lobby.{Lobby, AllGranted}
use multi_threaded_tic_tac_t.Server.{Packet, jeux_client_service}
use multi_threaded_tic_tac_t.Lobby.Service.{service_returns}
use multi_threaded_tic_tac_t.Lobby.Runs.{
  Visit, connect, log_in, hang_up, visit_all, Blank, with_registries, with_registries-Lobby,
  life_of_server,
}
use multi_threaded_tic_tac_t.Examples.Setting.{env, env-AllWritten, ann, lobby, one-null}

abbrev blank : World
blank = record lobby {
  players = λ a. none;
  games = λ a. none;
  invs = λ a. none;
  clients = λ c. none;
  fresh = 1;
  client_registry = record { P_flag = false; head = []; client_count = 0; semaphore = 0 };
  player_registry = [];
}

blank-Blank : Blank blank
blank-Blank = record {
  no_clients = λ c. refl;
  no_players = λ a. refl;
  free = refl;
  fresh_ne = one-null;
}

env-AllGranted : AllGranted env
env-AllGranted n = refl

-- The client 1 logs in as ann; the client 2 cannot until the client 1 has left.
abbrev visits : List Visit
visits =
    connect 4
    ∷ connect 5
    ∷ log_in 1 (some ann.username)
    ∷ log_in 2 (some ann.username)
    ∷ hang_up 1
    ∷ log_in 2 (some ann.username)
    ∷ connect 4
    ∷ []

life_of_server_example :
    (a : World) × (b : World) × (v : World) × (u : World) × (creg_init env blank ≡ done true a)
    × (preg_init env a ≡ done true b)
    × (visit_all env visits b ≡ done tt v)
    × Lobby v
    × (terminate env v ≡ done true u)
    × ((c : Ptr) → is_listed v.client_registry.head c ≡ true → u.clients c ≡ none)
    × ((p : Ptr) → is_listed (players_of v.player_registry) p ≡ true → u.players p ≡ none)
    × (u.client_registry.head ≡ [])
    × (u.player_registry ≡ [])
    × (u.held ≡ [])
life_of_server_example = life_of_server env visits blank env-AllGranted env-AllWritten blank-Blank

-- A LOGIN, a packet of no known type, and a second LOGIN.
abbrev packet : ℕ → Packet
packet type = (
  record { type = type; id = 0; role = 0; size = 0; timestamp_sec = 0; timestamp_nsec = 0 },
  some ann.username,
)

abbrev packets : List Packet
packets = packet 1 ∷ packet 9 ∷ packet 1 ∷ []

service_returns_example :
    (v : World) × (jeux_client_service env 4 packets (with_registries blank) ≡ done tt v)
    × Lobby v
    × (v.client_registry.head ≡ [])
    × (v.held ≡ [])
service_returns_example =
    service_returns env 4 packets (with_registries blank) env-AllGranted env-AllWritten
      (with_registries-Lobby blank blank-Blank)
      (inl refl, (inr (inr (omega arith)), (inl refl, tt)))
