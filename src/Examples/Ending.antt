-- ===== src/Examples/Ending.antt =====
-- The start and the end of the server, src/main.c and src/client_registry.c, and a whole game of
-- src/game.c.
use multi_threaded_tic_tac_t.Base.{
  ◌≡◌, refl, true, false, none, some, List, [], ◌∷◌, arith, inl, inr, Bool-cases, ◌==◌,
}
use multi_threaded_tic_tac_t.Objects.{Ptr, null, Client}
use multi_threaded_tic_tac_t.World.{World, done, crash, update}
use multi_threaded_tic_tac_t.Game.{
  first_player_role, second_player_role, game_create, game_is_over, game_get_winner,
}
use multi_threaded_tic_tac_t.Game.Story.{
  Action, tell, owner, owns, has_line, line_winner, side_x, side_o, mark, resign, tell_all, on_move,
  is_over, winner_of,
}
use multi_threaded_tic_tac_t.Game.Refinement.{apply_all, picture, played-story}
use multi_threaded_tic_tac_t.ClientRegistry.{
  is_listed, raise_flag, check_empty, remove_client, signal_empty, unlist,
}
use multi_threaded_tic_tac_t.Shutdown.{terminate, creg_shutdown_all, end_service}
use multi_threaded_tic_tac_t.Shutdown.Quiet.{Closing, uses}
use multi_threaded_tic_tac_t.Shutdown.Clients.{with_fds}
use multi_threaded_tic_tac_t.Shutdown.Ending.{Quiescent, terminate_lem, service_ends_freed}
use multi_threaded_tic_tac_t.Options.{process_options, listening, no_options}
use multi_threaded_tic_tac_t.Options.Numbers.{arguments, chosen, process_options_lem}
use multi_threaded_tic_tac_t.Waiting.{
  System, move_pc, Reach, start, later, Step, raise, check, remove, signal, waiting, returned,
}
use multi_threaded_tic_tac_t.Waiting.Waking.{no_lost_wakeup, Once, returned-Once}
use multi_threaded_tic_tac_t.Waiting.Starving.{second_waiter_starves}
use multi_threaded_tic_tac_t.Examples.Setting.{env, ann, bob, idle, memory, one-null, two-null}

-- ann is logged in on the descriptor 4; nobody is on 5.
abbrev visitor : Client
visitor = record { fd = 5; ref_count = 1; logged_in = false; player = null; invitations = [] }

abbrev evening : World
evening = record (memory (idle 4 1) visitor none) {
  players = update (update (λ p. none) 1 (some ann)) 2 (some (record bob { ref_count = 1 }));
}

evening-Closing : Closing evening (2 ∷ 1 ∷ [])
unfolding uses is_listed
evening-Closing = record {
  listed = refl;
  counted = refl;
  free = refl;
  quiet = (
    record {
      client = visitor;
      client_ne = two-null;
      live = refl;
      single = refl;
      no_invitations = refl;
      owner = inl (refl, refl);
    },
    (
      record {
        client = idle 4 1;
        client_ne = one-null;
        live = refl;
        single = refl;
        no_invitations = refl;
        owner = inr (refl, one-null, (ann, refl));
      },
      tt,
    ),
  );
  different = (refl, (refl, tt));
  references = λ a p e. ground (arith, e);
}

evening-Quiescent : Quiescent evening
unfolding is_listed
evening-Quiescent = record {
  closing = evening-Closing;
  different = (refl, (refl, tt));
  players_ne = refl;
  players_live = λ a e. elim (Bool-cases (a == 2)) [
    | inl second ↦ (record bob { ref_count = 1 }, rw second refl)
    | inr other ↦ (ann, ground arith)
  ];
}

terminate_example :
    (v : World) × (terminate env evening ≡ done true v)
    × (v.shut ≡ 4 ∷ 5 ∷ [])
    × ((c : Ptr) → is_listed (2 ∷ 1 ∷ []) c ≡ true → v.clients c ≡ none)
    × ((a : Ptr) → is_listed (1 ∷ 2 ∷ []) a ≡ true → v.players a ≡ none)
    × (v.client_registry.head ≡ [])
    × (v.player_registry ≡ [])
    × (v.held ≡ [])
unfolding with_fds
terminate_example = terminate_lem env evening evening-Quiescent

service_ends_freed_example :
    (v : World) × (creg_shutdown_all env evening ≡ done tt v) × (end_service env 1 v ≡ crash)
unfolding is_listed
service_ends_freed_example = service_ends_freed env evening 1 evening-Closing refl

-- The thread 0 waits while the client 7 is registered, and the client leaves.
one_waits :
    (s : System) × Reach 1 (7 ∷ []) s
    × (s.pc 0 ≡ waiting)
    × (s.leaving ≡ false)
    × (s.registry.client_count ≡ 0)
unfolding move_pc raise_flag check_empty remove_client signal_empty is_listed unlist
one_waits = (
  _,
  later
      (later (later (later start (raise 0 (omega arith) refl)) (check 0 (omega arith) refl))
        (remove 7 refl refl))
      (signal refl),
  refl,
  refl,
  refl,
)

no_lost_wakeup_example : (t : System) × Step 1 one_waits.0 t × (t.pc 0 ≡ returned)
no_lost_wakeup_example =
    no_lost_wakeup (7 ∷ []) one_waits.0 one_waits.1 one_waits.2 one_waits.3 one_waits.4

one_returns : (t : System) × Reach 1 (7 ∷ []) t × (t.pc 0 ≡ returned)
one_returns =
    let (t, x, e) =
      no_lost_wakeup (7 ∷ []) one_waits.0 one_waits.1 one_waits.2 one_waits.3 one_waits.4 in
    (t, later one_waits.1 x, e)

returned-Once_example : Once one_returns.1
returned-Once_example = returned-Once one_returns.1 0 one_returns.2

second_waiter_starves_example :
    (s : System) × Reach 2 (3 ∷ 7 ∷ []) s
    × (s.registry.client_count ≡ 0)
    × (s.pc 0 ≡ returned)
    × (s.pc 1 ≡ waiting)
    × ((t : System) → Step 2 s t → t.registry.client_count ≡ 1)
second_waiter_starves_example = second_waiter_starves 3 (7 ∷ [])

-- `-p 80 -x -p 3333`
process_options_example :
    process_options no_options (arguments (some 80 ∷ none ∷ some 3333 ∷ []))
    ≡ listening (chosen 3333)
process_options_example =
    process_options_lem (some 80 ∷ none ∷ some 3333 ∷ []) (omega arith, (omega arith, tt))

-- X takes 1, 2 and 3; O tries 1, then takes 5 and 6, and gives up too late.
abbrev actions : List Action
actions =
    mark side_x 1
    ∷ mark side_o 1
    ∷ mark side_o 5
    ∷ mark side_x 2
    ∷ mark side_o 6
    ∷ mark side_x 3
    ∷ resign second_player_role
    ∷ []

played-story_example :
    let g = apply_all game_create actions in
    (g.board ≡ 1 ∷ 1 ∷ 1 ∷ 0 ∷ 2 ∷ 2 ∷ 0 ∷ 0 ∷ 0 ∷ [])
    × (g.turn_X ≡ false)
    × (game_is_over g ≡ true)
    × (game_get_winner g ≡ first_player_role)
unfolding tell_all tell owner owns on_move has_line is_over winner_of line_winner picture
played-story_example = played-story actions
