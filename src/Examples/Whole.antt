-- ===== src/Examples/Whole.antt =====
-- A whole match of src/client.c, from an open invitation to the end of the game.
use multi_threaded_tic_tac_t.Base.{ℕ, ◌≡◌, refl, true, false, Option, some, List, [], ◌∷◌, arith}
use multi_threaded_tic_tac_t.Game.{parse_text, first_player_role}
use multi_threaded_tic_tac_t.Game.Story.{
  Story, side_x, is_over, tell, owner, owns, on_move, has_line, winner_of, line_winner,
}
use multi_threaded_tic_tac_t.Game.Refinement.{game_of}
use multi_threaded_tic_tac_t.Game.Texts.{meant}
use multi_threaded_tic_tac_t.Objects.{null, Invitation, inv_open_state, win_score, loss_score}
use multi_threaded_tic_tac_t.World.{World, done}
use multi_threaded_tic_tac_t.Requests.{client_accept_invitation}
use multi_threaded_tic_tac_t.Requests.Accepting.{Acceptable}
use multi_threaded_tic_tac_t.Matches.{client_make_move}
use multi_threaded_tic_tac_t.Matches.Results.{Ended}
use multi_threaded_tic_tac_t.Matches.Table.{source_seat, target_seat, Seats}
use multi_threaded_tic_tac_t.Matches.Whole.{
  Text, make_moves, story_of, allowed_texts, Opponents, seats,
}
use multi_threaded_tic_tac_t.Matches.Finished.{objects_of, Stakes, finished_match}
use multi_threaded_tic_tac_t.Examples.Setting.{
  env, env-AllWritten, ann, bob, with_node, invitation, invited_world, one-two, one-null, two-null,
  nine-null, ann_listed, bob_listed, ann_knows, bob_knows,
}

abbrev offered : Invitation
offered = invitation inv_open_state null

offered-Acceptable : Acceptable invited_world 1 offered (with_node 4 1 4) (with_node 5 2 7) 4 7
offered-Acceptable = record {
  inv_ne = one-null;
  source_ne = one-null;
  apart = one-two;
  inv_live = refl;
  is_open = refl;
  no_game = refl;
  source_live = refl;
  target_live = refl;
  source_listed = ann_knows;
  target_listed = bob_listed;
  fresh_ne = nine-null;
  free = refl;
}

offered-Opponents : Opponents 1 offered (with_node 4 1 4) (with_node 5 2 7) 4 7 side_x
offered-Opponents = record {
  target_ne = two-null;
  source_finds = ann_listed;
  target_knows = bob_knows;
  source_role = refl;
  target_role = refl;
}

-- ann takes 1; bob tries 1, then takes 4; ann takes 2; bob takes 5.
abbrev texts : List Text
texts =
    (source_seat, b'1' ∷ [])
    ∷ (target_seat, b'1' ∷ [])
    ∷ (target_seat, b'4' ∷ [])
    ∷ (source_seat, b'2' ∷ b'<' ∷ b'-' ∷ b'X' ∷ [])
    ∷ (target_seat, b'5' ∷ [])
    ∷ []

abbrev table : Seats
table =
    seats env env-AllWritten invited_world 1 offered (with_node 4 1 4) (with_node 5 2 7) 4 7 side_x
      offered-Acceptable offered-Opponents

abbrev before : Story
before = record { squares = 5 ∷ 2 ∷ 4 ∷ 1 ∷ []; resigner = Option.none }

abbrev behind : Story
behind = record { squares = 3 ∷ 5 ∷ 2 ∷ 4 ∷ 1 ∷ []; resigner = Option.none }

table-Stakes : Stakes table invited_world source_seat ann bob
table-Stakes = record {
  inv_ne = one-null;
  inv_count = refl;
  source_count = omega arith;
  target_count = omega arith;
  playing = record { logged_in = refl; player_ne = one-null; player_live = refl };
  opposing = record { logged_in = refl; player_ne = two-null; player_live = refl };
  different = one-two;
}

-- ann takes 3 and wins.
finished_match_example :
    (str : Option (List ℕ)) × (v u x : World) × (client_accept_invitation env 2 7 Option.none
        invited_world
      ≡ done (true, str) v)
    × (make_moves env table texts v ≡ done (true ∷ false ∷ true ∷ true ∷ true ∷ []) u)
    × (u.games 9 ≡ some (game_of 1 before))
    × (winner_of behind ≡ first_player_role)
    × (client_make_move env 1 4 (b'3' ∷ []) u ≡ done true x)
    × Ended x 1 table.i (objects_of table (game_of 1 before)) 1 ann bob win_score loss_score
unfolding story_of allowed_texts meant parse_text tell owner owns on_move is_over has_line winner_of
    line_winner
finished_match_example =
    finished_match env env-AllWritten invited_world 1 offered (with_node 4 1 4) (with_node 5 2 7) 4
      7 side_x offered-Acceptable offered-Opponents refl texts source_seat (b'3' ∷ []) behind ann
      bob refl table-Stakes refl refl
