-- ===== src/Examples/Moves.antt =====
-- The moves and the resignation of src/client.c in a game of two clients.
use multi_threaded_tic_tac_t.Base.{◌≡◌, refl, inr, true, false, some, [], ◌∷◌, arith}
use multi_threaded_tic_tac_t.Game.{
  first_player_role, second_player_role, Game, game_is_over, game_get_winner, game_parse_move,
  parse_text, game_unparse_state, game_apply_move, is_illegal, win, record_win, count_turn, place,
}
use multi_threaded_tic_tac_t.Objects.{win_score, loss_score, Invitation, inv_accepted_state}
use multi_threaded_tic_tac_t.World.{World, done}
use multi_threaded_tic_tac_t.Client.Sending.{packet_of, stamped}
use multi_threaded_tic_tac_t.Requests.{role_code}
use multi_threaded_tic_tac_t.Protocol.{Header, htons, ended_pkt, resigned_pkt}
use multi_threaded_tic_tac_t.Server.{handle, copy_payload, c_string}
use multi_threaded_tic_tac_t.Server.Guards.{acked}
use multi_threaded_tic_tac_t.Server.Playing.{handle_move_running}
use multi_threaded_tic_tac_t.Matches.{role_in, client_make_move, client_resign_game}
use multi_threaded_tic_tac_t.Matches.Moving.{
  Match, moved_header, after_move, client_make_move_running, client_make_move-Refused,
}
use multi_threaded_tic_tac_t.Matches.Removing.{Objects, Pair}
use multi_threaded_tic_tac_t.Matches.Ending.{rated_first, rated_second}
use multi_threaded_tic_tac_t.Matches.Final.{Players}
use multi_threaded_tic_tac_t.Matches.Results.{
  Ended, client_make_move_over, second_player_win_rated_as_loss,
}
use multi_threaded_tic_tac_t.Matches.Resigning.{Resigns, client_resign_game_lem}
use multi_threaded_tic_tac_t.Examples.Setting.{
  env, env-AllWritten, ann, bob, with_node, position, invitation, playing, one-two, two-one,
  one-null, two-null, bob_listed, ann_knows, bob_knows,
}

abbrev started : Invitation
started = invitation inv_accepted_state 1

abbrev bob_turn : Match playing 2 7 1
bob_turn = record {
  self = with_node 5 2 7;
  other = with_node 4 1 4;
  i = started;
  game = position;
  other_id = 4;
  self_live = refl;
  listed = bob_listed;
  inv_live = refl;
  game_ne = one-null;
  game_live = refl;
  opponent_ne = one-null;
  opponent_other = one-two;
  other_live = refl;
  other_listed = ann_knows;
  free = refl;
}

-- The position after bob's move at a free square, and the one after he wins.
abbrev moved : Game
moved = record position {
  turn_X = true;
  num_turns = 6;
  board = 2 ∷ 2 ∷ 0 ∷ 1 ∷ 1 ∷ 2 ∷ 0 ∷ 0 ∷ 1 ∷ [];
}

abbrev won : Game
won = record position {
  turn_X = true;
  num_turns = 6;
  board = 2 ∷ 2 ∷ 2 ∷ 1 ∷ 1 ∷ 0 ∷ 0 ∷ 0 ∷ 1 ∷ [];
  winner = second_player_role;
  terminated = true;
}

six_read :
    game_parse_move position (role_in started 2) (b'6' ∷ [])
    ≡ some (record { player = 2; square = 6 })
unfolding game_parse_move parse_text role_in
six_read = refl

six_made : game_apply_move position (record { player = 2; square = 6 }) ≡ some moved
unfolding game_apply_move is_illegal record_win count_turn place win
six_made = refl

client_make_move_running_example :
    client_make_move env 2 7 (b'6' ∷ []) playing
    ≡ done true (after_move env playing 1 (with_node 4 1 4) 4 moved)
unfolding game_is_over
client_make_move_running_example =
    client_make_move_running env playing 2 7 1 (b'6' ∷ []) bob_turn
      (record { player = 2; square = 6 }) moved env-AllWritten six_read six_made refl

abbrev move_six : Header
move_six = record { type = 7; id = 7; role = 0; size = 1; timestamp_sec = 0; timestamp_nsec = 0 }

six_copied :
    game_parse_move position (role_in started 2) (copy_payload (some (b'6' ∷ [])))
    ≡ some (record { player = 2; square = 6 })
unfolding copy_payload c_string game_parse_move parse_text role_in
six_copied = refl

handle_move_running_example :
    handle env 2 true move_six (some (b'6' ∷ [])) playing
    ≡ done true (acked env (with_node 5 2 7) (after_move env playing 1 (with_node 4 1 4) 4 moved))
unfolding game_is_over
handle_move_running_example =
    handle_move_running env env-AllWritten playing 2 1 move_six (some (b'6' ∷ [])) bob_turn
      (record { player = 2; square = 6 }) moved two-null refl six_copied six_made refl

client_make_move-Refused_example : client_make_move env 2 7 (b'1' ∷ []) playing ≡ done false playing
unfolding game_parse_move parse_text role_in game_apply_move is_illegal
client_make_move-Refused_example =
    client_make_move-Refused env playing 2 7 (with_node 5 2 7) (b'1' ∷ []) refl refl (
      inr (
        1,
        started,
        bob_listed,
        refl,
        inr (position, one-null, refl, inr (record { player = 2; square = 1 }, refl, refl)),
      ))

three_read :
    game_parse_move position (role_in started 2) (b'3' ∷ [])
    ≡ some (record { player = 2; square = 3 })
unfolding game_parse_move parse_text role_in
three_read = refl

three_made : game_apply_move position (record { player = 2; square = 3 }) ≡ some won
unfolding game_apply_move is_illegal record_win count_turn place win
three_made = refl

abbrev objects : Objects
objects = record {
  source = with_node 4 1 4;
  target = with_node 5 2 7;
  game = position;
  source_id = 4;
  target_id = 7;
}

abbrev pair : Pair playing 1 started objects
pair = record {
  inv_ne = one-null;
  source_ne = one-null;
  target_ne = two-null;
  game_ne = one-null;
  apart = one-two;
  inv_live = refl;
  inv_count = refl;
  source_live = refl;
  target_live = refl;
  game_live = refl;
  game_count = refl;
  source_count = omega arith;
  target_count = omega arith;
  source_listed = ann_knows;
  target_listed = bob_knows;
  free = refl;
}

players : Players playing started objects 2 bob ann
players = record {
  member = inr refl;
  playing = record { logged_in = refl; player_ne = two-null; player_live = refl };
  opposing = record { logged_in = refl; player_ne = one-null; player_live = refl };
  apart = two-one;
}

client_make_move_over_example :
    (v : World) × (client_make_move env 2 7 (b'3' ∷ []) playing ≡ done true v)
    × (v.sent
        ≡ (5, stamped env 3 (packet_of ended_pkt 7 2 (htons 0)))
          ∷ (4, stamped env 2 (packet_of ended_pkt 4 2 (htons 0)))
          ∷ (4, game_unparse_state won)
          ∷ (4, stamped env 0 (moved_header 4 won))
          ∷ [])
    × Ended v 1 started objects 2 bob ann loss_score win_score
unfolding game_is_over game_get_winner role_code
client_make_move_over_example =
    client_make_move_over env env-AllWritten playing 2 7 1 bob_turn objects pair bob ann players won
      refl (b'3' ∷ []) (record { player = 2; square = 3 }) three_read three_made

second_player_win_rated_as_loss_example :
    (v : World) × (client_make_move env 2 7 (b'3' ∷ []) playing ≡ done true v)
    × (v.players 2 ≡ some (rated_first bob ann loss_score))
    × (v.players 1 ≡ some (rated_second bob ann win_score))
unfolding win role_in
second_player_win_rated_as_loss_example =
    second_player_win_rated_as_loss env env-AllWritten playing 2 7 1 bob_turn objects pair bob ann
      players (b'3' ∷ []) (record { player = 2; square = 3 }) won refl three_read three_made refl

resigns : Resigns playing 2 1 started objects ann bob
unfolding role_in
resigns = record {
  member = inr refl;
  accepted = refl;
  running = refl;
  role_ne = cc;
  source_plays = record { logged_in = refl; player_ne = one-null; player_live = refl };
  target_plays = record { logged_in = refl; player_ne = two-null; player_live = refl };
  players_apart = one-two;
}

client_resign_game_example :
    (v : World) × (client_resign_game env 2 7 playing ≡ done true v)
    × (v.sent
        ≡ (5, stamped env 2 (packet_of ended_pkt 7 1 (htons 0)))
          ∷ (4, stamped env 1 (packet_of ended_pkt 4 1 (htons 0)))
          ∷ (4, stamped env 0 (packet_of resigned_pkt 4 0 (htons 0)))
          ∷ [])
    × Ended v 1 started
        (record objects {
          game = record position { terminated = true; winner = first_player_role };
        })
        1
        ann
        bob
        win_score
        loss_score
unfolding role_in role_code
client_resign_game_example =
    client_resign_game_lem env env-AllWritten playing 2 7 1 bob_turn objects pair ann bob resigns
