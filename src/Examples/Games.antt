-- ===== src/Examples/Games.antt =====
-- The theorems on src/game.c at played games.
use multi_threaded_tic_tac_t.Base.{
  ℕ, ◌≤◌, ◌<◌, ◌≡◌, ◌≢◌, ◌↔◌, refl, inl, inr, Bool, true, false, some, List, [], ◌∷◌, arith,
}
use multi_threaded_tic_tac_t.Game.{
  null_role, first_player_role, second_player_role, Game, GameMove, cell, game_create, game_is_over,
  game_get_winner, game_parse_move, parse_text, game_unparse_move, game_unparse_state,
  game_apply_move, game_resign, is_illegal, win, record_win, count_turn, place,
}
use multi_threaded_tic_tac_t.Game.Board.{HasLine, win-HasLine}
use multi_threaded_tic_tac_t.Game.Rules.{Inv}
use multi_threaded_tic_tac_t.Game.Play.{
  moved, resigned, Reach, start, next, Reach-Inv, Reach-le-nine, running_progress, Played, move,
  game_get_winner-HasLine,
}
use multi_threaded_tic_tac_t.Game.Moves.{parse-unparse}
use multi_threaded_tic_tac_t.Game.Display.{ReadsMarks, game_unparse_state-injective}
use multi_threaded_tic_tac_t.Examples.Setting.{position}

-- A game in play, and one over.
abbrev game : Bool → ℕ → List ℕ → Game
game turn_X n board = record {
  turn_X = turn_X;
  num_turns = n;
  board = board;
  winner = null_role;
  terminated = false;
  ref_count = 1;
}

abbrev mark : ℕ → ℕ → GameMove
mark player square = record { player = player; square = square }

abbrev g1 : Game
g1 = game false 1 (1 ∷ 0 ∷ 0 ∷ 0 ∷ 0 ∷ 0 ∷ 0 ∷ 0 ∷ 0 ∷ [])

abbrev g2 : Game
g2 = game true 2 (1 ∷ 0 ∷ 0 ∷ 2 ∷ 0 ∷ 0 ∷ 0 ∷ 0 ∷ 0 ∷ [])

abbrev g3 : Game
g3 = game false 3 (1 ∷ 1 ∷ 0 ∷ 2 ∷ 0 ∷ 0 ∷ 0 ∷ 0 ∷ 0 ∷ [])

abbrev g4 : Game
g4 = game true 4 (1 ∷ 1 ∷ 0 ∷ 2 ∷ 2 ∷ 0 ∷ 0 ∷ 0 ∷ 0 ∷ [])

abbrev g5 : Game
g5 = record (game false 5 (1 ∷ 1 ∷ 1 ∷ 2 ∷ 2 ∷ 0 ∷ 0 ∷ 0 ∷ 0 ∷ [])) {
  winner = first_player_role;
  terminated = true;
}

m1 : game_apply_move game_create (mark 1 1) ≡ some g1
unfolding game_create game_apply_move is_illegal record_win count_turn place win
m1 = refl

m2 : game_apply_move g1 (mark 2 4) ≡ some g2
unfolding game_apply_move is_illegal record_win count_turn place win
m2 = refl

m3 : game_apply_move g2 (mark 1 2) ≡ some g3
unfolding game_apply_move is_illegal record_win count_turn place win
m3 = refl

m4 : game_apply_move g3 (mark 2 5) ≡ some g4
unfolding game_apply_move is_illegal record_win count_turn place win
m4 = refl

m5 : game_apply_move g4 (mark 1 3) ≡ some g5
unfolding game_apply_move is_illegal record_win count_turn place win
m5 = refl

abbrev resigned_g1 : Game
resigned_g1 = record g1 { winner = first_player_role; terminated = true }

gives_up : game_resign g1 second_player_role ≡ some resigned_g1
unfolding game_resign
gives_up = refl

-- X marks the first square and O resigns.
reached : Reach 2 resigned_g1
reached = next (next start (moved (mark 1 1) (inl refl) m1)) (resigned second_player_role gives_up)

-- X wins in three moves.
played : Played g5
played =
    move
      (move
        (move (move (move start (mark 1 1) (inl refl) m1) (mark 2 4) (inr refl) m2) (mark 1 2)
          (inl refl) m3)
        (mark 2 5) (inr refl) m4)
      (mark 1 3) (inl refl) m5

Reach-Inv_example : Inv resigned_g1
Reach-Inv_example = Reach-Inv reached

Reach-le-nine_example : 2 ≤ 9
Reach-le-nine_example = Reach-le-nine reached

game_get_winner-HasLine_example :
    ((game_get_winner g5 ≡ first_player_role) ↔ HasLine g5.board 1)
    × ((game_get_winner g5 ≡ second_player_role) ↔ HasLine g5.board 2)
    × (game_is_over g5 ≡ true → game_get_winner g5 ≡ null_role → g5.num_turns ≡ 9)
game_get_winner-HasLine_example = game_get_winner-HasLine played

g1-Inv : Inv g1
g1-Inv = Reach-Inv (next start (moved (mark 1 1) (inl refl) m1))

running_progress_example : (square : ℕ) × (h : Game) × (game_apply_move g1 (mark 2 square) ≡ some h)
unfolding game_is_over
running_progress_example = running_progress g1 g1-Inv refl

win-HasLine_example :
    (win (1 ∷ 2 ∷ 2 ∷ 0 ∷ 1 ∷ 0 ∷ 0 ∷ 0 ∷ 1 ∷ []) 1 ≡ true)
    ↔ HasLine (1 ∷ 2 ∷ 2 ∷ 0 ∷ 1 ∷ 0 ∷ 0 ∷ 0 ∷ 1 ∷ []) 1
win-HasLine_example = win-HasLine (1 ∷ 2 ∷ 2 ∷ 0 ∷ 1 ∷ 0 ∷ 0 ∷ 0 ∷ 1 ∷ []) 1

first-null : first_player_role ≢ null_role
first-null = cc

second-null : second_player_role ≢ null_role
second-null = cc

parse-unparse_example :
    game_parse_move g4 first_player_role (game_unparse_move (mark 1 9)) ≡ some (mark 1 9)
parse-unparse_example =
    parse-unparse g4 first_player_role (mark 1 9) (inl refl) (omega arith) (omega arith) refl

reads_own : game_parse_move g4 first_player_role (b'3' ∷ b'<' ∷ b'-' ∷ b'X' ∷ []) ≡ some (mark 1 3)
unfolding game_parse_move parse_text
reads_own = refl

position-ReadsMarks : ReadsMarks position.board
position-ReadsMarks i = ground arith

-- The picture shows neither the count of the references nor that of the turns.
same_picture :
    game_unparse_state position
    ≡ game_unparse_state (record position { num_turns = 0; ref_count = 2 })
unfolding game_unparse_state
same_picture = refl

game_unparse_state-injective_example :
    ((i : ℕ) → i < 9 → cell position.board i ≡ cell position.board i)
    × (position.turn_X ≡ position.turn_X)
game_unparse_state-injective_example =
    game_unparse_state-injective position (record position { num_turns = 0; ref_count = 2 })
      position-ReadsMarks position-ReadsMarks same_picture
