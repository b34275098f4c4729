-- ===== src/Game/Rules.antt =====
-- The rules that src/game.c enforces: the invariant of a game, kept by every operation, and what
-- it says of games that are played from the start.
use multi_threaded_tic_tac_t.Base.{
  ℕ, ◌+◌, ◌-◌, ◌≤◌, ◌<◌, ◌≡◌, ◌⊎◌, inl, inr, true, false, some, arith, if◌then◌else◌, length,
  length-set,
}
use multi_threaded_tic_tac_t.Game.{
  GameRole, null_role, first_player_role, second_player_role, Game, GameMove, cell, win, is_illegal,
  record_win, count_turn, place, game_create, game_apply_move, game_resign,
}
use multi_threaded_tic_tac_t.Game.Board.{
  count, AllMarks, AllMarks-set, count-set_self, count-set_other, count-lt-length, win-set_other,
}

pub record Inv (g : Game) : Type 0 where
  pub size : length g.board ≡ 9
  pub marks : AllMarks g.board
  pub alternate : count 1 g.board ≡ count 2 g.board + (if g.turn_X then 0 else 1)
  pub counted : g.num_turns ≡ count 1 g.board + count 2 g.board
  pub running_first : g.terminated ≡ false → win g.board 1 ≡ false
  pub running_second : g.terminated ≡ false → win g.board 2 ≡ false
  pub running_winner : g.terminated ≡ false → g.winner ≡ null_role
  pub running_room : g.terminated ≡ false → g.num_turns < 9
  pub line_first : win g.board 1 ≡ true → g.winner ≡ first_player_role
  pub line_second : win g.board 2 ≡ true → g.winner ≡ second_player_role
  pub over : g.terminated ≡ true → g.winner ≡ null_role → g.num_turns ≡ 9

pub game_create-Inv : Inv game_create
unfolding game_create win
game_create-Inv = ground arith

pub game_resign-Inv : (g h : Game) (role : GameRole) → Inv g → game_resign g role ≡ some h → Inv h
unfolding game_resign
game_resign-Inv g h role v e = ground arith

-- What a move that passes the test of `game_apply_move` satisfies.
pub record IsLegal (g : Game) (m : GameMove) : Type 0 where
  pub low : 1 ≤ m.square
  pub high : m.square ≤ 9
  pub free : cell g.board (m.square - 1) ≡ 0
  pub turn_first : m.player ≡ 1 → g.turn_X ≡ true
  pub turn_second : m.player ≡ 2 → g.turn_X ≡ false
  pub running : g.terminated ≡ false

pub is_illegal-IsLegal : (g : Game) (m : GameMove) → is_illegal g m ≡ false → IsLegal g m
unfolding is_illegal
is_illegal-IsLegal g m h = ground arith

pub IsLegal-is_illegal : (g : Game) (m : GameMove) → IsLegal g m → is_illegal g m ≡ false
unfolding is_illegal
IsLegal-is_illegal g m h = ground arith

abbrev pub settle : Game → Game
settle g = count_turn (record_win 2 second_player_role (record_win 1 first_player_role g))

-- A mark of the first player settles into a game that satisfies the invariant.
first-Inv :
    (g : Game) (m : GameMove) → Inv g → IsLegal g m → m.player ≡ 1 → Inv (settle (place g m))
unfolding record_win count_turn place
first-Inv g m v l e =
    let i : ℕ = m.square - 1 in
    let inside : i < length g.board = omega (arith, v.size, l.low, l.high) in
    ground (
      arith,
      length-set g.board i m.player,
      AllMarks-set g.board i m.player,
      count-set_self g.board i m.player inside l.free,
      count-set_other g.board i m.player 2 l.free,
      count-lt-length g.board i inside l.free,
      win-set_other g.board i m.player 2 inside l.free,
    )

second-Inv :
    (g : Game) (m : GameMove) → Inv g → IsLegal g m → m.player ≡ 2 → Inv (settle (place g m))
unfolding record_win count_turn place
second-Inv g m v l e =
    let i : ℕ = m.square - 1 in
    let inside : i < length g.board = omega (arith, v.size, l.low, l.high) in
    ground (
      arith,
      length-set g.board i m.player,
      AllMarks-set g.board i m.player,
      count-set_self g.board i m.player inside l.free,
      count-set_other g.board i m.player 1 l.free,
      count-lt-length g.board i inside l.free,
      win-set_other g.board i m.player 1 inside l.free,
    )

-- A move as `game_parse_move` builds it: the player is 1 or 2.
abbrev pub IsPlayer : GameMove → Type 0
IsPlayer m = (m.player ≡ 1) ⊎ (m.player ≡ 2)

accepted_parts :
    (g h : Game) (m : GameMove)
    → game_apply_move g m ≡ some h
    → (is_illegal g m ≡ false) × (h ≡ settle (place g m))
unfolding game_apply_move
accepted_parts g h m e = ground arith

-- An accepted move is legal, and the result is the board with the mark, settled.
pub game_apply_move_accepted :
    (g h : Game) (m : GameMove)
    → game_apply_move g m ≡ some h
    → IsLegal g m × (h ≡ settle (place g m))
game_apply_move_accepted g h m e =
    let (good, r) = accepted_parts g h m e in (is_illegal-IsLegal g m good, r)

pub game_apply_move-Inv :
    (g h : Game) (m : GameMove) → Inv g → IsPlayer m → game_apply_move g m ≡ some h → Inv h
game_apply_move-Inv g h m v p e =
    let (l, r) = game_apply_move_accepted g h m e in
    elim p [ inl one ↦ rw r (first-Inv g m v l one) | inr two ↦ rw r (second-Inv g m v l two) ]
