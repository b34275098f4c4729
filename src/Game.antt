-- ===== src/Game.antt =====
-- src/game.c and the role type of include/game.h: the board, the moves and their text form.
-- `turn_X` and `terminated` are the C flags as Booleans, the board is the array of nine cells
-- (0 is a space, 1 is X, 2 is O), and a function that returns -1 or NULL on an error returns
-- `none`. The mutex has no field.
pub mod Board
pub mod Rules
pub mod Play
pub mod Moves
pub mod Display
pub mod Story
pub mod Refinement
pub mod Texts
pub mod Last
use multi_threaded_tic_tac_t.Base.{
  ℕ, ◌+◌, ◌-◌, Bool, true, false, not, ◌&&◌, ◌||◌, Option, none, some, List, [], ◌∷◌, ◌++◌, ltb,
  leb, ◌==◌, if◌then◌else◌, get_or, set, replicate, decimal,
}

pub data GameRole : Type 0 where
  null_role first_player_role second_player_role : GameRole

pub record Game : Type 0 where
  pub turn_X : Bool
  pub num_turns : ℕ
  pub board : List ℕ
  pub winner : GameRole
  pub terminated : Bool
  pub ref_count : ℕ

pub record GameMove : Type 0 where
  pub player : ℕ
  pub square : ℕ

abbrev pub max_board_num : ℕ
max_board_num = 9

abbrev pub is_first : GameRole → Bool
is_first first_player_role = true
is_first _ = false

abbrev pub is_second : GameRole → Bool
is_second second_player_role = true
is_second _ = false

abbrev pub cell : List ℕ → ℕ → ℕ
cell board i = get_or board i 0

-- One disjunct of the condition in `win`.
abbrev pub three : List ℕ → ℕ → ℕ → ℕ → ℕ → Bool
three board player i j k =
    cell board i == player && (cell board j == player && cell board k == player)

unfoldable pub win : List ℕ → ℕ → Bool
win board player =
    three board player 0 1 2
    || (three board player 3 4 5
        || (three board player 6 7 8
            || (three board player 0 3 6
                || (three board player 1 4 7
                    || (three board player 2 5 8
                        || (three board player 0 4 8 || three board player 2 4 6))))))

-- The fields that `game_create` writes, where the allocation and the mutex succeed.
unfoldable pub game_create : Game
game_create = record {
  turn_X = true;
  num_turns = 0;
  board = replicate max_board_num 0;
  winner = null_role;
  terminated = false;
  ref_count = 1;
}

-- The test that guards `game_apply_move`; `square - 1` is read only behind the bounds.
unfoldable pub is_illegal : Game → GameMove → Bool
is_illegal g m =
    ltb m.square 1
    || (ltb 9 m.square
        || (not (cell g.board (m.square - 1) == 0)
            || ((m.player == 1 && not g.turn_X) || ((m.player == 2 && g.turn_X) || g.terminated))))

-- `if(win(game, player)){ winner = role; terminated = 1; }`
unfoldable pub record_win : ℕ → GameRole → Game → Game
record_win player role g =
    if win g.board player then record g { winner = role; terminated = true } else g

unfoldable pub count_turn : Game → Game
count_turn g =
    let n = g.num_turns + 1 in
    record g { num_turns = n; terminated = if leb 9 n then true else g.terminated }

unfoldable pub place : Game → GameMove → Game
place g m = record g { board = set g.board (m.square - 1) m.player; turn_X = not g.turn_X }

unfoldable pub game_apply_move : Game → GameMove → Option Game
game_apply_move g m =
    if is_illegal g m
    then none
    else some
        (count_turn (record_win 2 second_player_role (record_win 1 first_player_role (place g m))))

abbrev pub opponent_role : GameRole → GameRole
opponent_role role = if is_first role then second_player_role else first_player_role

unfoldable pub game_resign : Game → GameRole → Option Game
game_resign g role =
    if g.terminated
    then none
    else some (record g { terminated = true; winner = opponent_role role })

unfoldable pub game_is_over : Game → Bool
game_is_over g = g.terminated

unfoldable pub game_get_winner : Game → GameRole
game_get_winner g =
    if g.terminated
    then g.winner
    else if win g.board 1
    then first_player_role
    else if win g.board 2
    then second_player_role
    else null_role

-- " ", "X" or "O"
abbrev pub cell_str : ℕ → List ℕ
cell_str c = if c == 0 then b' ' ∷ [] else if c == 1 then b'X' ∷ [] else b'O' ∷ []

abbrev pub newline : List ℕ
newline = 10 ∷ []

abbrev pub bar : List ℕ
bar = b'|' ∷ []

-- "-----\n"
abbrev pub rule : List ℕ
rule = b'-' ∷ b'-' ∷ b'-' ∷ b'-' ∷ b'-' ∷ 10 ∷ []

unfoldable pub row_str : List ℕ → ℕ → ℕ → ℕ → List ℕ
row_str board i j k =
    cell_str (cell board i)
    ++ (bar ++ (cell_str (cell board j) ++ (bar ++ (cell_str (cell board k) ++ newline))))

-- "It's " and "'s turn\n" with the player on the move between them
unfoldable pub turn_str : Bool → List ℕ
turn_str turn_X =
    (b'I' ∷ b't' ∷ 39 ∷ b's' ∷ b' ' ∷ [])
    ++ ((if turn_X then b'X' ∷ [] else b'O' ∷ [])
        ++ (39 ∷ b's' ∷ b' ' ∷ b't' ∷ b'u' ∷ b'r' ∷ b'n' ∷ 10 ∷ []))

unfoldable pub game_unparse_state : Game → List ℕ
unfolding row_str turn_str
game_unparse_state g =
    row_str g.board 0 1 2
    ++ (rule ++ (row_str g.board 3 4 5 ++ (rule ++ (row_str g.board 6 7 8 ++ turn_str g.turn_X))))

-- The first test of `game_parse_move`: a role that is not on the move.
abbrev pub wrong_turn : Game → GameRole → Bool
wrong_turn g role = (is_first role && not g.turn_X) || (is_second role && g.turn_X)

abbrev pub is_square : ℕ → Bool
is_square c = leb b'1' c && leb c b'9'

-- The branch for a text of one character.
unfoldable pub parse_digit : GameRole → ℕ → Option GameMove
parse_digit role c =
    if is_square c
    then some (record { player = if is_first role then 1 else 2; square = c - b'0' })
    else none

-- The branch for a text of four characters.
unfoldable pub parse_arrow : ℕ → ℕ → ℕ → ℕ → Option GameMove
parse_arrow c d e f =
    if not (is_square c)
    then none
    else if not (d == b'<') || (not (e == b'-') || (not (f == b'X') && not (f == b'O')))
    then none
    else some (record { player = if f == b'X' then 1 else 2; square = c - b'0' })

unfoldable pub parse_text : GameRole → List ℕ → Option GameMove
unfolding parse_digit parse_arrow
parse_text role (c ∷ []) = parse_digit role c
parse_text role (c ∷ d ∷ e ∷ f ∷ []) = parse_arrow c d e f
parse_text role _ = none

unfoldable pub game_parse_move : Game → GameRole → List ℕ → Option GameMove
unfolding parse_text
game_parse_move g role str = if wrong_turn g role then none else parse_text role str

unfoldable pub game_unparse_move : GameMove → List ℕ
game_unparse_move m =
    decimal m.square ++ (b'<' ∷ b'-' ∷ (if m.player == 1 then b'X' ∷ [] else b'O' ∷ []))
