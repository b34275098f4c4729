-- ===== src/Game/Moves.antt =====
-- The text form of moves in src/game.c: `game_parse_move` against `game_unparse_move` and
-- `game_apply_move`.
use multi_threaded_tic_tac_t.Base.{
  ℕ, ◌+◌, ◌≤◌, ◌≡◌, ◌≢◌, false, some, List, [], ◌∷◌, arith, ◌==◌, if◌then◌else◌, length,
  decimal_one_digit,
}
use multi_threaded_tic_tac_t.Game.{
  GameRole, null_role, Game, GameMove, is_first, wrong_turn, parse_text, game_parse_move,
  game_unparse_move, game_apply_move,
}
use multi_threaded_tic_tac_t.Game.Rules.{IsPlayer, game_apply_move_accepted}

-- The text of a move on the board has four characters.
abbrev pub arrow_text : ℕ → ℕ → List ℕ
arrow_text square player = (b'0' + square) ∷ b'<' ∷ b'-' ∷ (if player == 1 then b'X' else b'O') ∷ []

pub game_unparse_move-eq :
    (m : GameMove) → m.square ≤ 9 → game_unparse_move m ≡ arrow_text m.square m.player
unfolding game_unparse_move
game_unparse_move-eq m h = rw (decimal_one_digit m.square (omega arith)) (ground arith)

-- The text has four characters: with its end it fills the buffer of five that the code allocates.
pub length-game_unparse_move : (m : GameMove) → m.square ≤ 9 → length (game_unparse_move m) ≡ 4
length-game_unparse_move m h = rw (game_unparse_move-eq m h)

-- A move of a player on one of the nine squares is read back from its text, for every role that
-- is on the move.
pub parse-unparse :
    (g : Game) (role : GameRole) (m : GameMove)
    → IsPlayer m
    → 1 ≤ m.square
    → m.square ≤ 9
    → wrong_turn g role ≡ false
    → game_parse_move g role (game_unparse_move m) ≡ some m
unfolding game_parse_move
parse-unparse g role m p low high t = rw (game_unparse_move-eq m high, t) (ground arith)

-- The number of the mark that a role plays.
abbrev pub role_number : GameRole → ℕ
role_number role = if is_first role then 1 else 2

pub parse-IsPlayer :
    (role : GameRole) (s : List ℕ) (m : GameMove) → parse_text role s ≡ some m → IsPlayer m
unfolding parse_text
parse-IsPlayer role [] m e = cc
parse-IsPlayer role (c ∷ []) m e = ground arith
parse-IsPlayer role (c ∷ d ∷ []) m e = cc
parse-IsPlayer role (c ∷ d ∷ x ∷ []) m e = cc
parse-IsPlayer role (c ∷ d ∷ x ∷ f ∷ []) m e = ground arith
parse-IsPlayer role (c ∷ d ∷ x ∷ f ∷ y ∷ s) m e = cc

-- A text can name the other player's mark, but what a player sends and `game_apply_move` accepts
-- is a mark of that player's own role, on one of the nine squares.
pub parse-apply_own_mark :
    (g h : Game) (role : GameRole) (s : List ℕ) (m : GameMove)
    → role ≢ null_role
    → game_parse_move g role s ≡ some m
    → game_apply_move g m ≡ some h
    → (m.player ≡ role_number role) × (1 ≤ m.square) × (m.square ≤ 9)
unfolding game_parse_move
parse-apply_own_mark g h role s m n e a =
    let (l, r) = game_apply_move_accepted g h m a in ground (arith, parse-IsPlayer role s m)
