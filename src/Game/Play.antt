-- ===== src/Game/Play.antt =====
-- Games of src/game.c played from `game_create` on: each step is a move or a resignation that the
-- code accepts.
use multi_threaded_tic_tac_t.Base.{
  ℕ, zero, suc, ◌≤◌, ◌≡◌, refl, ◌≢◌, ◌↔◌, true, false, none, some, arith, if◌then◌else◌,
}
use multi_threaded_tic_tac_t.Game.{
  GameRole, null_role, first_player_role, second_player_role, Game, GameMove, win, record_win,
  count_turn, place, game_create, is_illegal, game_apply_move, game_resign, game_is_over,
  game_get_winner, opponent_role,
}
use multi_threaded_tic_tac_t.Game.Board.{HasLine, win-HasLine, empty_cell}
use multi_threaded_tic_tac_t.Game.Rules.{
  Inv, IsLegal, IsPlayer, IsLegal-is_illegal, game_create-Inv, game_resign-Inv,
  game_apply_move_accepted, game_apply_move-Inv, settle,
}

pub data Step (g h : Game) : Type 0 where
  moved : (m : GameMove) → IsPlayer m → game_apply_move g m ≡ some h → Step g h
  resigned : (role : GameRole) → game_resign g role ≡ some h → Step g h

pub data Reach : ℕ → Game → Type 0 where
  start : Reach zero game_create
  next : {n : ℕ} {g h : Game} → Reach n g → Step g h → Reach (suc n) h

Step-Inv : {g h : Game} → Inv g → Step g h → Inv h
Step-Inv {g} {h} v (moved m p e) = game_apply_move-Inv g h m v p e
Step-Inv {g} {h} v (resigned role e) = game_resign-Inv g h role v e

-- In every game that is played from the start the invariant `Inv` holds: nine cells with marks of
-- the two players, who alternate with X first; `num_turns` counts the marks; a running game has no
-- line, no winner and room; a line gives its owner the win; a game that is over without a winner
-- is a full board.
pub Reach-Inv : {n : ℕ} {g : Game} → Reach n g → Inv g
Reach-Inv start = game_create-Inv
Reach-Inv (next r s) = Step-Inv (Reach-Inv r) s

moved_turns :
    (g h : Game) (m : GameMove) → game_apply_move g m ≡ some h → h.num_turns ≡ suc g.num_turns
unfolding record_win count_turn place
moved_turns g h m e = let (l, r) = game_apply_move_accepted g h m e in rw r (ground arith)

Step-running : {g h : Game} → Step g h → g.terminated ≡ false
unfolding game_resign
Step-running {g} {h} (moved m p e) = (game_apply_move_accepted g h m e).0.running
Step-running (resigned role e) = ground arith

Step-turns : {g h : Game} → Step g h → h.terminated ≡ false → h.num_turns ≡ suc g.num_turns
unfolding game_resign
Step-turns {g} {h} (moved m p e) o = moved_turns g h m e
Step-turns (resigned role e) o = ground arith

Reach-turns : {n : ℕ} {g : Game} → Reach n g → g.terminated ≡ false → g.num_turns ≡ n
unfolding game_create
Reach-turns start o = refl
Reach-turns (next r s) o = omega (arith, Step-turns s o, Reach-turns r (Step-running s))

-- A game takes at most nine accepted moves and resignations.
pub Reach-le-nine : {n : ℕ} {g : Game} → Reach n g → n ≤ 9
Reach-le-nine start = omega arith
Reach-le-nine (next r s) =
    omega (arith, Reach-turns r (Step-running s), (Reach-Inv r).running_room (Step-running s))

-- Once a game is over, `game_apply_move` and `game_resign` refuse everything.
pub over_frozen :
    (g : Game)
    → game_is_over g ≡ true
    → ((m : GameMove) → game_apply_move g m ≡ none)
      × ((role : GameRole) → game_resign g role ≡ none)
unfolding game_is_over game_apply_move game_resign is_illegal
over_frozen g o = (λ m. ground arith, λ role. ground arith)

-- While the game runs, there is a square where the player on the move may put a mark.
pub running_progress :
    (g : Game)
    → Inv g
    → game_is_over g ≡ false
    → (square : ℕ) × (h : Game) × (game_apply_move g
          (record { player = if g.turn_X then 1 else 2; square = square })
        ≡ some h)
unfolding game_is_over game_apply_move
running_progress g v o =
    let (i, lt, e) =
      empty_cell g.board v.marks (omega (arith, v.size, v.counted, v.running_room o)) in
    let m : GameMove = record { player = if g.turn_X then 1 else 2; square = suc i } in
    let legal : IsLegal g m = record {
      low = omega arith;
      high = omega (arith, v.size);
      free = ground arith;
      turn_first = λ p. ground arith;
      turn_second = λ p. ground arith;
      running = o;
    } in
    (suc i, settle (place g m), rw (IsLegal-is_illegal g m legal))

-- Games in which nobody resigns.
pub data Played : Game → Type 0 where
  start : Played game_create
  move :
      {g h : Game}
      → Played g
      → (m : GameMove) → IsPlayer m
      → game_apply_move g m ≡ some h
      → Played h

Played-Inv : {g : Game} → Played g → Inv g
Played-Inv start = game_create-Inv
Played-Inv (move {g} {h} r m p e) = game_apply_move-Inv g h m (Played-Inv r) p e

-- What the winner field says of the lines, where nobody resigned.
abbrev Won : Game → Type 0
Won g =
    (g.winner ≡ first_player_role → win g.board 1 ≡ true)
    × (g.winner ≡ second_player_role → win g.board 2 ≡ true)

settle-Won : (g : Game) (m : GameMove) → Inv g → IsLegal g m → Won (settle (place g m))
unfolding record_win count_turn place
settle-Won g m v l = (ground arith, ground arith)

Played-Won : {g : Game} → Played g → Won g
unfolding game_create
Played-Won start = (λ e. cc, λ e. cc)
Played-Won (move {g} {h} r m p e) =
    let (l, eq) = game_apply_move_accepted g h m e in rw eq (settle-Won g m (Played-Inv r) l)

module _ {g : Game} (p : Played g) where
  winner-first : (game_get_winner g ≡ first_player_role) ↔ (win g.board 1 ≡ true)
  unfolding game_get_winner
  winner-first = let v = Played-Inv p in let w = Played-Won p in ground arith

  winner-second : (game_get_winner g ≡ second_player_role) ↔ (win g.board 2 ≡ true)
  unfolding game_get_winner
  winner-second = let v = Played-Inv p in let w = Played-Won p in ground arith

  winner-full : game_is_over g ≡ true → game_get_winner g ≡ null_role → g.num_turns ≡ 9
  unfolding game_get_winner game_is_over
  winner-full o = let v = Played-Inv p in ground arith

-- In a game that nobody resigned, `game_get_winner` names the first player exactly when X has a
-- row, column or diagonal and the second exactly when O has one; if it is over and
-- `game_get_winner` names nobody, all nine turns were played.
pub game_get_winner-HasLine :
    {g : Game}
    → Played g
    → ((game_get_winner g ≡ first_player_role) ↔ HasLine g.board 1)
      × ((game_get_winner g ≡ second_player_role) ↔ HasLine g.board 2)
      × (game_is_over g ≡ true → game_get_winner g ≡ null_role → g.num_turns ≡ 9)
game_get_winner-HasLine {g} p = (
  (
    λ e. (win-HasLine g.board 1).0 ((winner-first p).0 e),
    λ h. (winner-first p).1 ((win-HasLine g.board 1).1 h),
  ),
  (
    λ e. (win-HasLine g.board 2).0 ((winner-second p).0 e),
    λ h. (winner-second p).1 ((win-HasLine g.board 2).1 h),
  ),
  winner-full p,
)

-- A resignation of a running game ends it in favour of the other player, on a board that stays as
-- it was.
pub game_resign_running :
    (g : Game) (role : GameRole)
    → role ≢ null_role
    → game_is_over g ≡ false
    → (h : Game) × (game_resign g role ≡ some h)
      × (game_is_over h ≡ true)
      × (game_get_winner h ≢ role)
      × (game_get_winner h ≢ null_role)
      × (h.board ≡ g.board)
unfolding game_resign game_is_over game_get_winner
game_resign_running g role n o = (
  record g { terminated = true; winner = opponent_role role },
  ground arith,
  ground arith,
  ground arith,
  ground arith,
  ground arith,
)
