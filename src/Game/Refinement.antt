-- ===== src/Game/Refinement.antt =====
-- src/game.c implements the rules of the stories.
use multi_threaded_tic_tac_t.Base.{
  ℕ, zero, suc, ◌-◌, ◌≤◌, ◌≡◌, refl, ap, ◌∙◌, Bool, true, false, not, ◌||◌, Option, none, some,
  List, [], ◌∷◌, ◌==◌, length, arith, set, Bool-cases, inl, inr,
}
use multi_threaded_tic_tac_t.Game.{
  GameRole, null_role, first_player_role, second_player_role, Game, game_create, game_apply_move,
  game_resign, game_is_over, game_get_winner, is_illegal, win, record_win, count_turn, place, cell,
}
use multi_threaded_tic_tac_t.Game.Story.{
  Side, side_x, side_o, Story, Action, mark, resign, on_move, owner, owns, has_line, is_over,
  line_winner, winner_of, allows, tell, tell_all, no_story, or_else,
}

abbrev pub number : Side → ℕ
number side_x = 1
number side_o = 2

abbrev pub as_cell : Option Side → ℕ
as_cell none = 0
as_cell (some s) = number s

abbrev pub is_x : Side → Bool
is_x side_x = true
is_x side_o = false

-- The board of the squares.
unfoldable pub picture : List ℕ → List ℕ
picture qs =
    as_cell (owner qs 1)
    ∷ as_cell (owner qs 2)
    ∷ as_cell (owner qs 3)
    ∷ as_cell (owner qs 4)
    ∷ as_cell (owner qs 5)
    ∷ as_cell (owner qs 6)
    ∷ as_cell (owner qs 7)
    ∷ as_cell (owner qs 8)
    ∷ as_cell (owner qs 9)
    ∷ []

-- The game of src/game.c that stands for a story.
unfoldable pub game_of : ℕ → Story → Game
game_of refs s = record {
  turn_X = is_x (on_move s.squares);
  num_turns = length s.squares;
  board = picture s.squares;
  winner = winner_of s;
  terminated = is_over s;
  ref_count = refs;
}

unfoldable pub apply : Game → Action → Option Game
apply g (mark side q) = game_apply_move g (record { player = number side; square = q })
apply g (resign role) = game_resign g role

owns-cell :
    (qs : List ℕ) (side : Side) (q : ℕ) → owns qs side q ≡ (as_cell (owner qs q) == number side)
unfolding owns
owns-cell qs side q = ground arith

or_false : (b : Bool) → (b || false) ≡ b
or_false true = refl
or_false false = refl

has_line-win : (qs : List ℕ) (side : Side) → has_line qs side ≡ win (picture qs) (number side)
unfolding has_line win picture
has_line-win qs side = simp (owns-cell qs side, or_false)

-- The nine places of the board.
below_nine :
    (P : ℕ → Type 0) → P 0 → P 1 → P 2 → P 3 → P 4 → P 5 → P 6 → P 7 → P 8 → (i : ℕ) → i ≤ 8 → P i
below_nine P p0 p1 p2 p3 p4 p5 p6 p7 p8 zero h = p0
below_nine P p0 p1 p2 p3 p4 p5 p6 p7 p8 (suc zero) h = p1
below_nine P p0 p1 p2 p3 p4 p5 p6 p7 p8 (suc (suc zero)) h = p2
below_nine P p0 p1 p2 p3 p4 p5 p6 p7 p8 (suc (suc (suc zero))) h = p3
below_nine P p0 p1 p2 p3 p4 p5 p6 p7 p8 (suc (suc (suc (suc zero)))) h = p4
below_nine P p0 p1 p2 p3 p4 p5 p6 p7 p8 (suc (suc (suc (suc (suc zero))))) h = p5
below_nine P p0 p1 p2 p3 p4 p5 p6 p7 p8 (suc (suc (suc (suc (suc (suc zero)))))) h = p6
below_nine P p0 p1 p2 p3 p4 p5 p6 p7 p8 (suc (suc (suc (suc (suc (suc (suc zero))))))) h = p7
below_nine P p0 p1 p2 p3 p4 p5 p6 p7 p8 (suc (suc (suc (suc (suc (suc (suc (suc zero)))))))) h = p8
below_nine P p0 p1 p2 p3 p4 p5 p6 p7 p8 (suc (suc (suc (suc (suc (suc (suc (suc (suc i))))))))) h =
    absurd (omega (arith, h))

set-picture :
    (qs : List ℕ) (i : ℕ) → i ≤ 8 → set (picture qs) i (number (on_move qs)) ≡ picture (suc i ∷ qs)
unfolding picture owner
set-picture qs =
    below_nine (λ i. set (picture qs) i (number (on_move qs)) ≡ picture (suc i ∷ qs)) refl refl refl
      refl refl refl refl refl refl

cell-picture : (qs : List ℕ) (i : ℕ) → i ≤ 8 → cell (picture qs) i ≡ as_cell (owner qs (suc i))
unfolding picture
cell-picture qs =
    below_nine (λ i. cell (picture qs) i ≡ as_cell (owner qs (suc i))) refl refl refl refl refl refl
      refl refl refl

-- The guard of the code is that of the rules.
is_illegal-allows :
    (refs : ℕ) (s : Story) (side : Side) (i : ℕ)
    → is_illegal (game_of refs s) (record { player = number side; square = suc i })
      ≡ not (allows s side (suc i))
unfolding is_illegal game_of
is_illegal-allows refs s side i = ground (arith, cell-picture s.squares i)

-- The mark on the board, where the story is not over.
place_lem :
    (refs : ℕ) (s : Story) (i : ℕ)
    → i ≤ 8
    → is_over s ≡ false
    → place (game_of refs s) (record { player = number (on_move s.squares); square = suc i })
      ≡ record {
        turn_X = is_x (on_move (suc i ∷ s.squares));
        num_turns = length s.squares;
        board = picture (suc i ∷ s.squares);
        winner = null_role;
        terminated = false;
        ref_count = refs;
      }
unfolding game_of place winner_of line_winner on_move is_over
place_lem refs s i h o =
    let at : suc i - 1 ≡ i = omega arith in ground (arith, set-picture s.squares i h, at)

settle_lem :
    (refs : ℕ) (s : Story) (i : ℕ)
    → is_over s ≡ false
    → count_turn (
        record_win 2 second_player_role (
          record_win 1 first_player_role (record {
            turn_X = is_x (on_move (suc i ∷ s.squares));
            num_turns = length s.squares;
            board = picture (suc i ∷ s.squares);
            winner = null_role;
            terminated = false;
            ref_count = refs;
          })))
      ≡ game_of refs (record s { squares = suc i ∷ s.squares })
unfolding game_of count_turn record_win is_over winner_of line_winner
settle_lem refs s i o =
    ground (arith, has_line-win (suc i ∷ s.squares) side_x, has_line-win (suc i ∷ s.squares) side_o)

abbrev pub image : ℕ → Option Story → Option Game
image refs none = none
image refs (some s) = some (game_of refs s)

allowed_side :
    (s : Story) (side : Side) (q : ℕ)
    → allows s side q ≡ true
    → (side ≡ on_move s.squares) × (q ≤ 9) × (is_over s ≡ false)
allowed_side s side q h = (ground arith, ground arith, ground arith)

mark_lem :
    (refs : ℕ) (s : Story) (side : Side) (i : ℕ)
    → allows s side (suc i) ≡ true
    → apply (game_of refs s) (mark side (suc i))
      ≡ some (game_of refs (record s { squares = suc i ∷ s.squares }))
unfolding apply game_apply_move
mark_lem refs s side i h =
    let (mine, high, o) = allowed_side s side (suc i) h in
    rw
      (
        is_illegal-allows refs s side i,
        h,
        mine,
        place_lem refs s i (omega arith) o,
        settle_lem refs s i o,
      )
      refl

resign_lem :
    (refs : ℕ) (s : Story) (role : GameRole)
    → game_resign (game_of refs s) role ≡ image refs (tell s (resign role))
unfolding game_resign game_of tell is_over winner_of
resign_lem refs s role = ground arith

-- The code takes an action exactly if the rules allow it, and then makes the game of the longer
-- story.
pub apply-tell :
    (refs : ℕ) (s : Story) (a : Action) → apply (game_of refs s) a ≡ image refs (tell s a)
unfolding apply tell game_apply_move is_illegal
apply-tell refs s (mark side zero) = refl
apply-tell refs s (mark side (suc i)) = elim (Bool-cases (allows s side (suc i))) [
  | inl legal ↦ rw legal (mark_lem refs s side i legal)
  | inr illegal ↦ rw (is_illegal-allows refs s side i, illegal) refl
]
apply-tell refs s (resign role) = resign_lem refs s role

-- The game that the actions make; one that the code refuses leaves it as it is.
unfoldable pub apply_all : Game → List Action → Game
apply_all g [] = g
apply_all g (a ∷ rest) = apply_all (or_else (apply g a) g) rest

pub or_else-image :
    (refs : ℕ) (s : Story) (o : Option Story)
    → or_else (image refs o) (game_of refs s) ≡ game_of refs (or_else o s)
or_else-image refs s none = refl
or_else-image refs s (some t) = refl

apply_all-tell_all :
    (refs : ℕ) (s : Story) (actions : List Action)
    → apply_all (game_of refs s) actions ≡ game_of refs (tell_all s actions)
unfolding tell_all apply_all
apply_all-tell_all refs s [] = refl
apply_all-tell_all refs s (a ∷ rest) =
    ap (λ o. apply_all (or_else o (game_of refs s)) rest) (apply-tell refs s a)
    ∙ (ap (λ g. apply_all g rest) (or_else-image refs s (tell s a))
        ∙ apply_all-tell_all refs (or_else (tell s a) s) rest)

pub start_lem : game_create ≡ game_of 1 no_story
unfolding game_create game_of picture is_over winner_of line_winner has_line owns owner on_move
start_lem = refl

pub winner_lem : (refs : ℕ) (s : Story) → game_get_winner (game_of refs s) ≡ winner_of s
unfolding game_get_winner game_of is_over winner_of line_winner
winner_lem refs s = ground (arith, has_line-win s.squares side_x, has_line-win s.squares side_o)

-- Whatever actions are tried on a new game, in whatever order, the code has the board, the turn,
-- the end and the winner that the rules give the story of the actions that they allow.
pub played-story :
    (actions : List Action)
    → let g = apply_all game_create actions in
      let s = tell_all no_story actions in
      (g.board ≡ picture s.squares)
      × (g.turn_X ≡ is_x (on_move s.squares))
      × (game_is_over g ≡ is_over s)
      × (game_get_winner g ≡ winner_of s)
unfolding game_is_over game_of
played-story actions =
    let s = tell_all no_story actions in
    rw (start_lem, apply_all-tell_all 1 no_story actions) (refl, refl, refl, winner_lem 1 s)
