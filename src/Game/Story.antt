-- ===== src/Game/Story.antt =====
-- Tic-tac-toe as its rules are told, without a board: what src/game.c is to implement. A story is
-- the squares that were marked, the last one first, and the role that resigned; X starts, and the
-- sides take turns.
use multi_threaded_tic_tac_t.Base.{
  ℕ, Bool, true, false, not, ◌&&◌, ◌||◌, Option, none, some, List, [], ◌∷◌, leb, ◌==◌,
  if◌then◌else◌, length,
}
use multi_threaded_tic_tac_t.Game.{GameRole, null_role, first_player_role, second_player_role}

pub data Side : Type 0 where
  side_x side_o : Side

pub record Story : Type 0 where
  pub squares : List ℕ
  pub resigner : Option GameRole

pub data Action : Type 0 where
  mark : Side → ℕ → Action
  resign : GameRole → Action

abbrev pub other_side : Side → Side
other_side side_x = side_o
other_side side_o = side_x

-- The side on the move behind the squares.
unfoldable pub on_move : List ℕ → Side
on_move [] = side_x
on_move (q ∷ qs) = other_side (on_move qs)

abbrev pub same_side : Side → Side → Bool
same_side side_x side_x = true
same_side side_o side_o = true
same_side _ _ = false

-- The side that owns a square.
unfoldable pub owner : List ℕ → ℕ → Option Side
owner [] q = none
owner (x ∷ xs) q = if x == q then some (on_move xs) else owner xs q

unfoldable pub owns : List ℕ → Side → ℕ → Bool
owns qs side q = elim (owner qs q) [ none ↦ false | some s ↦ same_side side s ]

-- The rows, columns and diagonals.
abbrev pub lines : List (ℕ × ℕ × ℕ)
lines =
    (1, 2, 3)
    ∷ (4, 5, 6)
    ∷ (7, 8, 9)
    ∷ (1, 4, 7)
    ∷ (2, 5, 8)
    ∷ (3, 6, 9)
    ∷ (1, 5, 9)
    ∷ (3, 5, 7)
    ∷ []

abbrev pub any_line : (ℕ → Bool) → List (ℕ × ℕ × ℕ) → Bool
any_line f [] = false
any_line f ((i, j, k) ∷ ls) = (f i && (f j && f k)) || any_line f ls

unfoldable pub has_line : List ℕ → Side → Bool
has_line qs side = any_line (owns qs side) lines

abbrev pub is_some {ℓ} : {A : Type ℓ} → Option A → Bool
is_some none = false
is_some (some a) = true

unfoldable pub is_over : Story → Bool
is_over s =
    is_some s.resigner
    || (has_line s.squares side_x || (has_line s.squares side_o || leb 9 (length s.squares)))

unfoldable pub line_winner : List ℕ → GameRole
line_winner qs =
    if has_line qs side_o
    then second_player_role
    else if has_line qs side_x
    then first_player_role
    else null_role

-- The one that wins where a player resigns.
abbrev pub other_player : GameRole → GameRole
other_player null_role = first_player_role
other_player first_player_role = second_player_role
other_player second_player_role = first_player_role

unfoldable pub winner_of : Story → GameRole
winner_of s = elim s.resigner [ none ↦ line_winner s.squares | some role ↦ other_player role ]

abbrev pub allows : Story → Side → ℕ → Bool
allows s side q =
    leb 1 q
    && (leb q 9
        && (same_side side (on_move s.squares)
            && (not (is_some (owner s.squares q)) && not (is_over s))))

-- An action that the rules allow.
unfoldable pub tell : Story → Action → Option Story
tell s (mark side q) = if allows s side q then some (record s { squares = q ∷ s.squares }) else none
tell s (resign role) = if is_over s then none else some (record s { resigner = some role })

abbrev pub or_else {ℓ} : {A : Type ℓ} → Option A → A → A
or_else none b = b
or_else (some a) b = a

-- The story of any actions; one that the rules forbid is left out.
unfoldable pub tell_all : Story → List Action → Story
tell_all s [] = s
tell_all s (a ∷ rest) = tell_all (or_else (tell s a) s) rest

abbrev pub no_story : Story
no_story = record { squares = []; resigner = none }
