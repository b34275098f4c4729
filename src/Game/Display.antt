-- ===== src/Game/Display.antt =====
-- The picture of a game that `game_unparse_state` of src/game.c prints: its length, and that it
-- determines the board and the turn.
use multi_threaded_tic_tac_t.Base.{
  ℕ, zero, suc, ◌+◌, ◌≤◌, ◌<◌, ◌≡◌, refl, sym, ap, ◌∙◌, Bool, true, false, List, [], ◌∷◌, ◌++◌,
  arith, ◌==◌, if◌then◌else◌, length, get_or,
}
use multi_threaded_tic_tac_t.Game.{
  Game, cell, cell_str, row_str, rule, turn_str, game_unparse_state,
}

-- The character of a cell.
abbrev cell_char : ℕ → ℕ
cell_char c = if c == 0 then b' ' else if c == 1 then b'X' else b'O'

cell_str-char : (c : ℕ) → cell_str c ≡ cell_char c ∷ []
cell_str-char c = ground arith

abbrev row_chars : List ℕ → ℕ → ℕ → ℕ → List ℕ
row_chars b i j k =
    cell_char (cell b i) ∷ b'|' ∷ cell_char (cell b j) ∷ b'|' ∷ cell_char (cell b k) ∷ 10 ∷ []

row_str-chars : (b : List ℕ) (i j k : ℕ) → row_str b i j k ≡ row_chars b i j k
unfolding row_str
row_str-chars b i j k =
    rw (cell_str-char (cell b i), cell_str-char (cell b j), cell_str-char (cell b k))

abbrev turn_chars : Bool → List ℕ
turn_chars t =
    b'I'
    ∷ b't'
    ∷ 39
    ∷ b's'
    ∷ b' '
    ∷ (if t then b'X' else b'O')
    ∷ 39
    ∷ b's'
    ∷ b' '
    ∷ b't'
    ∷ b'u'
    ∷ b'r'
    ∷ b'n'
    ∷ 10
    ∷ []

turn_str-chars : (t : Bool) → turn_str t ≡ turn_chars t
unfolding turn_str
turn_str-chars true = refl
turn_str-chars false = refl

abbrev picture : Game → List ℕ
picture g =
    row_chars g.board 0 1 2
    ++ (rule
        ++ (row_chars g.board 3 4 5 ++ (rule ++ (row_chars g.board 6 7 8 ++ turn_chars g.turn_X))))

game_unparse_state-picture : (g : Game) → game_unparse_state g ≡ picture g
unfolding game_unparse_state
game_unparse_state-picture g = rw (
  row_str-chars g.board 0 1 2,
  row_str-chars g.board 3 4 5,
  row_str-chars g.board 6 7 8,
  turn_str-chars g.turn_X,
)

-- The picture has 44 characters for every game: with its end it fits the 48 bytes that the code
-- allocates for it.
pub length-game_unparse_state :
    (g : Game) → (length (game_unparse_state g) ≡ 44) × (length (game_unparse_state g) + 1 ≤ 47 + 1)
length-game_unparse_state g = rw (game_unparse_state-picture g) (refl, omega arith)

cell_char-injective : (a b : ℕ) → a ≤ 2 → b ≤ 2 → cell_char a ≡ cell_char b → a ≡ b
cell_char-injective a b h k e = ground arith

-- Cells 0 to 2 hold marks.
abbrev pub ReadsMarks : List ℕ → Type 0
ReadsMarks b = (i : ℕ) → cell b i ≤ 2

module _ (g h : Game) (e : game_unparse_state g ≡ game_unparse_state h) where
  same_char : (n : ℕ) → get_or (picture g) n 0 ≡ get_or (picture h) n 0
  same_char n =
      ap (λ s. get_or s n 0) (sym (game_unparse_state-picture g) ∙ e ∙ game_unparse_state-picture h)

  same_turn : g.turn_X ≡ h.turn_X
  same_turn = let c = same_char 35 in ground arith

  -- Cell `i` is printed in row `i / 3`, and each row takes twelve characters with its rule.
  same_cell_char : (i : ℕ) → i < 9 → cell_char (cell g.board i) ≡ cell_char (cell h.board i)
  same_cell_char zero lt = same_char 0
  same_cell_char (suc zero) lt = same_char 2
  same_cell_char (suc (suc zero)) lt = same_char 4
  same_cell_char (suc (suc (suc zero))) lt = same_char 12
  same_cell_char (suc (suc (suc (suc zero)))) lt = same_char 14
  same_cell_char (suc (suc (suc (suc (suc zero))))) lt = same_char 16
  same_cell_char (suc (suc (suc (suc (suc (suc zero)))))) lt = same_char 24
  same_cell_char (suc (suc (suc (suc (suc (suc (suc zero))))))) lt = same_char 26
  same_cell_char (suc (suc (suc (suc (suc (suc (suc (suc zero)))))))) lt = same_char 28
  same_cell_char (suc (suc (suc (suc (suc (suc (suc (suc (suc i))))))))) lt = absurd (omega arith)

-- The players read the position off the picture: two games with the same picture show the same
-- marks in all nine cells and have the same player on the move.
pub game_unparse_state-injective :
    (g h : Game)
    → ReadsMarks g.board
    → ReadsMarks h.board
    → game_unparse_state g ≡ game_unparse_state h
    → ((i : ℕ) → i < 9 → cell g.board i ≡ cell h.board i) × (g.turn_X ≡ h.turn_X)
game_unparse_state-injective g h a b e = (
  λ i lt.
      cell_char-injective (cell g.board i) (cell h.board i) (a i) (b i) (same_cell_char g h e i lt),
  same_turn g h e,
)
