-- ===== src/Game/Texts.antt =====
-- A text that a player sends, in src/game.c: `game_parse_move` and `game_apply_move` against the
-- rules of the stories.
use multi_threaded_tic_tac_t.Base.{
  ℕ, ◌≡◌, refl, ap, ◌∙◌, ◌⊎◌, inl, inr, true, false, not, Option, none, some, List, arith, ◌==◌,
  if◌then◌else◌, Bool-cases, Option-cases, ==_iff,
}
use multi_threaded_tic_tac_t.Game.{
  GameRole, first_player_role, second_player_role, Game, GameMove, wrong_turn, parse_text,
  game_parse_move, game_apply_move, is_illegal,
}
use multi_threaded_tic_tac_t.Game.Rules.{IsPlayer}
use multi_threaded_tic_tac_t.Game.Moves.{parse-IsPlayer}
use multi_threaded_tic_tac_t.Game.Story.{
  Side, side_x, side_o, Story, Action, mark, tell, on_move, same_side,
}
use multi_threaded_tic_tac_t.Game.Refinement.{number, game_of, apply, image, apply-tell}

abbrev pub role_of : Side → GameRole
role_of side_x = first_player_role
role_of side_o = second_player_role

abbrev pub apply_read : Game → Option GameMove → Option Game
apply_read g none = none
apply_read g (some m) = game_apply_move g m

-- What the code does with a text.
unfoldable pub attempt : Game → GameRole → List ℕ → Option Game
attempt g role str = apply_read g (game_parse_move g role str)

abbrev pub own : Side → Option GameMove → Option Action
own side none = none
own side (some m) = if m.player == number side then some (mark side m.square) else none

-- The mark that a text of a side means: its own only.
unfoldable pub meant : Side → List ℕ → Option Action
meant side str = own side (parse_text (role_of side) str)

abbrev pub tell_meant : Story → Option Action → Option Story
tell_meant s none = none
tell_meant s (some a) = tell s a

wrong_turn-side :
    (refs : ℕ) (s : Story) (side : Side)
    → wrong_turn (game_of refs s) (role_of side) ≡ not (same_side side (on_move s.squares))
unfolding game_of
wrong_turn-side refs s side = ground arith

-- A mark of a side that is not on the move.
tell_other_side :
    (s : Story) (side : Side) (str : List ℕ)
    → same_side side (on_move s.squares) ≡ false
    → tell_meant s (meant side str) ≡ none
unfolding meant tell
tell_other_side s side str h = elim (Option-cases (parse_text (role_of side) str)) [
  | inl nothing ↦ rw nothing refl
  | inr (m, e) ↦ rw e (ground (arith, h))
]

other_mark :
    (refs : ℕ) (s : Story) (side : Side) (m : GameMove)
    → same_side side (on_move s.squares) ≡ true
    → IsPlayer m
    → (m.player == number side) ≡ false
    → game_apply_move (game_of refs s) m ≡ none
unfolding game_apply_move is_illegal game_of
other_mark refs s side m mine p other = ground arith

own_mark :
    (refs : ℕ) (s : Story) (side : Side) (m : GameMove)
    → m.player ≡ number side
    → game_apply_move (game_of refs s) m ≡ image refs (tell s (mark side m.square))
unfolding apply
own_mark refs s side m e =
    ap (λ p. game_apply_move (game_of refs s) (record { player = p; square = m.square })) e
    ∙ apply-tell refs s (mark side m.square)

-- A text is taken by the code exactly if it means a mark that the rules allow.
pub attempt-tell :
    (refs : ℕ) (s : Story) (side : Side) (str : List ℕ)
    → attempt (game_of refs s) (role_of side) str ≡ image refs (tell_meant s (meant side str))
unfolding attempt game_parse_move meant
attempt-tell refs s side str = elim (Bool-cases (same_side side (on_move s.squares))) [
  | inl mine ↦ elim (Option-cases (parse_text (role_of side) str)) [
    | inl nothing ↦ rw (wrong_turn-side refs s side, mine, nothing) refl
    | inr (m, e) ↦ elim (Bool-cases (m.player == number side)) [
      | inl same ↦
          rw (wrong_turn-side refs s side, mine, e, same)
            (own_mark refs s side m ((==_iff m.player (number side)).0 same))
      | inr other ↦
          rw (wrong_turn-side refs s side, mine, e, other)
            (other_mark refs s side m mine (parse-IsPlayer (role_of side) str m e) other)
    ]
  ]
  | inr other ↦ rw (wrong_turn-side refs s side, other, tell_other_side s side str other) refl
]

-- Why a text is taken, or is not.
pub attempt_taken :
    (g h : Game) (role : GameRole) (str : List ℕ)
    → attempt g role str ≡ some h
    → (m : GameMove) × (game_parse_move g role str ≡ some m) × (game_apply_move g m ≡ some h)
unfolding attempt
attempt_taken g h role str e = elim (Option-cases (game_parse_move g role str)) [
  | inl unread ↦ absurd (ground (arith, unread, e))
  | inr (m, read) ↦ (m, read, rw read at e)
]

pub attempt_refused :
    (g : Game) (role : GameRole) (str : List ℕ)
    → attempt g role str ≡ none
    → (game_parse_move g role str ≡ none)
      ⊎ ((m : GameMove) × (game_parse_move g role str ≡ some m) × (game_apply_move g m ≡ none))
unfolding attempt
attempt_refused g role str e = elim (Option-cases (game_parse_move g role str)) [
  | inl unread ↦ inl unread
  | inr (m, read) ↦ inr (m, read, rw read at e)
]
