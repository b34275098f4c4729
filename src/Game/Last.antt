-- ===== src/Game/Last.antt =====
-- The mark that ends a game of the rules: who can have won by it.
use multi_threaded_tic_tac_t.Base.{
  ℕ, ◌≡◌, refl, inl, inr, Bool, true, none, some, List, ◌∷◌, arith, ◌==◌, Bool-cases, Option-cases,
  if◌then◌else◌,
}
use mathlib.Core.Path.{fun_ext}
use multi_threaded_tic_tac_t.Game.{GameRole, null_role, parse_text}
use multi_threaded_tic_tac_t.Game.Story.{
  Side, other_side, Story, mark, tell, on_move, owner, owns, has_line, is_over, line_winner,
  winner_of, allows,
}
use multi_threaded_tic_tac_t.Game.Refinement.{number}
use multi_threaded_tic_tac_t.Game.Texts.{role_of, meant, tell_meant}

module _ (qs : List ℕ) (q : ℕ) (open_square : owner qs q ≡ none) where
  owns_other :
      (x : ℕ) → owns (q ∷ qs) (other_side (on_move qs)) x ≡ owns qs (other_side (on_move qs)) x
  unfolding owns owner
  owns_other x = ground (arith, open_square)

  -- A mark gives the other side no line.
  line_other : has_line (q ∷ qs) (other_side (on_move qs)) ≡ has_line qs (other_side (on_move qs))
  unfolding has_line
  line_other = rw (fun_ext owns_other) refl

-- The winner by a mark of a side: that side with a line, or nobody.
abbrev pub winner_by : Side → Bool → GameRole
winner_by side lined = if lined then role_of side else null_role

winner_marked :
    (s : Story) (q : ℕ)
    → allows s (on_move s.squares) q ≡ true
    → winner_of (record s { squares = q ∷ s.squares })
      ≡ winner_by (on_move s.squares) (has_line (q ∷ s.squares) (on_move s.squares))
unfolding winner_of line_winner is_over
winner_marked s q h =
    let free : owner s.squares q ≡ none = ground (arith, h) in
    let same = line_other s.squares q free in ground (arith, h, same)

marked :
    (s s2 : Story) (side : Side) (q : ℕ)
    → tell s (mark side q) ≡ some s2
    → winner_of s2 ≡ winner_by side (has_line s2.squares side)
unfolding tell
marked s s2 side q e =
    let legal : allows s side q ≡ true = ground (arith, e) in
    let mine : side ≡ on_move s.squares = ground (arith, legal) in
    let shape : s2 ≡ record s { squares = q ∷ s.squares } = ground (arith, e) in
    rw (shape, mine) (winner_marked s q (rw mine at legal))

-- A text of a side that the rules allow can only make that side win, and does so exactly if it
-- completes a line.
pub told_winner :
    (s s2 : Story) (side : Side) (str : List ℕ)
    → tell_meant s (meant side str) ≡ some s2
    → winner_of s2 ≡ winner_by side (has_line s2.squares side)
unfolding meant
told_winner s s2 side str e = elim (Option-cases (parse_text (role_of side) str)) [
  | inl nothing ↦ absurd (ground (arith, nothing, e))
  | inr (m, read) ↦ elim (Bool-cases (m.player == number side)) [
    | inl own ↦ marked s s2 side m.square (rw (read, own) at e)
    | inr other ↦ absurd (ground (arith, read, other, e))
  ]
]
