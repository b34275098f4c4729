-- ===== src/Player.antt =====
-- src/player.c: the operations on the player objects that the clients share.
use multi_threaded_tic_tac_t.Base.{ℕ, zero, suc, ◌+◌, ◌-◌, Option, none, some, ◌==◌, if◌then◌else◌}
use multi_threaded_tic_tac_t.Objects.{
  Ptr, null, Name, Score, win_score, draw_score, loss_score, Rating, initial, plus_first,
  plus_second,
}
use multi_threaded_tic_tac_t.World.{
  Env, player_lock, M, pure, ◌>>=◌, ◌>>◌, lock, unlock, request, load_player, put_player,
  new_address,
}

-- `PLAYER_INITIAL_RATING`, one reference. The allocations end the program when they fail, so
-- only the mutex can make the result NULL.
unfoldable pub player_create : Env → Name → M Ptr
player_create env name = do
  granted ← request env
  if granted
      then (do
        p ← new_address
        put_player p (some (record { username = name; rating = initial; ref_count = 1 }))
        pure p)
      else pure null

unfoldable pub player_ref : Ptr → M Ptr
player_ref player = if player == null then pure null else do
  lock (player_lock player)
  p ← load_player player
  put_player player (some (record p { ref_count = p.ref_count + 1 }))
  unlock (player_lock player)
  pure player

-- A live object has a positive count, so the count never falls below zero.
unfoldable pub player_unref : Ptr → M (Unit {0})
player_unref player = if player == null then pure tt else do
  lock (player_lock player)
  p ← load_player player
  if p.ref_count == 1 then (do unlock (player_lock player); put_player player none) else do
    put_player player (some (record p { ref_count = p.ref_count - 1 }))
    unlock (player_lock player)

unfoldable pub player_get_name : Ptr → M (Option Name)
player_get_name player =
    if player == null then pure none else do p ← load_player player; pure (some p.username)

-- The scores for the result of a game: 0 for a draw, else the number of the winner.
abbrev pub scores : ℕ → Option (Score × Score)
scores zero = some (draw_score, draw_score)
scores (suc zero) = some (win_score, loss_score)
scores (suc (suc zero)) = some (loss_score, win_score)
scores _ = none

-- `player->rating += change` under the player's mutex.
unfoldable pub add_rating : Ptr → (Rating → Rating) → M (Unit {0})
add_rating player plus = do
  lock (player_lock player)
  p ← load_player player
  put_player player (some (record p { rating = plus p.rating }))
  unlock (player_lock player)

unfoldable pub post_scores : Ptr → Ptr → Score × Score → M (Unit {0})
unfolding add_rating
post_scores player1 player2 (score1, score2) = do
  p1 ← load_player player1
  p2 ← load_player player2
  add_rating player1 (λ r. plus_first r p1.rating p2.rating score1)
  add_rating player2 (λ r. plus_second r p1.rating p2.rating score2)

unfoldable pub player_post_result : Ptr → Ptr → ℕ → M (Unit {0})
unfolding post_scores
player_post_result player1 player2 result = elim (scores result) [
  | none ↦ pure tt
  | some s ↦ post_scores player1 player2 s
]
