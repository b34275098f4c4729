-- ===== src/GameObject.antt =====
-- src/game.c over the shared memory: a game object behind its pointer and its mutex.
use multi_threaded_tic_tac_t.Base.{◌+◌, ◌-◌, Bool, true, false, none, some, ◌==◌, if◌then◌else◌}
use multi_threaded_tic_tac_t.Objects.{Ptr, null}
use multi_threaded_tic_tac_t.World.{
  Env, game_lock, M, pure, ◌>>=◌, ◌>>◌, lock, unlock, request, load_game, put_game, new_address,
}
use multi_threaded_tic_tac_t.Game.{GameRole, null_role, Game, GameMove}
use multi_threaded_tic_tac_t.Game

unfoldable pub game_create : Env → M Ptr
game_create env = do
  granted ← request env
  if granted then (do g ← new_address; put_game g (some Game.game_create); pure g) else pure null

unfoldable pub game_ref : Ptr → M Ptr
game_ref game = if game == null then pure null else do
  lock (game_lock game)
  g ← load_game game
  put_game game (some (record g { ref_count = g.ref_count + 1 }))
  unlock (game_lock game)
  pure game

-- The mutex of a freed game is destroyed while it is locked.
unfoldable pub game_unref : Ptr → M (Unit {0})
game_unref game = if game == null then pure tt else do
  lock (game_lock game)
  g ← load_game game
  if g.ref_count == 1 then (do unlock (game_lock game); put_game game none) else do
    put_game game (some (record g { ref_count = g.ref_count - 1 }))
    unlock (game_lock game)

unfoldable pub game_apply_move : Ptr → GameMove → M Bool
game_apply_move game move = if game == null then pure false else do
  lock (game_lock game)
  g ← load_game game
  elim (Game.game_apply_move g move) [
    | none ↦ do unlock (game_lock game); pure false
    | some h ↦ do put_game game (some h); unlock (game_lock game); pure true
  ]

-- `terminated` is read before the mutex is locked.
unfoldable pub game_resign : Ptr → GameRole → M Bool
game_resign game role = if game == null then pure false else do
  g ← load_game game
  elim (Game.game_resign g role) [
    | none ↦ pure false
    | some h ↦ do lock (game_lock game); put_game game (some h); unlock (game_lock game); pure true
  ]

unfoldable pub game_get_winner : Ptr → M GameRole
game_get_winner game =
    if game == null then pure null_role else do g ← load_game game; pure (Game.game_get_winner g)
