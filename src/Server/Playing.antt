-- ===== src/Server/Playing.antt =====
-- The MOVE request of src/server.c: the move and the reply to it.
use multi_threaded_tic_tac_t.Base.{ℕ, ◌≡◌, ◌≢◌, true, false, Option, some, List, [], arith}
use multi_threaded_tic_tac_t.Objects.{Ptr, null, Client}
use multi_threaded_tic_tac_t.World.{Env, World, done, holds, and_then}
use multi_threaded_tic_tac_t.Game
use multi_threaded_tic_tac_t.Game.{GameMove, Game, game_parse_move, game_is_over}
use multi_threaded_tic_tac_t.Protocol.{Header}
use multi_threaded_tic_tac_t.Client.Sending.{AllWritten}
use multi_threaded_tic_tac_t.Matches.{role_in, client_make_move}
use multi_threaded_tic_tac_t.Matches.Moving.{
  Match, after_move, client_make_move_running, Refused, client_make_move-Refused,
}
use multi_threaded_tic_tac_t.Server.{reply, answer, handle, copy_payload}
use multi_threaded_tic_tac_t.Server.Guards.{Connected, acked, nacked, reply_ok, reply_refused}

answers :
    (env : Env) (w : World) (c : Ptr) (hdr : Header) (payload : Option (List ℕ))
    → hdr.type ≡ 7
    → handle env c true hdr payload w
      ≡ and_then
          (and_then (client_make_move env c hdr.id (copy_payload payload) w) (reply env c))
          (λ x v. done true v)
unfolding handle answer
answers env w c hdr payload e = ground (arith, e)

-- A MOVE that is legal and does not end the game is answered with ACK to the client, behind MOVED
-- to the opponent; nothing changes but the game, where every write succeeds.
pub handle_move_running :
    (env : Env)
    → AllWritten env
    → (w : World) (client inv : Ptr) (hdr : Header) (payload : Option (List ℕ))
      (t : Match w client hdr.id inv) (m : GameMove) (h : Game)
    → client ≢ null
    → hdr.type ≡ 7
    → game_parse_move t.game (role_in t.i client) (copy_payload payload) ≡ some m
    → Game.game_apply_move t.game m ≡ some h
    → game_is_over h ≡ false
    → handle env client true hdr payload w
      ≡ done true (acked env t.self (after_move env w t.i.game t.other t.other_id h))
unfolding holds
handle_move_running env ok w client inv hdr payload t m h n e p a o =
    let after = after_move env w t.i.game t.other t.other_id h in
    let there : Connected after client t.self = record {
      client_ne = n;
      live = t.self_live;
      free = rw t.free;
    } in
    rw (
      answers env w client hdr payload e,
      client_make_move_running env w client hdr.id inv (copy_payload payload) t m h ok p a o,
      reply_ok env ok after client t.self there,
    )

-- A MOVE that is refused is answered with one NACK, and nothing else changes.
pub handle_move-Refused :
    (env : Env)
    → AllWritten env
    → (w : World) (client : Ptr) (k : Client) (hdr : Header) (payload : Option (List ℕ))
    → client ≢ null
    → w.clients client ≡ some k
    → w.held ≡ []
    → hdr.type ≡ 7
    → Refused w k client hdr.id (copy_payload payload)
    → handle env client true hdr payload w ≡ done true (nacked env k w)
unfolding holds
handle_move-Refused env ok w client k hdr payload n live free e r =
    let there : Connected w client k = record { client_ne = n; live = live; free = rw free } in
    rw (
      answers env w client hdr payload e,
      client_make_move-Refused env w client hdr.id k (copy_payload payload) live free r,
      reply_refused env ok w client k there,
    )
