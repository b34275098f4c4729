-- ===== src/Server/Users.antt =====
-- The answer to USERS of src/server.c: the text of the list of users and its buffer.
use multi_threaded_tic_tac_t.Base.{
  ℕ, ◌+◌, ◌≤◌, ◌<◌, ◌≡◌, refl, List, [], ◌∷◌, arith, length, length-append,
}
use multi_threaded_tic_tac_t.Objects.{Ptr, Client}
use multi_threaded_tic_tac_t.World.{Env, World, done, crash}
use multi_threaded_tic_tac_t.Protocol.{ack_pkt}
use multi_threaded_tic_tac_t.Client.{client_send_ack, make_packet}
use multi_threaded_tic_tac_t.Client.Sending.{AllWritten, after_packet, send_packet}
use multi_threaded_tic_tac_t.Server.{join, total_size, send_users}
use multi_threaded_tic_tac_t.Server.Guards.{Connected}
use native.Mathlib.Nat.{mod-eq_of_lt}

total_size-join : (lines : List (List ℕ)) → total_size lines ≡ length (join lines) + length lines
unfolding total_size join
total_size-join [] = refl
total_size-join (l ∷ ls) = grind (arith, total_size-join ls, length-append)

-- With five lines or more, the NUL behind the text is written outside the buffer.
pub send_users_overflow :
    (env : Env) (c : Ptr) (lines : List (List ℕ)) (w : World)
    → 5 ≤ length lines
    → send_users env c lines w ≡ crash
unfolding send_users
send_users_overflow env c lines w many = ground (arith, total_size-join lines)

-- With fewer lines, the client gets one ACK whose payload is the text and whose size is its length.
pub send_users_few :
    (env : Env)
    → AllWritten env
    → (w : World) (c : Ptr) (k : Client) → Connected w c k
    → (lines : List (List ℕ)) → length lines < 5
    → 0 < length (join lines)
    → length (join lines) < 65536
    → send_users env c lines w
      ≡ done tt (after_packet env k.fd (make_packet ack_pkt (length (join lines))) (join lines) w)
unfolding send_users client_send_ack make_packet
send_users_few env ok w c k h lines few some_text short =
    let sent =
      send_packet env ok w c k (make_packet ack_pkt (length (join lines))) h.client_ne h.live h.free
        (join lines) (rw (mod-eq_of_lt short) refl) short (omega arith) in
    ground (arith, total_size-join lines, sent)
