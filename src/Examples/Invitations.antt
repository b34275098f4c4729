-- ===== src/Examples/Invitations.antt =====
-- The invitations of src/client.c and src/invitation.c between two clients.
use multi_threaded_tic_tac_t.Base.{
  ℕ, ◌≡◌, ◌≢◌, refl, inl, inr, true, false, Option, none, some, List, [], ◌∷◌, arith, length,
}
use multi_threaded_tic_tac_t.Game.{
  GameRole, null_role, first_player_role, second_player_role, is_first, game_unparse_state,
}
use multi_threaded_tic_tac_t.Game
use multi_threaded_tic_tac_t.GameObject
use multi_threaded_tic_tac_t.Objects.{
  null, Player, Invitation, inv_open_state, inv_accepted_state, inv_closed_state,
}
use multi_threaded_tic_tac_t.World.{
  World, done, update, lock, unlock, load_inv, load_game, holds, without, same_mutex,
}
use multi_threaded_tic_tac_t.Protocol.{htons, revoked_pkt, declined_pkt, accepted_pkt}
use multi_threaded_tic_tac_t.Client.Sending.{packet_of, stamped}
use multi_threaded_tic_tac_t.ClientList.{find_lowest_id_available}
use multi_threaded_tic_tac_t.Invitation.{inv_close, resign_in_progress}
use multi_threaded_tic_tac_t.Invitation.States.{FollowsIn, closes, act, nothing, Actions-Follows}
use multi_threaded_tic_tac_t.Requests.{
  invited_packet, client_make_invitation, client_revoke_invitation, client_decline_invitation,
  client_accept_invitation,
}
use multi_threaded_tic_tac_t.Requests.Making.{
  Inviting, offer, invited, client_make_invitation_lem, client_make_invitation_no_name,
}
use multi_threaded_tic_tac_t.Requests.Withdrawing.{Sides, Offered, Withdrawn}
use multi_threaded_tic_tac_t.Requests.Outcomes.{
  NotAllowed, client_revoke_invitation_lem, client_decline_invitation_lem, withdrawal_refused,
}
use multi_threaded_tic_tac_t.Requests.NotAccepting.{client_accept_invitation_refused}
use multi_threaded_tic_tac_t.Requests.Accepting.{Acceptable, client_accept_invitation_lem}
use multi_threaded_tic_tac_t.Examples.Setting.{
  env, env-AllWritten, ann, with_node, idle, invitation, invited_world, playing, lobby, position,
  one-two, two-one, one-null, two-null, nine-null, ann_listed, bob_listed, ann_knows, bob_knows,
}

abbrev offered_invitation : Invitation
offered_invitation = invitation inv_open_state null

abbrev sides : Sides
sides = record { source = with_node 4 1 4; target = with_node 5 2 7; source_id = 4; target_id = 7 }

offered : Offered invited_world 1 offered_invitation sides
offered = record {
  inv_ne = one-null;
  source_ne = one-null;
  target_ne = two-null;
  no_game = refl;
  apart = one-two;
  inv_live = refl;
  inv_count = refl;
  source_live = refl;
  target_live = refl;
  source_count = omega arith;
  target_count = omega arith;
  source_listed = ann_knows;
  target_listed = bob_knows;
  free = refl;
}

client_revoke_invitation_example :
    (v : World) × (client_revoke_invitation env 1 4 invited_world ≡ done true v)
    × (v.sent ≡ (5, stamped env 0 (packet_of revoked_pkt 7 0 (htons 0))) ∷ [])
    × Withdrawn v 1 offered_invitation sides
client_revoke_invitation_example =
    client_revoke_invitation_lem env env-AllWritten invited_world 1 offered_invitation sides offered
      4 ann_listed

client_decline_invitation_example :
    (v : World) × (client_decline_invitation env 2 7 invited_world ≡ done true v)
    × (v.sent ≡ (4, stamped env 0 (packet_of declined_pkt 4 0 (htons 0))) ∷ [])
    × Withdrawn v 1 offered_invitation sides
client_decline_invitation_example =
    client_decline_invitation_lem env env-AllWritten invited_world 1 offered_invitation sides
      offered 7 bob_listed

-- The target cannot revoke.
withdrawal_refused_example :
    (NotAllowed invited_world (with_node 5 2 7) 2 (λ i. i.sender) 7
      → client_revoke_invitation env 2 7 invited_world ≡ done false invited_world)
    × (NotAllowed invited_world (with_node 5 2 7) 2 (λ i. i.recipient) 7
        → client_decline_invitation env 2 7 invited_world ≡ done false invited_world)
withdrawal_refused_example = withdrawal_refused env invited_world 2 (with_node 5 2 7) refl refl 7

acceptable : Acceptable invited_world 1 offered_invitation (with_node 4 1 4) (with_node 5 2 7) 4 7
acceptable = record {
  inv_ne = one-null;
  source_ne = one-null;
  apart = one-two;
  inv_live = refl;
  is_open = refl;
  no_game = refl;
  source_live = refl;
  target_live = refl;
  source_listed = ann_knows;
  target_listed = bob_listed;
  fresh_ne = nine-null;
  free = refl;
}

client_accept_invitation_example :
    (str : Option (List ℕ)) × (v : World) × (client_accept_invitation env 2 7
        (some (b'?' ∷ []))
        invited_world
      ≡ done (true, str) v)
    × (v.invs 1 ≡ some (invitation inv_accepted_state 9))
    × (v.games 9 ≡ some Game.game_create)
    × (v.held ≡ [])
    × (is_first first_player_role ≡ true
        → (str ≡ some (b'?' ∷ []))
          × (v.sent
              ≡ (4, game_unparse_state Game.game_create)
                ∷ (
                  4,
                  stamped env 0 (
                      packet_of accepted_pkt 4 0
                        (htons (length (game_unparse_state Game.game_create)))),
                )
                ∷ []))
    × (is_first first_player_role ≡ false
        → (str ≡ some (game_unparse_state Game.game_create))
          × (v.sent ≡ (4, stamped env 0 (packet_of accepted_pkt 4 0 (htons 0))) ∷ []))
client_accept_invitation_example =
    client_accept_invitation_lem env invited_world 1 offered_invitation (with_node 4 1 4)
      (with_node 5 2 7) 4 7 acceptable (some (b'?' ∷ [])) env-AllWritten refl

-- The source cannot accept.
client_accept_invitation_refused_example :
    client_accept_invitation env 1 4 none invited_world ≡ done (false, none) invited_world
client_accept_invitation_refused_example =
    client_accept_invitation_refused env invited_world 1 (with_node 4 1 4) 4 none refl refl
      (inl (inr (1, offered_invitation, ann_listed, one-null, refl, inr two-one)))

inviting : Inviting env lobby 1 2 (idle 4 1) (idle 5 2) ann
inviting = record {
  source_ne = one-null;
  target_ne = two-null;
  apart = one-two;
  source_live = refl;
  target_live = refl;
  logged_in = refl;
  player_ne = one-null;
  player_live = refl;
  fresh_ne = nine-null;
  free = refl;
  granted = λ n. refl;
}

three-zero : ◌≢◌ {A = ℕ} 3 0
three-zero = cc

client_make_invitation_example :
    (v : World) × (client_make_invitation env 1 2 first_player_role second_player_role lobby
      ≡ done (some (find_lowest_id_available [])) v)
    × (v.invs 9 ≡ some (offer 1 2 first_player_role second_player_role 2))
    × (v.clients 1 ≡ some (invited 9 (idle 4 1)))
    × (v.clients 2 ≡ some (invited 9 (idle 5 2)))
    × (v.sent
        ≡ (5, ann.username)
          ∷ (
            5,
            stamped env 0
                (invited_packet (find_lowest_id_available []) second_player_role ann.username),
          )
          ∷ [])
    × (v.held ≡ [])
client_make_invitation_example =
    client_make_invitation_lem env lobby 1 2 (idle 4 1) (idle 5 2) ann inviting first_player_role
      second_player_role env-AllWritten (omega arith) three-zero

abbrev unnamed : Player
unnamed = record ann { username = [] }

abbrev unnamed_lobby : World
unnamed_lobby = record lobby { players = update lobby.players 1 (some unnamed) }

unnamed-Inviting : Inviting env unnamed_lobby 1 2 (idle 4 1) (idle 5 2) unnamed
unnamed-Inviting = record {
  source_ne = one-null;
  target_ne = two-null;
  apart = one-two;
  source_live = refl;
  target_live = refl;
  logged_in = refl;
  player_ne = one-null;
  player_live = refl;
  fresh_ne = nine-null;
  free = refl;
  granted = λ n. refl;
}

client_make_invitation_no_name_example :
    (v : World) × (client_make_invitation env 1 2 first_player_role second_player_role unnamed_lobby
      ≡ done none v)
    × (v.invs 9 ≡ some (offer 1 2 first_player_role second_player_role 3))
    × (v.clients 1 ≡ some (invited 9 (idle 4 1)))
    × (v.clients 2 ≡ some (invited 9 (idle 5 2)))
    × (v.sent ≡ [])
    × (v.held ≡ [])
client_make_invitation_no_name_example =
    client_make_invitation_no_name env unnamed_lobby 1 2 (idle 4 1) (idle 5 2) unnamed
      unnamed-Inviting first_player_role second_player_role refl

-- The second player closes an invitation whose game runs, and then somebody closes it again.
abbrev closed_once : World
closed_once = record playing {
  invs = update playing.invs 1 (some (invitation inv_closed_state 1));
  games =
      update playing.games 1
        (some (record position { terminated = true; winner = first_player_role }));
}

closes_once : inv_close 1 second_player_role playing ≡ done true closed_once
unfolding inv_close load_inv lock unlock holds without same_mutex resign_in_progress load_game
    GameObject.game_resign Game.game_resign
closes_once = refl

closes_twice : inv_close 1 first_player_role closed_once ≡ done false closed_once
unfolding inv_close load_inv lock unlock holds without same_mutex
closes_twice = refl

Actions-Follows_example : FollowsIn (invitation inv_accepted_state 1) (closed_once.invs 1)
Actions-Follows_example =
    Actions-Follows 1 playing closed_once (invitation inv_accepted_state 1) refl (
      act (closes second_player_role) true closes_once
        (act (closes first_player_role) false closes_twice nothing))
