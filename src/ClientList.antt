-- ===== src/ClientList.antt =====
-- src/client.c, the list of invitations of a client: the identifiers, adding and removing.
pub mod Ids
pub mod Update
use multi_threaded_tic_tac_t.Base.{
  ℕ, zero, suc, ◌+◌, ◌-◌, ◌*◌, ◌/◌, ◌%◌, ◌≡◌, refl, Bool, true, false, not, ◌&&◌, ◌||◌, Option,
  none, some, List, [], ◌∷◌, ◌++◌, arith, ltb, leb, ◌==◌, if◌then◌else◌, length,
}
use multi_threaded_tic_tac_t.Objects.{
  Ptr, null, Name, Score, win_score, draw_score, loss_score, Rating, initial, plus_first,
  plus_second, Player, InvitationState, inv_open_state, inv_accepted_state, inv_closed_state,
  Invitation, InvitationNode, Client, ClientRegistry, PlayerNode,
}
use multi_threaded_tic_tac_t.World.{
  WriteResult, written, broken_pipe, failed, Env, Mutex, player_lock, game_lock, inv_lock,
  client_lock, registry_lock, player_registry_lock, World, Outcome, done, crash, deadlock, M, pure,
  ◌>>=◌, ◌>>◌, update, lock, unlock, request, reach, load_player, load_game, load_inv, load_client,
  put_player, put_game, put_inv, put_client, new_address, get_registry, put_registry, get_players,
  put_players,
}
use multi_threaded_tic_tac_t.Invitation.{inv_ref, inv_unref}

-- `id_exists_in_client_invitation`
unfoldable pub id_exists : List InvitationNode → ℕ → Bool
id_exists [] id = false
id_exists (n ∷ ns) id = if n.id == id then true else id_exists ns id

-- The loop of `find_lowest_id_availalble` from `i` on.
unfoldable pub lowest_from : ℕ → List InvitationNode → ℕ → ℕ
lowest_from zero nodes i = i
lowest_from (suc fuel) nodes i = elim (id_exists nodes i) [
  | true ↦ lowest_from fuel nodes (suc i)
  | false ↦ i
]

-- The loop ends within one round more than there are nodes.
unfoldable pub find_lowest_id_available : List InvitationNode → ℕ
unfolding lowest_from id_exists
find_lowest_id_available nodes = lowest_from (suc (length nodes)) nodes 0

-- The first node with the identifier, and the first one with the invitation.
unfoldable pub find_by_id : List InvitationNode → ℕ → Option Ptr
find_by_id [] id = none
find_by_id (n ∷ ns) id = if n.id == id then some n.invitation else find_by_id ns id

unfoldable pub find_by_invitation : List InvitationNode → Ptr → Option ℕ
find_by_invitation [] inv = none
find_by_invitation (n ∷ ns) inv =
    if n.invitation == inv then some n.id else find_by_invitation ns inv

-- The list without the first node with the invitation.
unfoldable pub unlink : List InvitationNode → Ptr → List InvitationNode
unlink [] inv = []
unlink (n ∷ ns) inv = if n.invitation == inv then ns else n ∷ unlink ns inv

-- The id of the new node, or `none` for -1.
unfoldable pub client_add_invitation : Env → Ptr → Ptr → M (Option ℕ)
client_add_invitation env client inv = if (client == null) || (inv == null) then pure none else do
  lock (client_lock client)
  granted ← request env
  if not granted then (do unlock (client_lock client); pure none) else do
    k ← load_client client
    let id = find_lowest_id_available k.invitations
    let node : InvitationNode = record { invitation = inv; id = id }
    put_client client (some (record k { invitations = node ∷ k.invitations }))
    inv_ref inv
    unlock (client_lock client)
    pure (some id)

unfoldable pub client_remove_invitation : Ptr → Ptr → M (Option ℕ)
client_remove_invitation client inv = if (client == null) || (inv == null) then pure none else do
  lock (client_lock client)
  k ← load_client client
  elim (find_by_invitation k.invitations inv) [
    | none ↦ do unlock (client_lock client); pure none
    | some id ↦ do
      put_client client (some (record k { invitations = unlink k.invitations inv }))
      unlock (client_lock client)
      inv_unref inv
      pure (some id)
  ]
