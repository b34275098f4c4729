-- ===== src/ClientList/Update.antt =====
-- Adding an invitation to a client's list and removing it, src/client.c, over the shared memory.
use multi_threaded_tic_tac_t.Base.{ℕ, ◌+◌, ◌≡◌, ◌≢◌, true, some, [], ◌∷◌, arith}
use multi_threaded_tic_tac_t.Objects.{Ptr, null, InvitationNode, Invitation, Client}
use multi_threaded_tic_tac_t.World.{
  Env, World, done, holds, without, same_mutex, lock, unlock, update, request, load_client,
  load_inv, and_then, pure,
}
use multi_threaded_tic_tac_t.Invitation.{inv_ref, inv_unref}
use multi_threaded_tic_tac_t.ClientList.{
  find_lowest_id_available, find_by_invitation, unlink, client_add_invitation,
  client_remove_invitation,
}

pub add_granted :
    (env : Env) (w : World) (c i : Ptr) (k : Client) (inv : Invitation)
    → c ≢ null
    → i ≢ null
    → w.held ≡ []
    → w.clients c ≡ some k
    → w.invs i ≡ some inv
    → env.allocate w.requests ≡ true
    → let id = find_lowest_id_available k.invitations in
      let node : InvitationNode = record { invitation = i; id = id } in
      client_add_invitation env c i w
      ≡ done (some id) (record w {
        clients = update w.clients c (some (record k { invitations = node ∷ k.invitations }));
        invs = update w.invs i (some (record inv { ref_count = inv.ref_count + 1 }));
        requests = w.requests + 1;
      })
unfolding client_add_invitation inv_ref lock unlock request load_client load_inv holds without
    same_mutex
add_granted env w c i k inv n m hd kc ki al = ground arith

-- The client without the invitation.
abbrev pub leaves : Client → Ptr → Client
leaves k inv = record k { invitations = unlink k.invitations inv }

-- Removing a listed invitation gives up the reference of the list.
pub remove_listed :
    (w : World) (c inv : Ptr) (k : Client) (id : ℕ)
    → c ≢ null
    → inv ≢ null
    → w.clients c ≡ some k
    → find_by_invitation k.invitations inv ≡ some id
    → w.held ≡ []
    → client_remove_invitation c inv w
      ≡ and_then
          (inv_unref inv (record w { clients = update w.clients c (some (leaves k inv)) }))
          (λ _. pure (some id))
unfolding client_remove_invitation load_client lock unlock holds without same_mutex
remove_listed w c inv k id n m live l f = ground arith
