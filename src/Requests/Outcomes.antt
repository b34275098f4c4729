-- ===== src/Requests/Outcomes.antt =====
-- What `client_revoke_invitation` and `client_decline_invitation` of src/client.c do.
use multi_threaded_tic_tac_t.Base.{
  ℕ, ◌≡◌, refl, ◌≢◌, ◌⊎◌, inl, inr, true, false, none, some, [], ◌∷◌, arith,
}
use multi_threaded_tic_tac_t.Objects.{Ptr, null, Invitation, Client}
use multi_threaded_tic_tac_t.Protocol.{htons, revoked_pkt, declined_pkt}
use multi_threaded_tic_tac_t.World.{
  Env, World, written, done, holds, without, same_mutex, lock, unlock, client_lock, load_client,
  load_inv, unlocked_world,
}
use multi_threaded_tic_tac_t.Client.{client_send_packet, make_packet}
use multi_threaded_tic_tac_t.Client.Sending.{
  AllWritten, packet_of, stamped, after_header, send_header,
}
use multi_threaded_tic_tac_t.Invitation.{inv_get_game, inv_get_source, inv_get_target}
use multi_threaded_tic_tac_t.ClientList.{find_by_id}
use multi_threaded_tic_tac_t.Requests.{
  id_packet, may_revoke, may_decline, withdraw, turn_down, client_revoke_invitation,
  client_decline_invitation,
}
use multi_threaded_tic_tac_t.Requests.Withdrawing.{
  Sides, Offered, Withdrawn, released, source_gone, target_gone, unlisted, gone, remove_source,
  remove_target, remove_source_last, remove_target_last,
}

module _ (env : Env) (ok : AllWritten env) (w : World) (inv : Ptr) (i : Invitation) (d : Sides)
    (p : Offered w inv i d) (id : ℕ) where
  abbrev revoked : World
  revoked =
      gone env w inv i d p
        (unlisted env w inv i d p i.recipient d.target (source_gone env w inv i d p))

  abbrev declined : World
  declined =
      gone env w inv i d p
        (unlisted env w inv i d p i.sender d.source (target_gone env w inv i d p))

  unheld : (c : Ptr) → holds (client_lock c) w.held ≡ false
  unfolding holds
  unheld c = rw p.free

  tells_target :
      client_send_packet env i.recipient (id_packet revoked_pkt d.target_id) none revoked
      ≡ done written (after_header env d.target.fd (id_packet revoked_pkt d.target_id) revoked)
  unfolding id_packet make_packet
  tells_target =
      send_header env ok revoked i.recipient (released inv d.target)
        (id_packet revoked_pkt d.target_id) p.target_ne (ground arith) (unheld i.recipient) refl

  sender_busy : holds (client_lock i.sender) (client_lock i.recipient ∷ []) ≡ false
  unfolding holds same_mutex
  sender_busy = ground (arith, p.apart)

  tells_source :
      client_send_packet env i.sender
        (id_packet declined_pkt d.source_id)
        none
        (record declined { held = client_lock i.recipient ∷ [] })
      ≡ done written (
          after_header env d.source.fd
            (id_packet declined_pkt d.source_id)
            (record declined { held = client_lock i.recipient ∷ [] }))
  unfolding id_packet make_packet
  tells_source =
      send_header env ok (record declined { held = client_lock i.recipient ∷ [] }) i.sender
        (released inv d.source) (id_packet declined_pkt d.source_id) p.source_ne
        (ground (arith, p.apart)) sender_busy refl

  withdraw_lem :
      withdraw env i.sender inv w
      ≡ done true (after_header env d.target.fd (id_packet revoked_pkt d.target_id) revoked)
  unfolding withdraw inv_get_target load_inv
  withdraw_lem = ground (
    arith,
    p.inv_ne,
    remove_source env w inv i d p,
    remove_target_last env w inv i d p,
    tells_target,
  )

  turn_down_lem :
      turn_down env i.recipient inv w
      ≡ done true (after_header env d.source.fd (id_packet declined_pkt d.source_id) declined)
  unfolding turn_down inv_get_source load_inv lock unlock holds without same_mutex
  turn_down_lem = ground (
    arith,
    p.free,
    p.inv_ne,
    remove_target env w inv i d p,
    remove_source_last env w inv i d p,
    tells_source,
  )

  revoke_step :
      find_by_id d.source.invitations id ≡ some inv
      → client_revoke_invitation env i.sender id w
        ≡ withdraw env i.sender inv (record w { held = [] })
  unfolding client_revoke_invitation may_revoke inv_get_game inv_get_source load_inv load_client
      lock unlock holds without same_mutex
  revoke_step listed = ground (arith, p.free, p.inv_ne, p.no_game, p.source_live, p.inv_live)

  -- Every write succeeds, and both clients list the invitation without a game (`Offered`), whatever
  -- its state is. The source revokes it: it is withdrawn as `Withdrawn` says, and the target gets
  -- REVOKED with the target's id for it.
  pub client_revoke_invitation_lem :
      find_by_id d.source.invitations id ≡ some inv
      → (v : World) × (client_revoke_invitation env i.sender id w ≡ done true v)
        × (v.sent
            ≡ (d.target.fd, stamped env w.writes (packet_of revoked_pkt d.target_id 0 (htons 0)))
              ∷ w.sent)
        × Withdrawn v inv i d
  unfolding id_packet make_packet
  client_revoke_invitation_lem listed = (
    after_header env d.target.fd (id_packet revoked_pkt d.target_id) revoked,
    rw (revoke_step listed, unlocked_world w p.free) withdraw_lem,
    refl,
    record {
      inv_freed = ground arith;
      source_left = ground (arith, p.apart);
      target_left = ground arith;
      unlocked = p.free;
    },
  )

  decline_step :
      find_by_id d.target.invitations id ≡ some inv
      → client_decline_invitation env i.recipient id w
        ≡ turn_down env i.recipient inv (record w { held = [] })
  unfolding client_decline_invitation may_decline inv_get_game inv_get_target load_inv load_client
      lock unlock holds without same_mutex
  decline_step listed = ground (arith, p.free, p.inv_ne, p.no_game, p.target_live, p.inv_live)

  -- Every write succeeds, and both clients list the invitation without a game (`Offered`), whatever
  -- its state is. The target declines it: it is withdrawn as `Withdrawn` says, and the source gets
  -- DECLINED with the source's id for it.
  pub client_decline_invitation_lem :
      find_by_id d.target.invitations id ≡ some inv
      → (v : World) × (client_decline_invitation env i.recipient id w ≡ done true v)
        × (v.sent
            ≡ (d.source.fd, stamped env w.writes (packet_of declined_pkt d.source_id 0 (htons 0)))
              ∷ w.sent)
        × Withdrawn v inv i d
  unfolding id_packet make_packet
  client_decline_invitation_lem listed = (
    after_header env d.source.fd (id_packet declined_pkt d.source_id) declined,
    rw (decline_step listed, unlocked_world w p.free) turn_down_lem,
    refl,
    record {
      inv_freed = ground arith;
      source_left = ground (arith, p.apart);
      target_left = ground arith;
      unlocked = p.free;
    },
  )

-- Why a request of `client` on the invitation with an id is refused: there is none, it has a game,
-- or the client is not the side that may make the request.
abbrev pub NotAllowed : World → Client → Ptr → (Invitation → Ptr) → ℕ → Type 0
NotAllowed w k client side id =
    (find_by_id k.invitations id ≡ none)
    ⊎ ((inv : Ptr) × (i : Invitation) × (find_by_id k.invitations id ≡ some inv)
        × (inv ≢ null)
        × (w.invs inv ≡ some i)
        × ((i.game ≢ null) ⊎ (side i ≢ client)))

module _ (env : Env) (w : World) (client : Ptr) (k : Client) (live : w.clients client ≡ some k)
    (free : w.held ≡ []) (id : ℕ) where
  refused_revoke :
      NotAllowed w k client (λ i. i.sender) id
      → client_revoke_invitation env client id w ≡ done false w
  unfolding client_revoke_invitation may_revoke inv_get_game inv_get_source load_inv load_client
      lock unlock holds without same_mutex
  refused_revoke (inl absent) = ground arith
  refused_revoke (inr (inv, i, listed, n, il, inl busy)) = ground arith
  refused_revoke (inr (inv, i, listed, n, il, inr foreign)) = ground arith

  refused_decline :
      NotAllowed w k client (λ i. i.recipient) id
      → client_decline_invitation env client id w ≡ done false w
  unfolding client_decline_invitation may_decline inv_get_game inv_get_target load_inv load_client
      lock unlock holds without same_mutex
  refused_decline (inl absent) = ground arith
  refused_decline (inr (inv, i, listed, n, il, inl busy)) = ground arith
  refused_decline (inr (inv, i, listed, n, il, inr foreign)) = ground arith

  -- A revocation by a client that is not the source, a declination by one that is not the target,
  -- and both where a game is in progress or the id is unknown, change nothing and send nothing.
  pub withdrawal_refused :
      (NotAllowed w k client (λ i. i.sender) id
        → client_revoke_invitation env client id w ≡ done false w)
      × (NotAllowed w k client (λ i. i.recipient) id
          → client_decline_invitation env client id w ≡ done false w)
  withdrawal_refused = (refused_revoke, refused_decline)
