-- ===== src/ClientRegistry/Counting.antt =====
-- What src/client_registry.c promises: the count of the clients, its bound, and its mutex.
use multi_threaded_tic_tac_t.Base.{
  ℕ, ◌+◌, ◌≤◌, ◌<◌, ◌≡◌, refl, ◌≢◌, ◌⊎◌, inl, inr, Bool, true, false, some, List, [], ◌∷◌, arith,
  ◌==◌, length, Bool-cases, Option-cases,
}
use multi_threaded_tic_tac_t.Objects.{Ptr, null, Client, ClientRegistry}
use multi_threaded_tic_tac_t.World.{
  Env, World, Outcome, done, crash, deadlock, holds, same_mutex, lock, unlock, registry_lock,
  request, load_client, load_player, ◌>>=◌, ◌>>◌, pure, get_registry, put_registry, and_then,
}
use multi_threaded_tic_tac_t.Client.{client_create, client_unref, client_get_fd}
use multi_threaded_tic_tac_t.Player.{player_unref}
use multi_threaded_tic_tac_t.ClientRegistry.{
  max_clients, fd_in_list, insert_client, is_listed, unlist, remove_client, creg_register,
  signal_empty, creg_unregister,
}

-- The count is the length of the list, and at most the maximum.
pub record Counted (cr : ClientRegistry) : Type 0 where
  pub counts : cr.client_count ≡ length cr.head
  pub bounded : cr.client_count ≤ max_clients

fd_in_list_keeps :
    (cs : List Ptr) (fd : ℕ) (w : World)
    → (fd_in_list cs fd w ≡ crash) ⊎ ((b : Bool) × (fd_in_list cs fd w ≡ done b w))
unfolding fd_in_list client_get_fd load_client
fd_in_list_keeps [] fd w = inr (false, refl)
fd_in_list_keeps (c ∷ cs) fd w = elim (Option-cases (w.clients c)) [
  | inl gone ↦ inl (rw gone refl)
  | inr (k, live) ↦ elim (Bool-cases (k.fd == fd)) [
    | inl same ↦ inr (true, rw (live, same) refl)
    | inr other ↦ elim (fd_in_list_keeps cs fd w) [
      | inl broken ↦ inl (rw (live, other) broken)
      | inr (b, found) ↦ inr (b, rw (live, other) found)
    ]
  ]
]

pub length-unlist :
    (cs : List Ptr) (c : Ptr) → is_listed cs c ≡ true → length cs ≡ length (unlist cs c) + 1
unfolding is_listed unlist
length-unlist [] c h = ground arith
length-unlist (d ∷ cs) c h = ground (arith, length-unlist cs c)

remove_client-Counted : (cr : ClientRegistry) (c : Ptr) → Counted cr → Counted (remove_client cr c)
unfolding remove_client
remove_client-Counted cr c h = ground (arith, length-unlist cr.head c)

insert_client-Counted :
    (cr : ClientRegistry) (c : Ptr)
    → Counted cr
    → cr.client_count < max_clients
    → Counted (insert_client cr c)
unfolding insert_client
insert_client-Counted cr c h lt = ground arith

signal_empty-Counted : (cr : ClientRegistry) → Counted cr → Counted (signal_empty cr)
unfolding signal_empty
signal_empty-Counted cr h = ground arith

client_unref_keeps :
    (c : Ptr) (w v : World) → client_unref c w ≡ done tt v → v.client_registry ≡ w.client_registry
unfolding client_unref load_client lock unlock player_unref load_player
client_unref_keeps c w v e = ground arith

-- A registration, granted or refused, keeps the count equal to the number of clients and at most
-- the maximum.
pub creg_register-Counted :
    (env : Env) (fd : ℕ) (p : Ptr) (w v : World)
    → Counted w.client_registry
    → creg_register env fd w ≡ done p v
    → Counted v.client_registry
unfolding creg_register client_create request lock unlock
creg_register-Counted env fd p w v h e =
    let taken = record w { held = registry_lock ∷ w.held } in
    elim (fd_in_list_keeps w.client_registry.head fd taken) [
      | inl broken ↦ ground (arith, broken)
      | inr (b, found) ↦ ground (arith, found, insert_client-Counted w.client_registry p h)
    ]

-- The end of `creg_unregister`.
abbrev ending : Outcome (Unit {0}) → Outcome Bool
ending o = and_then o (λ _. do
  after ← get_registry
  put_registry (signal_empty after)
  unlock registry_lock
  pure true)

ending_signals :
    (o : Outcome (Unit {0})) (b : Bool) (v : World)
    → ending o ≡ done b v
    → (x : World) × (o ≡ done tt x) × (v.client_registry ≡ signal_empty x.client_registry)
unfolding unlock
ending_signals (done tt x) b v e = (x, refl, ground arith)
ending_signals crash b v e = ground arith
ending_signals deadlock b v e = ground arith

-- Where a client leaves, its registry is the one without it.
unregister_removes :
    (c : Ptr) (b : Bool) (w v : World)
    → creg_unregister c w ≡ done b v
    → (v.client_registry ≡ w.client_registry)
      ⊎ (v.client_registry ≡ signal_empty (remove_client w.client_registry c))
unfolding creg_unregister client_get_fd load_client lock
unregister_removes c b w v e =
    let taken = record w { held = registry_lock ∷ w.held } in
    let removed = record taken { client_registry = remove_client w.client_registry c } in
    elim (Option-cases (w.clients c)) [
      | inl gone ↦ ground (arith, gone)
      | inr (k, live) ↦ elim (fd_in_list_keeps w.client_registry.head k.fd taken) [
        | inl broken ↦ ground (arith, live, broken)
        | inr (false, found) ↦ ground (arith, live, found)
        | inr (true, found) ↦ elim (Bool-cases (c == null)) [
          | inl nothing ↦ ground (arith, nothing)
          | inr somewhere ↦
              let ended : ending (client_unref c removed) ≡ done b v =
                ground (arith, live, found, somewhere) in
              let (x, given_up, signalled) = ending_signals (client_unref c removed) b v ended in
              inr (rw (signalled, client_unref_keeps c removed x given_up) refl)
        ]
      ]
    ]

-- So does a client that leaves, or that is refused.
pub creg_unregister-Counted :
    (c : Ptr) (b : Bool) (w v : World)
    → Counted w.client_registry
    → creg_unregister c w ≡ done b v
    → Counted v.client_registry
creg_unregister-Counted c b w v h e = elim (unregister_removes c b w v e) [
  | inl same ↦ rw same h
  | inr removed ↦ rw removed (
      signal_empty-Counted (remove_client w.client_registry c)
        (remove_client-Counted w.client_registry c h))
]

-- A client that is not registered: the answer is the failure, the mutex stays locked, and the next
-- registration waits for ever.
pub unregistered_blocks :
    (env : Env) (fd : ℕ) (c : Ptr) (k : Client) (w : World)
    → w.held ≡ []
    → c ≢ null
    → w.clients c ≡ some k
    → fd_in_list w.client_registry.head k.fd (record w { held = registry_lock ∷ [] })
      ≡ done false (record w { held = registry_lock ∷ [] })
    → (v : World) × (creg_unregister c w ≡ done false v) × (creg_register env fd v ≡ deadlock)
unfolding creg_register creg_unregister client_get_fd load_client lock holds same_mutex
unregistered_blocks env fd c k w free n live absent =
    (record w { held = registry_lock ∷ [] }, ground arith, ground arith)
