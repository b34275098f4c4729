-- ===== src/Shutdown/OneClient.antt =====
-- What it is for one client to leave while nobody plays: src/client_registry.c, src/client.c and
-- src/player.c.
use multi_threaded_tic_tac_t.Base.{
  subst, sym, ap, ◌∙◌, ◌+◌, ◌*◌, ◌≡◌, refl, ap, ◌∙◌, inl, inr, true, false, none, some, List, ◌∷◌,
  arith, ◌==◌, length, ==_self, Bool-cases,
}
use multi_threaded_tic_tac_t.Objects.{Ptr, Player, Client}
use multi_threaded_tic_tac_t.World.{World, done, update}
use multi_threaded_tic_tac_t.ClientRegistry.{fd_in_list, is_listed, unlist}
use multi_threaded_tic_tac_t.Shutdown.Closing.{
  Leaving, Holding, anonymous, logged, after_client, departed,
}
use multi_threaded_tic_tac_t.Shutdown.Quiet.{
  uses, Quiet, AllQuiet, Closing, uses-update, Keeps, AllQuiet-update,
}
use multi_threaded_tic_tac_t.Shutdown.Listed.{
  uses-unlist, AllDifferent-unlist, AllQuiet-unlist, Quiet-at, fd_in_list-listed, registry_left,
}

-- What a client holds, by the counts.
holding :
    (w : World) (c : Ptr) (cs : List Ptr)
    → ((a : Ptr) (p : Player)
        → w.players a ≡ some p
        → p.ref_count ≡ 1 + 2 * uses w.clients (c ∷ cs) a)
    → (q : Quiet w.clients w.players c) → Holding w.players q.client
unfolding uses
holding w c cs h q = elim q.owner [
  | inl (out, nobody) ↦ anonymous out nobody
  | inr (is_in, somebody, (p, e)) ↦
      logged (2 * uses w.clients cs q.client.player) is_in somebody q.no_invitations e
        (ground (arith, h q.client.player p e, q.live, is_in, ==_self q.client.player))
]

after_client-Keeps :
    (w : World) (k : Client) (x : Holding w.players k)
    → Keeps w.players (after_client w.players k x)
unfolding after_client
after_client-Keeps w k (anonymous a b) = λ a p e. (p, e)
after_client-Keeps w k (logged {p = o} n a b c d e) = λ a p h. elim (Bool-cases (a == k.player)) [
  | inl same ↦ (record o { ref_count = n + 1 }, rw same refl)
  | inr other ↦ (p, rw other h)
]

-- The counts behind the step.
counts_left :
    (w : World) (c : Ptr) (cs : List Ptr) (k : Client)
    → (x : Holding w.players k) → w.clients c ≡ some k
    → is_listed cs c ≡ false
    → ((a : Ptr) (p : Player)
        → w.players a ≡ some p
        → p.ref_count ≡ 1 + 2 * uses w.clients (c ∷ cs) a)
    → (a : Ptr) (p : Player) → after_client w.players k x a ≡ some p
    → p.ref_count ≡ 1 + 2 * uses (update w.clients c none) cs a
unfolding after_client uses
counts_left w c cs k (anonymous out b) live fresh h a p e =
    ground (arith, h a p e, live, out, uses-update w.clients none cs c a fresh)
counts_left w c cs k (logged {p = o} n is_in b d there m) live fresh h a p e =
    elim (Bool-cases (a == k.player)) [
      | inl same ↦ ground (
        arith,
        h k.player o there,
        live,
        is_in,
        ==_self k.player,
        uses-update w.clients none cs c a fresh,
      )
      | inr other ↦ ground (arith, h a p, live, is_in, uses-update w.clients none cs c a fresh)
    ]

-- A client that is listed can leave, and what it leaves behind is accounted for.
pub close_at :
    (w : World) (c : Ptr) (cs : List Ptr)
    → Closing w cs
    → is_listed cs c ≡ true
    → (k : Client) × (x : Holding w.players k) × Leaving w c k
      × Keeps w.players (after_client w.players k x)
      × Closing (departed w c k x) (unlist cs c)
close_at w c cs h e =
    let q = Quiet-at w.clients w.players cs c h.quiet e in
    let (distinct, fresh) = AllDifferent-unlist cs c h.different in
    let k = q.client in
    let listed : is_listed w.client_registry.head c ≡ true = rw h.listed e in
    let counted : w.client_registry.client_count ≡ length w.client_registry.head =
      h.counted ∙ ap length (sym h.listed) in
    let refs : (a : Ptr) (p : Player)
        → w.players a ≡ some p
        → p.ref_count ≡ 1 + 2 * uses w.clients (c ∷ unlist cs c) a =
      λ a p there. h.references a p there ∙ ap (λ n. 1 + 2 * n) (uses-unlist w.clients cs c a e) in
    let x = holding w c (unlist cs c) refs q in
    let keeps = after_client-Keeps w k x in
    let (left, fewer) = registry_left w.client_registry c listed counted in
    (
      k,
      x,
      record {
        client_ne = q.client_ne;
        live = q.live;
        single = q.single;
        found = λ v same.
            subst (λ l. fd_in_list l k.fd v ≡ done true v) (sym h.listed)
              (fd_in_list-listed v w.players cs c k
                (subst (λ f. AllQuiet f w.players cs) (sym same) h.quiet) e (rw same q.live));
        free = h.free;
      },
      keeps,
      record {
        listed = left ∙ ap (λ l. unlist l c) h.listed;
        counted = fewer ∙ ap (λ l. length (unlist l c)) h.listed;
        free = h.free;
        quiet =
            AllQuiet-update w.clients w.players (after_client w.players k x) c (unlist cs c) keeps
              fresh (AllQuiet-unlist w.clients w.players cs c h.quiet);
        different = distinct;
        references = counts_left w c (unlist cs c) k x q.live fresh refs;
      },
    )
