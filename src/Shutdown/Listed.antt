-- ===== src/Shutdown/Listed.antt =====
-- Clients in the list of src/client_registry.c while nobody plays, and the list without one.
use multi_threaded_tic_tac_t.Base.{
  Bool, subst, ℕ, ◌≡◌, refl, inl, inr, true, false, Option, some, List, [], ◌∷◌, arith, ◌==◌,
  length, ==_self, Bool-cases,
}
use multi_threaded_tic_tac_t.Objects.{Ptr, Player, Client, ClientRegistry}
use multi_threaded_tic_tac_t.World.{World, done, load_client}
use multi_threaded_tic_tac_t.ClientRegistry.{
  fd_in_list, is_listed, unlist, remove_client, signal_empty,
}
use multi_threaded_tic_tac_t.ClientRegistry.Counting.{length-unlist}
use multi_threaded_tic_tac_t.Client.{client_get_fd}
use multi_threaded_tic_tac_t.Shutdown.Quiet.{uses, Quiet, AllQuiet, AllDifferent}

pub uses-unlist :
    (clients : Ptr → Option Client) (cs : List Ptr) (c a : Ptr)
    → is_listed cs c ≡ true
    → uses clients cs a ≡ uses clients (c ∷ unlist cs c) a
unfolding uses is_listed unlist
uses-unlist clients [] c a h = ground arith
uses-unlist clients (d ∷ cs) c a h = ground (arith, uses-unlist clients cs c a)

pub is_listed-unlist :
    (cs : List Ptr) (c d : Ptr) → is_listed cs d ≡ false → is_listed (unlist cs c) d ≡ false
unfolding is_listed unlist
is_listed-unlist [] c d h = refl
is_listed-unlist (e ∷ cs) c d h = ground (arith, is_listed-unlist cs c d)

pub AllDifferent-unlist :
    (cs : List Ptr) (c : Ptr)
    → AllDifferent cs
    → AllDifferent (unlist cs c) × (is_listed (unlist cs c) c ≡ false)
unfolding is_listed unlist
AllDifferent-unlist [] c h = (tt, refl)
AllDifferent-unlist (d ∷ cs) c (fresh, rest) = elim (Bool-cases (d == c)) [
  | inl same ↦ rw same (rest, ground (arith, fresh))
  | inr other ↦
      let (others, absent) = AllDifferent-unlist cs c rest in
      rw other ((is_listed-unlist cs c d fresh, others), rw other absent)
]

pub AllQuiet-unlist :
    (clients : Ptr → Option Client) (players : Ptr → Option Player) (cs : List Ptr) (c : Ptr)
    → AllQuiet clients players cs
    → AllQuiet clients players (unlist cs c)
unfolding unlist
AllQuiet-unlist clients players [] c h = tt
AllQuiet-unlist clients players (d ∷ cs) c (q, rest) = elim (Bool-cases (d == c)) [
  | inl same ↦ rw same rest
  | inr other ↦ rw other (q, AllQuiet-unlist clients players cs c rest)
]

pub Quiet-at :
    (clients : Ptr → Option Client) (players : Ptr → Option Player) (cs : List Ptr) (c : Ptr)
    → AllQuiet clients players cs
    → is_listed cs c ≡ true
    → Quiet clients players c
unfolding is_listed
Quiet-at clients players [] c h e = ground arith
Quiet-at clients players (d ∷ cs) c (q, rest) e = elim (Bool-cases (d == c)) [
  | inl same ↦ subst (Quiet clients players) (ground (arith, same)) q
  | inr other ↦ Quiet-at clients players cs c rest (ground arith)
]

-- The descriptor of a listed client is found.
pub fd_in_list-listed :
    (v : World) (players : Ptr → Option Player) (cs : List Ptr) (c : Ptr) (k : Client)
    → AllQuiet v.clients players cs
    → is_listed cs c ≡ true
    → v.clients c ≡ some k
    → fd_in_list cs k.fd v ≡ done true v
unfolding is_listed fd_in_list client_get_fd load_client
fd_in_list-listed v players [] c k h e live = ground arith
fd_in_list-listed v players (d ∷ cs) c k (q, rest) e live = elim (Bool-cases (d == c)) [
  | inl same ↦ ground (arith, live, same, ==_self k.fd)
  | inr other ↦ ground (arith, q.live, fd_in_list-listed v players cs c k rest (ground arith) live)
]

pub registry_left :
    (cr : ClientRegistry) (c : Ptr)
    → is_listed cr.head c ≡ true
    → cr.client_count ≡ length cr.head
    → ((signal_empty (remove_client cr c)).head ≡ unlist cr.head c)
      × ((signal_empty (remove_client cr c)).client_count ≡ length (unlist cr.head c))
unfolding remove_client signal_empty
registry_left cr c h e = (ground arith, ground (arith, length-unlist cr.head c h))

-- Whether a descriptor is in use can be told.
pub fd_in_list-told :
    (v : World) (players : Ptr → Option Player) (cs : List Ptr) (fd : ℕ)
    → AllQuiet v.clients players cs
    → (b : Bool) × (fd_in_list cs fd v ≡ done b v)
unfolding fd_in_list client_get_fd load_client
fd_in_list-told v players [] fd h = (false, refl)
fd_in_list-told v players (d ∷ cs) fd (q, rest) = elim (Bool-cases (q.client.fd == fd)) [
  | inl same ↦ (true, rw (q.live, same) refl)
  | inr other ↦ let (b, e) = fd_in_list-told v players cs fd rest in (b, rw (q.live, other) e)
]
