-- ===== src/Waiting/Starving.antt =====
-- Two threads in `creg_wait_for_empty` of src/client_registry.c.
use multi_threaded_tic_tac_t.Base.{
  ℕ, suc, ◌+◌, ◌≡◌, refl, true, false, List, [], ◌∷◌, length, arith, ==_self, subst,
}
use multi_threaded_tic_tac_t.Objects.{Ptr}
use multi_threaded_tic_tac_t.ClientRegistry.{
  insert_client, is_listed, unlist, remove_client, signal_empty, raise_flag, check_empty, pass,
}
use multi_threaded_tic_tac_t.Waiting.{
  Pc, outside, flagged, waiting, returned, System, move_pc, Step, insert, remove, signal, raise,
  check, enter, init, Reach, start, later,
}

-- The flag is up, and no thread is about to signal.
abbrev with_flag : List Ptr → (ℕ → Pc) → ℕ → System
with_flag cs pc m = record {
  registry = record { P_flag = true; head = cs; client_count = length cs; semaphore = m };
  leaving = false;
  pc = pc;
}

abbrev signalled : List Ptr → ℕ → ℕ
signalled [] m = m + 1
signalled (c ∷ cs) m = m

removed_lem :
    (c : Ptr) (cs : List Ptr) (m : ℕ)
    → signal_empty (
        remove_client
          (record { P_flag = true; head = c ∷ cs; client_count = suc (length cs); semaphore = m })
          c)
      ≡ record { P_flag = true; head = cs; client_count = length cs; semaphore = signalled cs m }
unfolding is_listed unlist remove_client signal_empty
removed_lem c [] m = ground (arith, ==_self c)
removed_lem c (d ∷ cs) m = ground (arith, ==_self c)

leave_first :
    {n : ℕ} {ds : List Ptr} (c : Ptr) (cs : List Ptr) (pc : ℕ → Pc) (m : ℕ)
    → Reach n ds (with_flag (c ∷ cs) pc m)
    → Reach n ds (with_flag cs pc (signalled cs m))
unfolding is_listed
leave_first {n} {ds} c cs pc m r =
    let behind = later (later r (remove c refl (rw (==_self c) refl))) (signal refl) in
    subst (λ q. Reach n ds (record { registry = q; leaving = false; pc = pc })) (removed_lem c cs m)
      behind

leave_each :
    {n : ℕ} {ds : List Ptr} (c : Ptr) (cs : List Ptr) (pc : ℕ → Pc) (m : ℕ)
    → Reach n ds (with_flag (c ∷ cs) pc m)
    → Reach n ds (with_flag [] pc (m + 1))
leave_each c [] pc m r = leave_first c [] pc m r
leave_each c (d ∷ cs) pc m r = leave_each d cs pc m (leave_first c (d ∷ cs) pc m r)

-- Two threads that have raised the flag and tested the count while a client is registered.
abbrev both_waiting : ℕ → Pc
both_waiting =
    move_pc (move_pc (move_pc (move_pc (λ i. outside) 0 flagged) 0 waiting) 1 flagged) 1 waiting

not_yet_empty :
    (c : Ptr) (cs : List Ptr)
    → check_empty (raise_flag (check_empty (raise_flag (init (c ∷ cs)).registry)))
      ≡ (with_flag (c ∷ cs) both_waiting 0).registry
unfolding raise_flag check_empty
not_yet_empty c cs = ground arith

both_wait : (c : Ptr) (cs : List Ptr) → Reach 2 (c ∷ cs) (with_flag (c ∷ cs) both_waiting 0)
unfolding move_pc
both_wait c cs =
    let zeroth = later (later start (raise 0 (omega arith) refl)) (check 0 (omega arith) refl) in
    let first = later (later zeroth (raise 1 (omega arith) refl)) (check 1 (omega arith) refl) in
    subst (λ q. Reach 2 (c ∷ cs) (record { registry = q; leaving = false; pc = both_waiting }))
      (not_yet_empty c cs) first

-- What is left when one of them has used the only signal.
abbrev starved : System
starved = with_flag [] (move_pc both_waiting 0 returned) 0

starved_reached : (c : Ptr) (cs : List Ptr) → Reach 2 (c ∷ cs) starved
unfolding pass move_pc
starved_reached c cs =
    later (leave_each c cs both_waiting 0 (both_wait c cs)) (enter 0 (omega arith) refl refl)

starved_steps : (t : System) → Step 2 starved t → t.registry.client_count ≡ 1
unfolding insert_client is_listed pass move_pc
starved_steps t (insert c a b) = refl
starved_steps t (remove c a b) = ground arith
starved_steps t (signal a) = ground arith
starved_steps t (raise i lt e) = ground arith
starved_steps t (check i lt e) = ground arith
starved_steps t (enter i lt e p) = ground arith

-- From any clients at all, two threads that wait can come to this: all clients have left, one of
-- the two has returned, and the other is still at the semaphore; all that can happen next is that
-- a new client is registered.
pub second_waiter_starves :
    (c : Ptr) (cs : List Ptr)
    → (s : System) × Reach 2 (c ∷ cs) s
      × (s.registry.client_count ≡ 0)
      × (s.pc 0 ≡ returned)
      × (s.pc 1 ≡ waiting)
      × ((t : System) → Step 2 s t → t.registry.client_count ≡ 1)
unfolding move_pc
second_waiter_starves c cs = (starved, starved_reached c cs, refl, refl, refl, starved_steps)
