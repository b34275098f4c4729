-- ===== src/Waiting/Waking.antt =====
-- What `creg_wait_for_empty` of src/client_registry.c gives the threads that call it.
use multi_threaded_tic_tac_t.Base.{
  ℕ, ◌-◌, ◌≡◌, refl, ◌≢◌, ◌⊎◌, inl, inr, true, false, List, ◌==◌, arith, Bool-cases, ◌&&◌,
}
use multi_threaded_tic_tac_t.Objects.{Ptr}
use multi_threaded_tic_tac_t.ClientRegistry.{
  insert_client, remove_client, signal_empty, raise_flag, check_empty, pass,
}
use multi_threaded_tic_tac_t.Waiting.{
  flagged, waiting, returned, System, move_pc, Step, insert, remove, signal, raise, check, enter,
  Reach, start, later,
}

-- A thread in the call has raised the flag.
record Flagged (s : System) : Type 0 where
  behind_flag : (i : ℕ) → s.pc i ≡ flagged → s.registry.P_flag ≡ true
  behind_test : (i : ℕ) → s.pc i ≡ waiting → s.registry.P_flag ≡ true

Step-Flagged : {n : ℕ} {s t : System} → Flagged s → Step n s t → Flagged t
unfolding insert_client remove_client signal_empty raise_flag check_empty pass move_pc
Step-Flagged h (insert c a b) = record {
  behind_flag = λ i e. h.behind_flag i e;
  behind_test = λ i e. h.behind_test i e;
}
Step-Flagged {n} {s} h (remove c a b) = record {
  behind_flag = λ i e. ground (arith, h.behind_flag i e);
  behind_test = λ i e. ground (arith, h.behind_test i e);
}
Step-Flagged {n} {s} h (signal a) = record {
  behind_flag = λ i e. ground (arith, h.behind_flag i e);
  behind_test = λ i e. ground (arith, h.behind_test i e);
}
Step-Flagged {n} {s} h (raise j lt e) = record {
  behind_flag = λ i f. refl;
  behind_test = λ i f. refl;
}
Step-Flagged {n} {s} h (check j lt e) = record {
  behind_flag = λ i f. ground (arith, h.behind_flag i, h.behind_flag j e);
  behind_test = λ i f. ground (arith, h.behind_test i, h.behind_flag j e);
}
Step-Flagged {n} {s} h (enter j lt e p) = record {
  behind_flag = λ i f. ground (arith, h.behind_flag i);
  behind_test = λ i f. ground (arith, h.behind_test i);
}

Reach-Flagged : {n : ℕ} {cs : List Ptr} {s : System} → Reach n cs s → Flagged s
Reach-Flagged start = record {
  behind_flag = λ i e. ground arith;
  behind_test = λ i e. ground arith;
}
Reach-Flagged (later r x) = Step-Flagged (Reach-Flagged r) x

-- The only thread that waits is awake once nobody is registered.
Awake : System → Type 0
Awake s =
    s.pc 0 ≡ waiting → s.leaving ≡ false → s.registry.client_count ≡ 0 → s.registry.semaphore ≢ 0

Step-Awake : {s t : System} → Flagged s → Awake s → Step 1 s t → Awake t
unfolding insert_client remove_client signal_empty raise_flag check_empty pass move_pc Awake
Step-Awake {s} h k (insert c a b) = λ w l z. ground arith
Step-Awake {s} h k (remove c a b) = λ w l z. ground arith
Step-Awake {s} h k (signal a) = λ w l z. ground (arith, h.behind_test 0 w)
Step-Awake {s} h k (raise j lt e) = λ w l z. ground arith
Step-Awake {s} h k (check j lt e) = λ w l z. ground arith
Step-Awake {s} h k (enter j lt e p) = λ w l z. ground arith

Reach-Awake : {cs : List Ptr} {s : System} → Reach 1 cs s → Awake s
unfolding Awake
Reach-Awake start = λ w l z. ground arith
Reach-Awake (later r x) = Step-Awake (Reach-Flagged r) (Reach-Awake r) x

-- With one thread that waits: in whatever order the threads run, where no client is registered
-- and no thread is about to signal, `P` lets it pass.
pub no_lost_wakeup :
    (cs : List Ptr) (s : System)
    → Reach 1 cs s
    → s.pc 0 ≡ waiting
    → s.leaving ≡ false
    → s.registry.client_count ≡ 0
    → (t : System) × Step 1 s t × (t.pc 0 ≡ returned)
unfolding pass move_pc Awake
no_lost_wakeup cs s r w l z =
    let q = record (s.registry) { semaphore = s.registry.semaphore - 1 } in
    (
      record s { registry = q; pc = move_pc s.pc 0 returned },
      enter 0 (omega arith) w (ground (arith, Reach-Awake r w l z)),
      refl,
    )

-- The run passed through a state in which nobody was registered and the flag was up.
abbrev pub Once : {n : ℕ} {cs : List Ptr} {s : System} → Reach n cs s → Type 0
Once start = ⊥
Once (later {s} {t} r x) = ((t.registry.client_count ≡ 0) × (t.registry.P_flag ≡ true)) ⊎ Once r

-- A thread that has returned, or that may pass, had such a state behind it.
record Earned (s : System) (P : Type 0) : Type 0 where
  behind_return : (i : ℕ) → s.pc i ≡ returned → P
  behind_semaphore : s.registry.semaphore ≢ 0 → P

Earned-map : {s : System} {P Q : Type 0} → (P → Q) → Earned s P → Earned s Q
Earned-map f k = record {
  behind_return = λ i e. f (k.behind_return i e);
  behind_semaphore = λ e. f (k.behind_semaphore e);
}

abbrev IsEmptied : System → Type 0
IsEmptied s = (s.registry.client_count ≡ 0) × (s.registry.P_flag ≡ true)

signal-Earned :
    {s : System} {P : Type 0}
    → Flagged s
    → Earned s P
    → let t = record s { registry = signal_empty s.registry; leaving = false } in
      Earned t (IsEmptied t ⊎ P)
unfolding signal_empty
signal-Earned {s} h k = record {
  behind_return = λ i e. inr (k.behind_return i e);
  behind_semaphore = λ e. elim (Bool-cases (s.registry.client_count == 0 && s.registry.P_flag)) [
    | inl both ↦ inl (ground arith, ground arith)
    | inr other ↦ inr (k.behind_semaphore (ground arith))
  ];
}

check-Earned :
    {s : System} {P : Type 0} (j : ℕ)
    → Flagged s
    → Earned s P
    → s.pc j ≡ flagged
    → let t = record s { registry = check_empty s.registry; pc = move_pc s.pc j waiting } in
      Earned t (IsEmptied t ⊎ P)
unfolding check_empty move_pc
check-Earned {s} j h k e = record {
  behind_return = λ i f. inr (k.behind_return i (ground arith));
  behind_semaphore = λ f. elim (Bool-cases (s.registry.client_count == 0)) [
    | inl zero_count ↦ inl (ground arith, ground (arith, h.behind_flag j e))
    | inr other ↦ inr (k.behind_semaphore (ground arith))
  ];
}

Step-Earned :
    {n : ℕ} {s t : System} {P : Type 0}
    → Flagged s
    → Earned s P
    → Step n s t
    → Earned t (IsEmptied t ⊎ P)
unfolding insert_client remove_client raise_flag pass move_pc
Step-Earned {n} {s} h k (insert c a b) =
    Earned-map inr
      (record { behind_return = k.behind_return; behind_semaphore = k.behind_semaphore })
Step-Earned {n} {s} h k (remove c a b) = Earned-map inr (record {
  behind_return = k.behind_return;
  behind_semaphore = λ e. k.behind_semaphore (ground arith);
})
Step-Earned {n} {s} h k (signal a) = signal-Earned h k
Step-Earned {n} {s} h k (raise j lt x) = Earned-map inr (record {
  behind_return = λ i e. k.behind_return i (ground arith);
  behind_semaphore = k.behind_semaphore;
})
Step-Earned {n} {s} h k (check j lt x) = check-Earned j h k x
Step-Earned {n} {s} h k (enter j lt x p) = Earned-map inr (record {
  behind_return = λ i e. k.behind_semaphore (ground arith);
  behind_semaphore = λ e. k.behind_semaphore (ground arith);
})

Reach-Earned : {n : ℕ} {cs : List Ptr} {s : System} (r : Reach n cs s) → Earned s (Once r)
Reach-Earned start = record {
  behind_return = λ i e. ground arith;
  behind_semaphore = λ e. ground arith;
}
Reach-Earned (later r x) = Step-Earned (Reach-Flagged r) (Reach-Earned r) x

-- Whatever the number of the threads that wait: none of them returns before a state in which no
-- client was registered, behind the moment when the flag was raised.
pub returned-Once :
    {n : ℕ} {cs : List Ptr} {s : System} (r : Reach n cs s) (i : ℕ) → s.pc i ≡ returned → Once r
returned-Once r i e = (Reach-Earned r).behind_return i e
