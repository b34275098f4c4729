-- ===== src/ClientRegistry/Runs.antt =====
-- Sequences of registrations in src/client_registry.c, from the start of the server on.
use multi_threaded_tic_tac_t.Base.{ℕ, ◌≡◌, refl, true, List, [], ◌∷◌, arith}
use multi_threaded_tic_tac_t.Objects.{Ptr}
use multi_threaded_tic_tac_t.World.{
  Env, World, Outcome, done, crash, deadlock, M, pure, ◌>>◌, and_then, request,
}
use multi_threaded_tic_tac_t.ClientRegistry.{creg_init, creg_register, creg_unregister}
use multi_threaded_tic_tac_t.ClientRegistry.Counting.{
  Counted, creg_register-Counted, creg_unregister-Counted,
}

pub data Operation : Type 0 where
  register : ℕ → Operation
  unregister : Ptr → Operation

unfoldable pub run : Env → List Operation → M (Unit {0})
run env [] = pure tt
run env (register fd ∷ ops) = do creg_register env fd; run env ops
run env (unregister c ∷ ops) = do creg_unregister c; run env ops

creg_init-Counted :
    (env : Env) (w v : World) → creg_init env w ≡ done true v → Counted v.client_registry
unfolding creg_init request
creg_init-Counted env w v e = record { counts = ground arith; bounded = ground arith }

-- Where a part of a run returns, so does what comes first in it.
first_returns :
    {A : Type 0} (o : Outcome A) (rest : M (Unit {0})) (v : World)
    → and_then o (λ a. rest) ≡ done tt v
    → (a : A) × (u : World) × (o ≡ done a u) × (rest u ≡ done tt v)
first_returns (done a u) rest v e = (a, u, refl, e)
first_returns crash rest v e = ground arith
first_returns deadlock rest v e = ground arith

run-Counted :
    (env : Env) (ops : List Operation) (w v : World)
    → Counted w.client_registry
    → run env ops w ≡ done tt v
    → Counted v.client_registry
unfolding run
run-Counted env [] w v h e = ground (arith, e)
run-Counted env (register fd ∷ ops) w v h e =
    let (p, u, one, rest) = first_returns (creg_register env fd w) (run env ops) v e in
    run-Counted env ops u v (creg_register-Counted env fd p w u h one) rest
run-Counted env (unregister c ∷ ops) w v h e =
    let (b, u, one, rest) = first_returns (creg_unregister c w) (run env ops) v e in
    run-Counted env ops u v (creg_unregister-Counted c b w u h one) rest

-- From `creg_init` on, whatever clients are registered and unregistered, granted or refused, in
-- whatever order: behind a run that returns, the count is the number of the clients in the list,
-- and at most the maximum.
pub started-Counted :
    (env : Env) (ops : List Operation) (w s v : World)
    → creg_init env w ≡ done true s
    → run env ops s ≡ done tt v
    → Counted v.client_registry
started-Counted env ops w s v created e =
    run-Counted env ops s v (creg_init-Counted env w s created) e
