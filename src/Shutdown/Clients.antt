-- ===== src/Shutdown/Clients.antt =====
-- `creg_shutdown_all` of src/client_registry.c over all clients, where nobody plays.
use multi_threaded_tic_tac_t.Base.{
  ℕ, ◌≡◌, refl, ap, ◌∙◌, subst, inl, inr, true, false, Option, none, some, List, [], ◌∷◌, arith,
  ◌==◌, ==_self, Bool-cases,
}
use multi_threaded_tic_tac_t.Objects.{Ptr, Client}
use multi_threaded_tic_tac_t.World.{Env, World, done, update}
use multi_threaded_tic_tac_t.ClientRegistry.{is_listed, unlist}
use multi_threaded_tic_tac_t.Shutdown.{shut_client, shut_clients}
use multi_threaded_tic_tac_t.Shutdown.Closing.{departed, shut_client_lem}
use multi_threaded_tic_tac_t.Shutdown.Quiet.{Keeps, Closing}
use multi_threaded_tic_tac_t.Shutdown.OneClient.{close_at}

-- The descriptors of the clients, in front of others.
abbrev pub with_fd : Option Client → List ℕ → List ℕ
with_fd none fds = fds
with_fd (some k) fds = k.fd ∷ fds

unfoldable pub with_fds : (Ptr → Option Client) → List Ptr → List ℕ → List ℕ
with_fds clients [] fds = fds
with_fds clients (c ∷ cs) fds = with_fds clients cs (with_fd (clients c) fds)

with_fds-update :
    (clients : Ptr → Option Client) (cs : List Ptr) (c : Ptr) (fds : List ℕ)
    → is_listed cs c ≡ false
    → with_fds (update clients c none) cs fds ≡ with_fds clients cs fds
unfolding with_fds is_listed
with_fds-update clients [] c fds h = refl
with_fds-update clients (d ∷ cs) c fds h =
    let other : (d == c) ≡ false = ground arith in
    rw other (with_fds-update clients cs c (with_fd (clients d) fds) (ground arith))

-- The memory behind a part of the loop, over the clients that it closes.
pub record Closed (w v : World) (cs : List Ptr) : Type 0 where
  pub freed : (c : Ptr) → is_listed cs c ≡ true → v.clients c ≡ none
  pub kept : (c : Ptr) → w.clients c ≡ none → v.clients c ≡ none
  pub players_kept : Keeps w.players v.players
  pub descriptors : v.shut ≡ with_fds w.clients cs w.shut
  pub same_names : v.player_registry ≡ w.player_registry

unlist_first : (c : Ptr) (cs : List Ptr) → unlist (c ∷ cs) c ≡ cs
unfolding unlist
unlist_first c cs = rw (==_self c) refl

close_first :
    (env : Env) (w : World) (c : Ptr) (cs : List Ptr)
    → Closing w (c ∷ cs)
    → (v : World) × (shut_client env c w ≡ done tt v)
      × Closing v cs
      × Closed w v (c ∷ [])
      × (v.clients ≡ update w.clients c none)
unfolding is_listed with_fds
close_first env w c cs h =
    let (k, x, f, keeps, left) = close_at w c (c ∷ cs) h (rw (==_self c) refl) in
    let l = subst (Closing (departed w c k x)) (unlist_first c cs) left in
    (
      record (departed w c k x) { shut = k.fd ∷ w.shut },
      shut_client_lem env w c k f x,
      record {
        listed = l.listed;
        counted = l.counted;
        free = l.free;
        quiet = l.quiet;
        different = l.different;
        references = l.references;
      },
      record {
        freed = λ d e. ground arith;
        kept = λ d e. ground arith;
        players_kept = keeps;
        descriptors = rw f.live refl;
        same_names = refl;
      },
      refl,
    )

pub close_all :
    (env : Env) (w : World) (cs : List Ptr)
    → Closing w cs
    → (v : World) × (shut_clients env cs w ≡ done tt v) × Closing v [] × Closed w v cs
unfolding shut_clients is_listed with_fds
close_all env w [] h = (
  w,
  refl,
  h,
  record {
    freed = λ c e. ground arith;
    kept = λ c e. e;
    players_kept = λ a p e. (p, e);
    descriptors = refl;
    same_names = refl;
  },
)
close_all env w (c ∷ cs) h =
    let (u, first, there, one, dropped) = close_first env w c cs h in
    let (v, rest, behind, others) = close_all env u cs there in
    (
      v,
      rw first rest,
      behind,
      record {
        freed = λ d e. elim (Bool-cases (c == d)) [
          | inl same ↦ others.kept d (one.freed d (rw same refl))
          | inr other ↦ others.freed d (ground arith)
        ];
        kept = λ d e. others.kept d (one.kept d e);
        players_kept = λ a p e. let (q, f) = one.players_kept a p e in others.players_kept a q f;
        descriptors =
            others.descriptors
            ∙ (ap (λ f. with_fds f cs u.shut) dropped
                ∙ (with_fds-update w.clients cs c u.shut h.different.0
                    ∙ ap (with_fds w.clients cs) one.descriptors));
        same_names = others.same_names ∙ one.same_names;
      },
    )
