-- ===== src/Cloud/Docker/Simulation.antt =====
-- How a call of internal/cloud/docker.go simulates one on the abstract server, statement by
-- statement.
use tenantflow.Prelude.{
  ℕ, Text, ⊤, Bool, true, false, if◌then◌else◌, ap, ◌==◌, ◌≡◌, refl, sym, ◌∙◌, inl, inr,
}
use tenantflow.World.{Result, ok, err, other}
use tenantflow.Call.{Call, return, fail, ◌>>=◌, dropping, bind-ok, bind-err, Result-cases}
use tenantflow.Strings.{trim_space}
use tenantflow.Cloud.Docker.Client.{
  Docker, Ended, exit_zero, find_postgres_container, exec_postgres, query_postgres, run_attached,
  psql, psql_tuples,
}
use tenantflow.Cloud.Docker.Operations.{lift}
use tenantflow.Cloud.Docker.Server.{Cluster, Statement, sql, IsSafe, perform, psql_reply}
use tenantflow.Cloud.Docker.Spec.{Simulates, RunsPostgres}

module _ {S : Type 0} {view : S → Cluster} where
  pub Simulates-return : {A : Type 0} (a : A) → Simulates view (return a) (return a)
  Simulates-return a = record { answers = λ s. refl; leaves = λ s. refl }

  pub Simulates-fail : {A : Type 0} → Simulates view (fail {A = A} other) (fail other)
  Simulates-fail = record { answers = λ s. refl; leaves = λ s. refl }

  pub Simulates-bind :
      {A B : Type 0} {m : Call S A} {n : Call Cluster A} {f : A → Call S B} {g : A → Call Cluster B}
      → Simulates view m n
      → ((a : A) → Simulates view (f a) (g a))
      → Simulates view (m >>= f) (n >>= g)
  Simulates-bind {m = m} {n} {f} {g} hm hf = record {
    answers = λ s. elim (Result-cases (m s).0) [
      | inl (a, e) ↦ cc (
        bind-ok m f s a e,
        bind-ok n g (view s) a (sym (hm.answers s) ∙ e),
        (hf a).answers (m s).1,
        hm.leaves s,
      )
      | inr (x, e) ↦ cc (bind-err m f s x e, bind-err n g (view s) x (sym (hm.answers s) ∙ e))
    ];
    leaves = λ s. elim (Result-cases (m s).0) [
      | inl (a, e) ↦ cc (
        bind-ok m f s a e,
        bind-ok n g (view s) a (sym (hm.answers s) ∙ e),
        (hf a).leaves (m s).1,
        hm.leaves s,
      )
      | inr (x, e) ↦
          cc (bind-err m f s x e, bind-err n g (view s) x (sym (hm.answers s) ∙ e), hm.leaves s)
    ];
  }

  pub Simulates-dropping :
      {m : Call S ⊤} {n : Call Cluster ⊤}
      → Simulates view m n
      → Simulates view (dropping m) (dropping n)
  Simulates-dropping hm = record { answers = λ s. refl; leaves = λ s. hm.leaves s }

  pub Simulates-if :
      {A : Type 0} (b : Bool) {f f' : Call S A} {g g' : Call Cluster A}
      → Simulates view f g
      → Simulates view f' g'
      → Simulates view (if b then f else f') (if b then g else g')
  Simulates-if true h h' = h
  Simulates-if false h h' = h'

  Simulates-exit_zero :
      {A : Type 0} (a : A) (code : ℕ) → Simulates view (exit_zero a code) (exit_zero a code)
  Simulates-exit_zero a code = Simulates-if (code == 0) (Simulates-return a) Simulates-fail

  -- `if err := check; err != nil { return err }`
  pub Simulates-checked :
      {A : Type 0} (b : Bool) {f : Call S A} {g : Call Cluster A}
      → (b ≡ true → Simulates view f g)
      → Simulates view
          (lift (if b then ok tt else err other) >>= λ _. f)
          (λ c. if b then g c else (err other, c))
  Simulates-checked true h = h refl
  Simulates-checked false h = record { answers = λ s. refl; leaves = λ s. refl }

  pub Simulates-lift :
      {A B : Type 0} (r : Result A) (a : A) (k : A → Call S B) {g : Call Cluster B}
      → r ≡ ok a
      → Simulates view (k a) g
      → Simulates view (lift r >>= k) g
  Simulates-lift r a k e h = record {
    answers = λ s. cc (bind-ok (lift r) k s a e, h.answers s);
    leaves = λ s. cc (bind-ok (lift r) k s a e, h.leaves s);
  }

  pub Simulates-lift_err :
      {A B : Type 0} (r : Result A) (k : A → Call S B)
      → r ≡ err other
      → Simulates view (lift r >>= k) (fail other)
  Simulates-lift_err r k e = record {
    answers = λ s. cc (bind-err (lift r) k s other e);
    leaves = λ s. cc (bind-err (lift r) k s other e);
  }

  -- The promise may be written otherwise.
  pub Simulates-same :
      {A : Type 0} {f : Call S A} {g h : Call Cluster A}
      → Simulates view f g
      → ((c : Cluster) → g c ≡ h c)
      → Simulates view f h
  Simulates-same hf same = record {
    answers = λ s. cc (hf.answers s, same (view s));
    leaves = λ s. cc (hf.leaves s, same (view s));
  }

-- What execPostgres and queryPostgres make of a statement, on the abstract server.
abbrev pub replied : Statement → Call Cluster Ended
replied st c = psql_reply (perform st c) c

abbrev pub executed : Statement → Call Cluster ⊤
executed st = replied st >>= λ ended. exit_zero tt ended.exit_code

abbrev pub queried : Statement → Call Cluster Text
queried st = replied st >>= λ ended. exit_zero (trim_space ended.stdout) ended.exit_code

module _ {S : Type 0} {docker : Docker S} {view : S → Cluster}
    (host : RunsPostgres docker view) where
  Simulates-found :
      {A : Type 0} (k : Text → Call S A) {g : Call Cluster A}
      → Simulates view (k host.postgres_id) g
      → Simulates view (find_postgres_container docker >>= k) g
  Simulates-found k hk = record {
    answers = λ s. cc (
      bind-ok (find_postgres_container docker) k s host.postgres_id (ap (λ p. p.0) (host.found s)),
      host.found s,
      hk.answers s,
    );
    leaves = λ s. cc (
      bind-ok (find_postgres_container docker) k s host.postgres_id (ap (λ p. p.0) (host.found s)),
      host.found s,
      hk.leaves s,
    );
  }

  pub Simulates-exec :
      (st : Statement) → IsSafe st → Simulates view (exec_postgres docker (sql st)) (executed st)
  unfolding exec_postgres
  Simulates-exec st safe =
      Simulates-found
        (λ id. run_attached docker id (psql (sql st)) >>= λ e. exit_zero tt e.exit_code)
        (Simulates-bind (host.executes st safe) (λ e. Simulates-exit_zero tt e.exit_code))

  pub Simulates-query :
      (st : Statement) → IsSafe st → Simulates view (query_postgres docker (sql st)) (queried st)
  unfolding query_postgres
  Simulates-query st safe =
      Simulates-found
        (λ id. run_attached docker id (psql_tuples (sql st)) >>= λ e.
          exit_zero (trim_space e.stdout) e.exit_code)
        (Simulates-bind (host.queries st safe)
          (λ e. Simulates-exit_zero (trim_space e.stdout) e.exit_code))
