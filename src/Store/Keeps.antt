-- ===== src/Store/Keeps.antt =====
-- Transactions that keep the laws of the store, and the rules that compose them.
use atoms_platform.Common.{
  ℕ, ◌≡◌, refl, ◌∙◌, Bool, true, false, ◌⊎◌, inl, Option, none, some, if◌then◌else◌, arith,
}
use atoms_platform.Common.Table.{Table, lookup}
use atoms_platform.Store.Model.{RunStatus, Run, Task, MigrationArtifact, Db}
use atoms_platform.Store.Transactions.{DbError, Outcome, ok, thrown, Tx, pure, throw, ◌>>=◌}
use atoms_platform.Store.Laws.{IsGapless, IsContiguous, Forward, Later}

pub record Lawful (a b : Db) : Type 0 where
  pub later : (k : ℕ) → Later (lookup k a.runs) (lookup k b.runs)
  pub gapless : IsGapless a → IsGapless b
  pub contiguous : IsContiguous a.files → IsContiguous b.files

pub Forward-refl : (r : Run) → Forward r r
Forward-refl r = record {
  same_workspace = refl;
  same_project = refl;
  version_grows = omega arith;
  sequence_grows = omega arith;
  final = λ f. (refl, refl);
  fenced = λ e. inl refl;
}

fenced_trans :
    {r s t : Run}
    → t.control_version ≡ r.control_version
    → Forward r s
    → Forward s t
    → (t.status ≡ r.status) ⊎ ((r.status ≡ RunStatus.pending) × (t.status ≡ RunStatus.failed))
fenced_trans {r} {s} {t} e p q =
    let pv : s.control_version ≡ r.control_version =
      omega (arith, p.version_grows, q.version_grows) in
    let qv : t.control_version ≡ s.control_version =
      omega (arith, p.version_grows, q.version_grows) in
    ground (arith, p.fenced pv, q.fenced qv)

pub Forward-trans : {r s t : Run} → Forward r s → Forward s t → Forward r t
Forward-trans {r} {s} {t} p q = record {
  same_workspace = q.same_workspace ∙ p.same_workspace;
  same_project = q.same_project ∙ p.same_project;
  version_grows = omega (arith, p.version_grows, q.version_grows);
  sequence_grows = omega (arith, p.sequence_grows, q.sequence_grows);
  final = λ f. ground (arith, p.final f, q.final);
  fenced = λ e. fenced_trans e p q;
}

Later-refl : (o : Option Run) → Later o o
Later-refl none = tt
Later-refl (some r) = Forward-refl r

Later-trans : (o p q : Option Run) → Later o p → Later p q → Later o q
Later-trans none p q h k = tt
Later-trans (some r) (some s) (some t) h k = Forward-trans h k
Later-trans (some r) none q h k = absurd h
Later-trans (some r) (some s) none h k = absurd k

pub Lawful-refl : (a : Db) → Lawful a a
Lawful-refl a = record {
  later = λ k. Later-refl (lookup k a.runs);
  gapless = λ h. h;
  contiguous = λ h. h;
}

-- Rows of other tables are free to change.
pub Lawful-tasks : (a : Db) (tasks : Table Task) → Lawful a (record a { tasks = tasks })
Lawful-tasks a tasks = record {
  later = λ k. Later-refl (lookup k a.runs);
  gapless = λ h. h;
  contiguous = λ h. h;
}

pub Lawful-artifacts :
    (a : Db) (artifacts : Table MigrationArtifact) → Lawful a (record a { artifacts = artifacts })
Lawful-artifacts a artifacts = record {
  later = λ k. Later-refl (lookup k a.runs);
  gapless = λ h. h;
  contiguous = λ h. h;
}

pub Lawful-trans : {a b c : Db} → Lawful a b → Lawful b c → Lawful a c
Lawful-trans p q = record {
  later = λ k. Later-trans _ _ _ (p.later k) (q.later k);
  gapless = λ h. q.gapless (p.gapless h);
  contiguous = λ h. q.contiguous (p.contiguous h);
}

module _ {A : Type 0} where
  abbrev pub Leads : Db → Outcome (A × Db) → Type 0
  Leads a (ok (x, b)) = Lawful a b
  Leads a (thrown e) = Unit

  -- Whatever the transaction does to the database keeps the laws.
  pub record IsLawful (m : Tx A) : Type 0 where
    pub runs : (db : Db) → Leads db (m db)

  Leads-before : {a b : Db} (o : Outcome (A × Db)) → Lawful a b → Leads b o → Leads a o
  Leads-before (ok (x, c)) p q = Lawful-trans p q
  Leads-before (thrown e) p q = tt

  pub pure-IsLawful : (a : A) → IsLawful (pure a)
  pure-IsLawful a = record { runs = λ db. Lawful-refl db }

  pub throw-IsLawful : (e : DbError) → IsLawful (throw e)
  throw-IsLawful e = record { runs = λ db. tt }

  pub if-IsLawful :
      (b : Bool) {m n : Tx A} → IsLawful m → IsLawful n → IsLawful (if b then m else n)
  if-IsLawful true h k = h
  if-IsLawful false h k = k

bind-Leads :
    {A B : Type 0} (db : Db) (o : Outcome (A × Db)) (f : A → Tx B)
    → Leads db o
    → ((a : A) → IsLawful (f a))
    → Leads db (elim o [ ok (a, db') ↦ f a db' | thrown e ↦ thrown e ])
bind-Leads db (ok (a, db')) f h k = Leads-before (f a db') h ((k a).runs db')
bind-Leads db (thrown e) f h k = tt

pub bind-IsLawful :
    {A B : Type 0} (m : Tx A) (f : A → Tx B)
    → IsLawful m
    → ((a : A) → IsLawful (f a))
    → IsLawful (m >>= f)
bind-IsLawful m f h k = record { runs = λ db. bind-Leads db (m db) f (h.runs db) k }

bind-Leads_of :
    {A B : Type 0} (db : Db) (o : Outcome (A × Db)) (f : A → Tx B)
    → Leads db o
    → ((a : A) (b : Db) → o ≡ ok (a, b) → Leads b (f a b))
    → Leads db (elim o [ ok (a, db') ↦ f a db' | thrown e ↦ thrown e ])
bind-Leads_of db (ok (a, db')) f h k = Leads-before (f a db') h (k a db' refl)
bind-Leads_of db (thrown e) f h k = tt

-- The rule for a step whose outcome the rest relies on.
pub bind_of :
    {A B : Type 0} (m : Tx A) (f : A → Tx B) (db : Db)
    → Leads db (m db)
    → ((a : A) (b : Db) → m db ≡ ok (a, b) → Leads b (f a b))
    → Leads db ((m >>= f) db)
bind_of m f db h k = bind-Leads_of db (m db) f h k
