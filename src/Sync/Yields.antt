-- ===== src/Sync/Yields.antt =====
-- What a step yields: `post` holds of each value that it returns, and `bad` of each error.
use skill_hive.Prelude.{◌≡◌, refl, Bool, true, false, ◌⊎◌, inl, inr}
use skill_hive.Store.{LocalStore, LocalStoreError, Result, ok, err}
use skill_hive.Sync.Push.{Step, ◌>>=◌, next, finish, look, stored, settled, answered, when, attempt}

abbrev pub Holds : {E A : Type 0} → (A → Type 0) → (E → Type 0) → E ⊎ A → Type 0
Holds post bad (inl e) = bad e
Holds post bad (inr a) = post a

pub record Yields {E A : Type 0} (m : Step E A) (post : A → Type 0) (bad : E → Type 0)
    : Type 0 where
  pub yields : (s : LocalStore) → Holds post bad (m s).0

module _ {E A B : Type 0} (middle : A → Type 0) (post : B → Type 0) (bad : E → Type 0)
    (rest : A → Step E B) where
  next-Holds :
      (r : (E ⊎ A) × LocalStore)
      → Holds middle bad r.0
      → ((a : A) → middle a → Yields (rest a) post bad)
      → Holds post bad (next rest r).0
  unfolding next
  next-Holds (inl e, s) h k = h
  next-Holds (inr a, s) h k = (k a h).yields s

module _ {E : Type 0} {bad : E → Type 0} where
  pub bind-Yields :
      {A B : Type 0} (middle : A → Type 0) {post : B → Type 0} {first : Step E A}
      {rest : A → Step E B}
      → Yields first middle bad
      → ((a : A) → middle a → Yields (rest a) post bad)
      → Yields (first >>= rest) post bad
  unfolding ◌>>=◌
  bind-Yields middle {post} {first} {rest} h k = record {
    yields = λ s. next-Holds middle post bad rest (first s) (h.yields s) k;
  }

  pub finish-Yields : {A : Type 0} {post : A → Type 0} (a : A) → post a → Yields (finish a) post bad
  unfolding finish
  finish-Yields a h = record { yields = λ s. h }

  pub look-Yields : {A : Type 0} (f : LocalStore → A) → Yields (look f) (λ a. Unit {0}) bad
  unfolding look
  look-Yields f = record { yields = λ s. tt }

  pub answered-Yields :
      {A : Type 0} {post : A → Type 0} (answer : E ⊎ A)
      → Holds post bad answer
      → Yields (answered answer) post bad
  unfolding answered
  answered-Yields answer h = record { yields = λ s. h }

  pub stored-Yields :
      {A : Type 0} {post : A → Type 0} (wrap : LocalStoreError → E)
      (operation : LocalStore → Result (A × LocalStore))
      → ((e : LocalStoreError) → bad (wrap e))
      → ((s : LocalStore) (a : A) (t : LocalStore) → operation s ≡ ok (a, t) → post a)
      → Yields (stored wrap operation) post bad
  unfolding stored
  stored-Yields {A} {post} wrap operation fine good = record {
    yields = λ s. from s (operation s) refl;
  }
    where
      from :
          (s : LocalStore) (r : Result (A × LocalStore))
          → operation s ≡ r
          → Holds post bad (settled wrap s r).0
      from s (err e) h = fine e
      from s (ok (a, t)) h = good s a t h

pub attempt-Yields :
    {E F A : Type 0} (first : Step E A) {post : E ⊎ A → Type 0} {bad : F → Type 0}
    → ((s : LocalStore) → post (first s).0)
    → Yields (attempt first) post bad
unfolding attempt
attempt-Yields first h = record { yields = h }

abbrev pub Anything : {A : Type 0} → A → Type 0
Anything a = Unit {0}

pub when-Yields :
    {E : Type 0} (b : Bool) (body : Step E (Unit {0}))
    → Yields body Anything Anything
    → Yields (when b body) Anything Anything
unfolding when
when-Yields true body h = h
when-Yields false body h = finish-Yields tt tt

pub anything : {E A : Type 0} (m : Step E A) → Yields m Anything Anything
anything {E} {A} m = record { yields = λ s. either (m s).0 }
  where
    either : (r : E ⊎ A) → Holds Anything Anything r
    either (inl e) = tt
    either (inr a) = tt
