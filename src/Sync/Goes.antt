-- ===== src/Sync/Goes.antt =====
-- What a step does to the store is what steps of the protocol do, one after the other.
use skill_hive.Prelude.{◌≡◌, refl, Bool, true, false, ◌⊎◌, inl, inr}
use skill_hive.Store.{LocalStore, LocalStoreError, Result, ok, err}
use skill_hive.Sync.Wire.{Client}
use skill_hive.Sync.Yields.{Holds, Yields, Anything}
use skill_hive.Sync.Protocol.{CycleStep, Runs, Runs-trans}
use skill_hive.Sync.Push.{
  Step, ◌>>=◌, next, finish, raise, look, stored, answered, when, attempt, settled,
}

module _ (c : Client) where
  -- Whether it succeeds or fails, the step leads to a store that steps of the protocol reach.
  pub record Goes {E A : Type 0} (m : Step E A) : Type 0 where
    pub goes : (s : LocalStore) → Runs c s (m s).1

  module _ {E : Type 0} where
    next-Goes :
        {A B : Type 0} (rest : A → Step E B) (s : LocalStore) (r : (E ⊎ A) × LocalStore)
        → Runs c s r.1
        → ((a : A) → Goes (rest a))
        → Runs c s (next rest r).1
    unfolding next
    next-Goes rest s (inl e, t) h k = h
    next-Goes rest s (inr a, t) h k = Runs-trans c h ((k a).goes t)

    pub bind-Goes :
        {A B : Type 0} {first : Step E A} {rest : A → Step E B}
        → Goes first
        → ((a : A) → Goes (rest a))
        → Goes (first >>= rest)
    unfolding ◌>>=◌
    bind-Goes {first} {rest} h k = record { goes = λ s. next-Goes rest s (first s) (h.goes s) k }

    pub finish-Goes : {A : Type 0} (a : A) → Goes {E = E} (finish a)
    unfolding finish
    finish-Goes a = record { goes = λ s. Runs.done }

    pub raise-Goes : {A : Type 0} (e : E) → Goes {A = A} (raise e)
    unfolding raise
    raise-Goes e = record { goes = λ s. Runs.done }

    pub look-Goes : {A : Type 0} (f : LocalStore → A) → Goes {E = E} (look f)
    unfolding look
    look-Goes f = record { goes = λ s. Runs.done }

    pub answered-Goes : {A : Type 0} (answer : E ⊎ A) → Goes (answered answer)
    unfolding answered
    answered-Goes answer = record { goes = λ s. Runs.done }

    pub when-Goes : (b : Bool) {body : Step E (Unit {0})} → Goes body → Goes (when b body)
    unfolding when
    when-Goes true h = h
    when-Goes false h = finish-Goes tt

    pub stored-Runs :
        {A : Type 0} (wrap : LocalStoreError → E) (operation : LocalStore → Result (A × LocalStore))
        (s : LocalStore)
        → ((a : A) (t : LocalStore) → operation s ≡ ok (a, t) → CycleStep c s t)
        → Runs c s (stored wrap operation s).1
    unfolding stored
    stored-Runs {A} wrap operation s step = from (operation s) refl
      where
        from : (r : Result (A × LocalStore)) → operation s ≡ r → Runs c s (settled wrap s r).1
        from (err e) h = Runs.done
        from (ok (a, t)) h = Runs.after (step a t h) Runs.done

    pub stored-Goes :
        {A : Type 0} (wrap : LocalStoreError → E) (operation : LocalStore → Result (A × LocalStore))
        → ((s : LocalStore) (a : A) (t : LocalStore) → operation s ≡ ok (a, t) → CycleStep c s t)
        → Goes (stored wrap operation)
    stored-Goes wrap operation step = record { goes = λ s. stored-Runs wrap operation s (step s) }

    -- What the first step yields is known to the rest.
    yielded-bind-Goes :
        {A B : Type 0} (post : A → Type 0) (rest : A → Step E B) (s : LocalStore)
        (r : (E ⊎ A) × LocalStore)
        → Runs c s r.1
        → Holds post Anything r.0
        → ((a : A) → post a → Goes (rest a))
        → Runs c s (next rest r).1
    unfolding next
    yielded-bind-Goes post rest s (inl e, t) h held k = h
    yielded-bind-Goes post rest s (inr a, t) h held k = Runs-trans c h ((k a held).goes t)

    pub bind-Goes-Yields :
        {A B : Type 0} (post : A → Type 0) {first : Step E A} {rest : A → Step E B}
        → Goes first
        → Yields first post Anything
        → ((a : A) → post a → Goes (rest a))
        → Goes (first >>= rest)
    unfolding ◌>>=◌
    bind-Goes-Yields post {first} {rest} h held k = record {
      goes = λ s. yielded-bind-Goes post rest s (first s) (h.goes s) (held.yields s) k;
    }

  pub attempt-Goes : {E F A : Type 0} {first : Step E A} → Goes first → Goes (attempt {F = F} first)
  unfolding attempt
  attempt-Goes h = record { goes = λ s. h.goes s }

  -- What the answer was is known to the rest.
  pub answered-bind-Goes :
      {E A B : Type 0} (answer : E ⊎ A) {rest : A → Step E B}
      → ((a : A) → answer ≡ inr a → Goes (rest a))
      → Goes (answered answer >>= rest)
  unfolding answered ◌>>=◌ next
  answered-bind-Goes (inl e) k = record { goes = λ s. Runs.done }
  answered-bind-Goes (inr a) k = record { goes = λ s. (k a refl).goes s }
