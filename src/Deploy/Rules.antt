-- ===== src/Deploy/Rules.antt =====
-- What holds when a run ends: `post` of the result and the disk if it returns, `crash` of the disk if
-- it fails or the process dies.
use skill_hive.Prelude.{◌≡◌, refl, Bool, true, false, List, [], ◌∷◌, if◌then◌else◌, inl, inr}
use skill_hive.Deploy.Journal.{DeploymentError}
use skill_hive.Deploy.Names.{Checked}
use skill_hive.Deploy.Machine.{
  Disk, Remains, Fate, works, fails, stops, Outcome, returned, failed, stopped, Run, ◌>>=◌, ◌>>◌,
  next_step, finish, raise, when, refuse_if, look, write, dropping, ignoring, sync_directory,
}
use skill_hive.Deploy.Engine.{require, ensure_directory_root}

module _ {Tree A : Type 0} (post : A → Disk Tree → Type 0) (crash : Disk Tree → Type 0) where
  abbrev pub Ends : Outcome A × List (Fate Tree) × Disk Tree → Type 0
  Ends (returned a, fates, d) = post a d
  Ends (failed e, fates, d) = crash d
  Ends (stopped, fates, d) = crash d

abbrev pub Always : {Tree : Type 0} → (Disk Tree → Type 0) → Unit {0} → Disk Tree → Type 0
Always p u d = p d

-- Every run from `d`, whatever fails on the way.
pub record Proves {Tree A : Type 0} (run : Run Tree A) (post : A → Disk Tree → Type 0)
    (crash : Disk Tree → Type 0) (d : Disk Tree) : Type 0 where
  pub ends : (fates : List (Fate Tree)) → Ends post crash (run fates d)

module _ {Tree A B : Type 0} (crash : Disk Tree → Type 0) (middle : A → Disk Tree → Type 0)
    (post : B → Disk Tree → Type 0) (rest : A → Run Tree B) where
  next_step-Ends :
      (r : Outcome A × List (Fate Tree) × Disk Tree)
      → Ends middle crash r
      → ((a : A) (d : Disk Tree) → middle a d → Proves (rest a) post crash d)
      → Ends post crash (next_step rest r)
  unfolding next_step
  next_step-Ends (returned a, fates, d) h k = (k a d h).ends fates
  next_step-Ends (failed e, fates, d) h k = h
  next_step-Ends (stopped, fates, d) h k = h

dropping-Ends :
    {Tree : Type 0} (crash : Disk Tree → Type 0)
    (r : Outcome (Unit {0}) × List (Fate Tree) × Disk Tree)
    → Ends (Always crash) crash r
    → Ends (Always crash) crash (dropping r)
unfolding dropping
dropping-Ends crash (returned u, fates, d) h = h
dropping-Ends crash (failed e, fates, d) h = h
dropping-Ends crash (stopped, fates, d) h = h

module _ {Tree A : Type 0} {post post' : A → Disk Tree → Type 0} {crash crash' : Disk Tree → Type 0}
    (on_end : (a : A) (d : Disk Tree) → post a d → post' a d)
    (on_crash : (d : Disk Tree) → crash d → crash' d) where
  weaken-Ends :
      (r : Outcome A × List (Fate Tree) × Disk Tree) → Ends post crash r → Ends post' crash' r
  weaken-Ends (returned a, fates, d) h = on_end a d h
  weaken-Ends (failed e, fates, d) h = on_crash d h
  weaken-Ends (stopped, fates, d) h = on_crash d h

  pub weaken-Proves :
      {run : Run Tree A} {d : Disk Tree} → Proves run post crash d → Proves run post' crash' d
  weaken-Proves {run} {d} h = record { ends = λ fates. weaken-Ends (run fates d) (h.ends fates) }

module _ {Tree : Type 0} {crash : Disk Tree → Type 0} where
  pub bind-Proves :
      {A B : Type 0} (middle : A → Disk Tree → Type 0) {post : B → Disk Tree → Type 0}
      {first : Run Tree A} {rest : A → Run Tree B} {d : Disk Tree}
      → Proves first middle crash d
      → ((a : A) (d : Disk Tree) → middle a d → Proves (rest a) post crash d)
      → Proves (first >>= rest) post crash d
  unfolding ◌>>=◌
  bind-Proves middle {post} {first} {rest} {d} h k = record {
    ends = λ fates. next_step-Ends crash middle post rest (first fates d) (h.ends fates) k;
  }

  pub then-Proves :
      {B : Type 0} (middle : Disk Tree → Type 0) {post : B → Disk Tree → Type 0}
      {first : Run Tree (Unit {0})} {rest : Run Tree B} {d : Disk Tree}
      → Proves first (Always middle) crash d
      → ((d : Disk Tree) → middle d → Proves rest post crash d)
      → Proves (first >> rest) post crash d
  unfolding ◌>>◌
  then-Proves middle h k = bind-Proves (Always middle) h (λ u. k)

  pub look-Proves :
      {A B : Type 0} {post : B → Disk Tree → Type 0} (f : Disk Tree → A) (rest : A → Run Tree B)
      {d : Disk Tree}
      → Proves (rest (f d)) post crash d
      → Proves (look f >>= rest) post crash d
  unfolding ◌>>=◌ next_step look
  look-Proves f rest h = record { ends = λ fates. h.ends fates }

  pub finish-Proves :
      {A : Type 0} {post : A → Disk Tree → Type 0} (a : A) {d : Disk Tree}
      → post a d
      → Proves (finish a) post crash d
  unfolding finish
  finish-Proves a h = record { ends = λ fates. h }

  pub raise-Proves :
      {A : Type 0} {post : A → Disk Tree → Type 0} (e : DeploymentError) {d : Disk Tree}
      → crash d
      → Proves (raise e) post crash d
  unfolding raise
  raise-Proves e h = record { ends = λ fates. h }

  pub write-Proves :
      {post : Disk Tree → Type 0} (done : Disk Tree → Disk Tree)
      (partial : Remains Tree → Disk Tree → Disk Tree) {d : Disk Tree}
      → post (done d)
      → ((r : Remains Tree) → crash (partial r d))
      → Proves (write done partial) (Always post) crash d
  unfolding write
  write-Proves {post} done partial {d} good bad = record { ends = each }
    where
      each : (fates : List (Fate Tree)) → Ends (Always post) crash (write done partial fates d)
      each [] = good
      each (works ∷ fates) = good
      each (fails r ∷ fates) = bad r
      each (stops r ∷ fates) = bad r

  -- A flush of a directory changes nothing: what holds before it holds behind it.
  pub sync-Proves :
      {post : Disk Tree → Type 0} {d : Disk Tree}
      → post d
      → crash d
      → Proves sync_directory (Always post) crash d
  unfolding sync_directory
  sync-Proves p h = write-Proves (λ d. d) (λ r d. d) p (λ r. h)

  pub when-Proves :
      {post : Disk Tree → Type 0} (b : Bool) {body : Run Tree (Unit {0})} {d : Disk Tree}
      → (b ≡ true → Proves body (Always post) crash d)
      → (b ≡ false → post d)
      → Proves (when b body) (Always post) crash d
  unfolding when
  when-Proves true h k = h refl
  when-Proves false h k = finish-Proves tt (k refl)

  pub refuse_if-Proves :
      {post : Disk Tree → Type 0} (b : Bool) (e : DeploymentError) {d : Disk Tree}
      → crash d
      → (b ≡ false → post d)
      → Proves (refuse_if b e) (Always post) crash d
  unfolding refuse_if
  refuse_if-Proves true e h k = raise-Proves e h
  refuse_if-Proves false e h k = finish-Proves tt (k refl)

  pub require-Proves :
      {post : Disk Tree → Type 0} (check : Checked) {d : Disk Tree}
      → post d
      → crash d
      → Proves (require check) (Always post) crash d
  unfolding require
  require-Proves (inl e) p h = raise-Proves e h
  require-Proves (inr u) p h = finish-Proves tt p

  pub root-Proves :
      {post : Disk Tree → Type 0} {d : Disk Tree}
      → post d
      → crash d
      → Proves ensure_directory_root (Always post) crash d
  unfolding ensure_directory_root
  root-Proves p h = write-Proves (λ d. d) (λ r d. d) p (λ r. h)

  pub ignoring-Proves :
      {first : Run Tree (Unit {0})} {d : Disk Tree}
      → Proves first (Always crash) crash d
      → Proves (ignoring first) (Always crash) crash d
  unfolding ignoring
  ignoring-Proves {first} {d} h = record {
    ends = λ fates. dropping-Ends crash (first fates d) (h.ends fates);
  }

  pub if-Proves :
      {A : Type 0} {post : A → Disk Tree → Type 0} (b : Bool) {this that : Run Tree A}
      {d : Disk Tree}
      → (b ≡ true → Proves this post crash d)
      → (b ≡ false → Proves that post crash d)
      → Proves (if b then this else that) post crash d
  if-Proves true h k = h refl
  if-Proves false h k = k refl
