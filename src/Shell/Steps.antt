-- ===== src/Shell/Steps.antt =====
-- Sequences of commands: what has been performed, and where a sequence has stopped.
use openshell_image_builder.Base.{ℕ, List, [], ◌∷◌, ◌++◌, ◌≡◌, ◌≢◌, append_assoc}
use openshell_image_builder.Text.{Text}
use openshell_image_builder.Shell.{Action, Completed, Shell}

-- A command of a plan: one that has to succeed, one that has to succeed with this output, and one
-- whose output is this, whatever its status.
pub data Step : Type 0 where
  ran : Action → Step
  told : Action → Text → Step
  heard : Action → Text → Step

abbrev pub action_of : Step → Action
action_of (ran a) = a
action_of (told a output) = a
action_of (heard a output) = a

module _ {S : Type 0} (sh : Shell S) where
  abbrev pub Fits : Step → Completed → Type 0
  Fits (ran a) c = c.status ≡ 0
  Fits (told a output) c = (c.status ≡ 0) × (c.output ≡ output)
  Fits (heard a output) c = c.output ≡ output

  -- The steps, performed from one state to another in their order, with nothing between.
  pub data Performed : List Step → S → S → Type 0 where
    none_left : {s : S} → Performed [] s s
    performed :
        {step : Step} {steps : List Step} {s t u : S} (c : Completed)
        → sh.perform (action_of step) s ≡ (c, t)
        → Fits step c
        → Performed steps t u
        → Performed (step ∷ steps) s u

  -- The steps up to one were performed, and that one has failed with this status and was the last.
  pub record StopsIn (plan : List Step) (status : ℕ) (s t : S) : Type 0 where
    pub before : List Step
    pub last : Step
    pub behind : List Step
    pub split : plan ≡ before ++ last ∷ behind
    pub at : S
    pub performed_before : Performed before s at
    pub completed : Completed
    pub performed_last : sh.perform (action_of last) at ≡ (completed, t)
    pub failed : completed.status ≡ status
    pub nonzero : status ≢ 0

  pub Performed-append :
      {xs ys : List Step} {s t u : S}
      → Performed xs s t
      → Performed ys t u
      → Performed (xs ++ ys) s u
  Performed-append none_left q = q
  Performed-append (performed c e f p) q = performed c e f (Performed-append p q)

  -- A plan that stops within its first part, and one that stops behind it.
  pub StopsIn-append :
      {xs : List Step} (ys : List Step) {n : ℕ} {s t : S}
      → StopsIn xs n s t
      → StopsIn (xs ++ ys) n s t
  StopsIn-append {xs} ys {n} {s} {t} r = record {
    before = r.before;
    last = r.last;
    behind = r.behind ++ ys;
    split = rw (r.split, append_assoc r.before (r.last ∷ r.behind) ys);
    at = r.at;
    performed_before = r.performed_before;
    completed = r.completed;
    performed_last = r.performed_last;
    failed = r.failed;
    nonzero = r.nonzero;
  }

  pub StopsIn-behind :
      {xs ys : List Step} {n : ℕ} {s m t : S}
      → Performed xs s m
      → StopsIn ys n m t
      → StopsIn (xs ++ ys) n s t
  StopsIn-behind {xs} {ys} {n} {s} {m} {t} p r = record {
    before = xs ++ r.before;
    last = r.last;
    behind = r.behind;
    split = rw (r.split, append_assoc xs r.before (r.last ∷ r.behind));
    at = r.at;
    performed_before = Performed-append p r.performed_before;
    completed = r.completed;
    performed_last = r.performed_last;
    failed = r.failed;
    nonzero = r.nonzero;
  }
