-- ===== src/Shell/Meets.antt =====
-- How a script under `set -e` meets a plan: it performs all of it, or stops in it at the command whose
-- status it then ends with. The outputs that a plan depends on are its index.
use openshell_image_builder.Base.{
  ℕ, List, [], ◌∷◌, ◌++◌, map, Result, ok, err, ◌==◌, ==_iff, ◌≡◌, refl, ◌≢◌, inl, inr, Bool-cases,
}
use openshell_image_builder.Base.Io.{Io, next}
use openshell_image_builder.Text.{Text}
use openshell_image_builder.Shell.{Action, Completed, Shell, answer, asked, run_all}
use openshell_image_builder.Shell.Steps.{
  Step, ran, action_of, Performed, none_left, performed, Performed-append, StopsIn, StopsIn-append,
  StopsIn-behind, Fits,
}

abbrev pub UnitResult : Type 0 → Type 0
UnitResult S = Result ℕ (Unit {0}) × S

module _ {S : Type 0} (sh : Shell S) where
  abbrev pub Meets : {I : Type 0} → (I → List Step) → S → UnitResult S → Type 0
  Meets {I} plan s (ok _, t) = (i : I) × Performed sh (plan i) s t
  Meets {I} plan s (err n, t) = (i : I) × StopsIn sh (plan i) n s t

  module _ {I J : Type 0} (plan : I → List Step) (whole : J → List Step) (reindex : I → J) where
    -- Steps that were performed go before the plan that the rest meets.
    pub Meets-behind :
        (front : List Step)
        → ((i : I) → whole (reindex i) ≡ front ++ plan i)
        → (s m : S) → Performed sh front s m
        → (x : UnitResult S) → Meets plan m x
        → Meets whole s x
    Meets-behind front covers s m p (ok _, t) (i, q) =
        (reindex i, rw covers (Performed-append sh p q))
    Meets-behind front covers s m p (err n, t) (i, q) =
        (reindex i, rw covers (StopsIn-behind sh p q))

    -- A first part that was performed, or in which the script has stopped.
    pub Meets-next :
        (front behind : List Step) (j : J) (f : Unit {0} → Io S ℕ (Unit {0}))
        → ((i : I) → whole (reindex i) ≡ front ++ plan i)
        → whole j ≡ front ++ behind
        → (s : S) (x : UnitResult S) → Meets {I = Unit {0}} (λ _. front) s x
        → ((t : S) → Meets plan t (f tt t))
        → Meets whole s (next x f)
    unfolding next
    Meets-next front behind j f covers other s (ok _, t) (_, p) rest =
        Meets-behind front covers s t p (f tt t) (rest t)
    Meets-next front behind j f covers other s (err n, t) (_, p) rest =
        (j, rw other (StopsIn-append sh behind p))

  -- A step that has failed ends the script.
  pub failed-StopsIn :
      (plan behind : List Step) (step : Step)
      → plan ≡ step ∷ behind
      → (s t : S) (c : Completed) → sh.perform (action_of step) s ≡ (c, t)
      → c.status ≢ 0
      → StopsIn sh plan c.status s t
  failed-StopsIn plan behind step covers s t c e bad = record {
    before = [];
    last = step;
    behind = behind;
    split = covers;
    at = s;
    performed_before = none_left;
    completed = c;
    performed_last = e;
    failed = refl;
    nonzero = bad;
  }

  -- After a command that has to succeed the script goes on with the output, or ends.
  pub answer-cases {κ} :
      (G : UnitResult S → Type κ) (a : Action) (s : S) (f : Text → Io S ℕ (Unit {0}))
      → ((c : Completed) (t : S) → sh.perform a s ≡ (c, t) → c.status ≡ 0 → G (f c.output t))
      → ((c : Completed) (t : S) → sh.perform a s ≡ (c, t) → c.status ≢ 0 → G (err c.status, t))
      → G (next (answer sh a s) f)
  unfolding next answer
  answer-cases G a s f good bad =
      let (c, t) = sh.perform a s in
      elim (Bool-cases (c.status == 0)) [
        | inl e ↦ rw e (good c t refl ((==_iff c.status 0).0 e))
        | inr e ↦ rw e (bad c t refl (λ z. cc ((==_iff c.status 0).1 z, e)))
      ]

  module _ {I J : Type 0} (plan : Text → I → List Step) (whole : J → List Step)
      (reindex : Text → I → J) (a : Action) (step : Text → Step) (i : I)
      (acts : (o : Text) → action_of (step o) ≡ a)
      (covers : (o : Text) (i : I) → whole (reindex o i) ≡ step o ∷ plan o i) where
    -- A command that has to succeed, and the plan behind it for each output.
    pub Meets-answer :
        ((c : Completed) → c.status ≡ 0 → Fits sh (step c.output) c)
        → (f : Text → Io S ℕ (Unit {0})) → ((o : Text) (t : S) → Meets (plan o) t (f o t))
        → (s : S) → Meets whole s (next (answer sh a s) f)
    Meets-answer fits f rest s =
        answer-cases (Meets whole s) a s f
          (λ c t e zero.
            Meets-behind (plan c.output) whole (reindex c.output) (step c.output ∷ [])
              (covers c.output) s t (performed c (rw (acts c.output) e) (fits c zero) none_left)
              (f c.output t) (rest c.output t))
          (λ c t e bad. (
            reindex c.output i,
            failed-StopsIn (whole (reindex c.output i)) (plan c.output i) (step c.output)
                (covers c.output i) s t c (rw (acts c.output) e) bad,
          ))

    -- A command that may fail.
    pub Meets-asked :
        ((c : Completed) → Fits sh (step c.output) c)
        → (f : Text → Io S ℕ (Unit {0})) → ((o : Text) (t : S) → Meets (plan o) t (f o t))
        → (s : S) → Meets whole s (next (asked sh a s) f)
    unfolding next asked
    Meets-asked fits f rest s =
        let (c, t) = sh.perform a s in
        let same : sh.perform (action_of (step c.output)) s ≡ (c, t) = rw (acts c.output) refl in
        Meets-behind (plan c.output) whole (reindex c.output) (step c.output ∷ []) (covers c.output)
          s t (performed c same (fits c) none_left) (f c.output t) (rest c.output t)

  -- Commands one after another.
  pub run_all-Meets :
      (actions : List Action) (s : S)
      → Meets {I = Unit {0}} (λ _. map ran actions) s (run_all sh actions s)
  unfolding run_all
  run_all-Meets [] s = (tt, none_left)
  run_all-Meets (a ∷ rest) s =
      Meets-answer {I = Unit {0}} {J = Unit {0}} (λ _ _. map ran rest) (λ _. map ran (a ∷ rest))
        (λ _ _. tt) a (λ _. ran a) tt (λ _. refl) (λ _ _. refl) (λ c h. h) (λ _. run_all sh rest)
        (λ _ t. run_all-Meets rest t) s
