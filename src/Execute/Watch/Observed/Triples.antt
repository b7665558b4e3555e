-- ===== src/Execute/Watch/Observed/Triples.antt =====
-- A program of the link by what it does to the list of the samples that a callback was shown.
use wendougee_data_ha.Base.{
  List, ◌≡◌, refl, sym, ◌∙◌, Bool, true, false, Error, Result, ok, err, OnOk,
}
use mathlib.Core.Path.{subst}
use wendougee_data_ha.Link.{Link, M, pure, lift, check, continue, ◌>>=◌}
use wendougee_data_ha.Coordinator.{Seen}

module _ {W : Type 0} (seen : W → List Seen) where
  -- a program that shows nothing to the callback
  pub record Keeps {A : Type 0} (m : M W A) : Type 0 where
    pub at : (l : Link W) → seen (m l).1.world ≡ seen l.world

  -- where the list satisfies `P` before, it satisfies `Q` of the result after
  pub record Triple {A : Type 0} (P : List Seen → Type 0) (m : M W A) (Q : A → List Seen → Type 0)
      : Type 0 where
    pub at : (l : Link W) → P (seen l.world) → OnOk (λ a. Q a (seen (m l).1.world)) (m l).0

  module _ {A B : Type 0} where
    continue-Keeps :
        (r : Result A) (f : A → M W B) (l : Link W)
        → ((a : A) → Keeps (f a))
        → seen (continue r f l).1.world ≡ seen l.world
    unfolding continue
    continue-Keeps (ok a) f l h = (h a).at l
    continue-Keeps (err e) f l h = refl

    pub Keeps-bind :
        (m : M W A) (f : A → M W B) → Keeps m → ((a : A) → Keeps (f a)) → Keeps (m >>= f)
    unfolding ◌>>=◌
    Keeps-bind m f k h = record { at = λ l. continue-Keeps (m l).0 f (m l).1 h ∙ k.at l }

    continue-Triple :
        (P : List Seen → Type 0) (Q : B → List Seen → Type 0) (r : Result A) (f : A → M W B)
        (l : Link W)
        → P (seen l.world)
        → ((a : A) → Triple P (f a) Q)
        → OnOk (λ b. Q b (seen (continue r f l).1.world)) (continue r f l).0
    unfolding continue
    continue-Triple P Q (ok a) f l p h = (h a).at l p
    continue-Triple P Q (err e) f l p h = tt

    -- a step that shows nothing
    pub after_step :
        (P : List Seen → Type 0) (Q : B → List Seen → Type 0) (m : M W A) (f : A → M W B)
        → Keeps m
        → ((a : A) → Triple P (f a) Q)
        → Triple P (m >>= f) Q
    unfolding ◌>>=◌
    after_step P Q m f k h = record {
      at = λ l p. continue-Triple P Q (m l).0 f (m l).1 (subst P (sym (k.at l)) p) h;
    }

  pub Keeps-lift : {A : Type 0} (r : Result A) → Keeps (lift r)
  unfolding lift
  Keeps-lift r = record { at = λ l. refl }

  pub after_check :
      {B : Type 0} (P : List Seen → Type 0) (Q : B → List Seen → Type 0) (passed : Bool) (e : Error)
      (f : Unit {0} → M W B)
      → (passed ≡ true → Triple P (f tt) Q)
      → Triple P (check passed e >>= f) Q
  unfolding ◌>>=◌ check continue
  after_check P Q true e f h = record { at = λ l p. (h refl).at l p }
  after_check P Q false e f h = record { at = λ l p. tt }

  pub at_end :
      {A : Type 0} (P : List Seen → Type 0) (Q : A → List Seen → Type 0) (a : A)
      → ((log : List Seen) → P log → Q a log)
      → Triple P (pure a) Q
  unfolding pure
  at_end P Q a h = record { at = λ l p. h (seen l.world) p }
