-- ===== src/Link/Traces.antt =====
-- What a program on a link may write, one rule for each way to build a program: `Emits` whatever
-- its result, `Rejects` if it raises `ControlRejected`, and `NeverRejects`.
use wendougee_data_ha.Base.{
  ℕ, List, [], ◌∷◌, ◌++◌, Bool, true, false, Error, Result, ok, err, is_control_rejected, ◌≡◌, refl,
  sym, ap, ◌∙◌, arith, inl, inr, Bool-cases, All, All-append, if◌then◌else◌,
}
use wendougee_data_ha.Command.{Command}
use wendougee_data_ha.Session.{Operation, command, request_of}
use wendougee_data_ha.Session.Exchange.{IsPlain}
use wendougee_data_ha.Link.{
  Transport, Link, M, pure, lift, raise, check, continue, ◌>>=◌, try_finally, transact, sleep, send,
  shield, is_allowed,
}
use wendougee_data_ha.Link.Quarantine.{exchange-Exchanged, IsGood}
use mathlib.Core.Path.{subst}
use mathlib.Core.List.{append_assoc}

-- the latest operations `new`, all in `G`, came on top of the history `h`
pub record Grows (G : Operation → Bool) (h h' : List Operation) : Type 0 where
  pub new : List Operation
  pub split : h' ≡ new ++ h
  pub all : All (λ op. G op ≡ true) new

pub Grows-refl : (G : Operation → Bool) (h : List Operation) → Grows G h h
Grows-refl G h = record { new = []; split = refl; all = tt }

pub Grows-trans :
    (G : Operation → Bool) (h h1 h2 : List Operation) → Grows G h h1 → Grows G h1 h2 → Grows G h h2
Grows-trans G h h1 h2 a b = record {
  new = b.new ++ a.new;
  split = b.split ∙ ap (λ t. b.new ++ t) a.split ∙ sym (append_assoc b.new a.new h);
  all = All-append (λ op. G op ≡ true) b.new a.new b.all a.all;
}

module _ {W A : Type 0} where
  pub record Emits (G : Operation → Bool) (m : M W A) : Type 0 where
    pub at : (l : Link W) → Grows G l.history (m l).1.history

  pub record Rejects (G : Operation → Bool) (m : M W A) : Type 0 where
    pub at :
        (l : Link W) (e : Error)
        → (m l).0 ≡ err e
        → is_control_rejected e ≡ true
        → Grows G l.history (m l).1.history

  pub record NeverRejects (m : M W A) : Type 0 where
    pub at : (l : Link W) (e : Error) → (m l).0 ≡ err e → is_control_rejected e ≡ false

  pub Emits-Rejects : (G : Operation → Bool) (m : M W A) → Emits G m → Rejects G m
  Emits-Rejects G m k = record { at = λ l e p q. k.at l }

  pub NeverRejects-Rejects : (G : Operation → Bool) (m : M W A) → NeverRejects m → Rejects G m
  NeverRejects-Rejects G m k = record { at = λ l e p q. absurd (cc (k.at l e p)) }

  pub Emits-pure : (G : Operation → Bool) (a : A) → Emits G (pure {W = W} a)
  unfolding pure
  Emits-pure G a = record { at = λ l. Grows-refl G l.history }

  pub Emits-lift : (G : Operation → Bool) (r : Result A) → Emits G (lift {W = W} r)
  unfolding lift
  Emits-lift G r = record { at = λ l. Grows-refl G l.history }

  pub Emits-raise : (G : Operation → Bool) (e : Error) → Emits G (raise {W = W} {A = A} e)
  unfolding raise
  Emits-raise G e = record { at = λ l. Grows-refl G l.history }

  pub NeverRejects-pure : (a : A) → NeverRejects (pure {W = W} a)
  unfolding pure
  NeverRejects-pure a = record { at = λ l e p. cc }

  pub NeverRejects-raise :
      (e : Error) → is_control_rejected e ≡ false → NeverRejects (raise {W = W} {A = A} e)
  unfolding raise
  NeverRejects-raise x k = record { at = λ l e p. ground arith }

  pub Emits-if :
      (G : Operation → Bool) (b : Bool) (m n : M W A)
      → Emits G m
      → Emits G n
      → Emits G (if b then m else n)
  Emits-if G true m n km kn = km
  Emits-if G false m n km kn = kn

  pub Rejects-if :
      (G : Operation → Bool) (b : Bool) (m n : M W A)
      → Rejects G m
      → Rejects G n
      → Rejects G (if b then m else n)
  Rejects-if G true m n km kn = km
  Rejects-if G false m n km kn = kn

  pub NeverRejects-if :
      (b : Bool) (m n : M W A) → NeverRejects m → NeverRejects n → NeverRejects (if b then m else n)
  NeverRejects-if true m n km kn = km
  NeverRejects-if false m n km kn = kn

module _ {W : Type 0} where
  pub NeverRejects-lift : {A : Type 0} (r : Result A) → IsPlain r → NeverRejects (lift {W = W} r)
  unfolding lift
  NeverRejects-lift (ok a) p = record { at = λ l e q. cc }
  NeverRejects-lift (err x) p = record { at = λ l e q. ground arith }

  pub Emits-check : (G : Operation → Bool) (b : Bool) (e : Error) → Emits G (check {W = W} b e)
  unfolding check
  Emits-check G true e = record { at = λ l. Grows-refl G l.history }
  Emits-check G false e = record { at = λ l. Grows-refl G l.history }

  pub NeverRejects-check :
      (b : Bool) (e : Error) → is_control_rejected e ≡ false → NeverRejects (check {W = W} b e)
  unfolding check
  NeverRejects-check true x k = record { at = λ l e p. cc }
  NeverRejects-check false x k = record { at = λ l e p. ground arith }

module _ {W A B : Type 0} where
  continue-Emits :
      (G : Operation → Bool) (r : Result A) (f : A → M W B) (l : Link W)
      → ((a : A) → Emits G (f a))
      → Grows G l.history (continue r f l).1.history
  unfolding continue
  continue-Emits G (ok a) f l k = (k a).at l
  continue-Emits G (err e) f l k = Grows-refl G l.history

  pub Emits-bind :
      (G : Operation → Bool) (m : M W A) (f : A → M W B)
      → Emits G m
      → ((a : A) → Emits G (f a))
      → Emits G (m >>= f)
  unfolding ◌>>=◌
  Emits-bind G m f km kf = record {
    at = λ l.
        Grows-trans G l.history (m l).1.history (continue (m l).0 f (m l).1).1.history (km.at l)
          (continue-Emits G (m l).0 f (m l).1 kf);
  }

  continue-Rejects :
      (G : Operation → Bool) (r : Result A) (f : A → M W B) (l : Link W) (e : Error)
      → ((a : A) → Rejects G (f a))
      → (continue r f l).0 ≡ err e
      → is_control_rejected e ≡ true
      → Grows G l.history (continue r f l).1.history
  unfolding continue
  continue-Rejects G (ok a) f l e k p q = (k a).at l e p q
  continue-Rejects G (err x) f l e k p q = Grows-refl G l.history

  pub Rejects-bind :
      (G : Operation → Bool) (m : M W A) (f : A → M W B)
      → Emits G m
      → ((a : A) → Rejects G (f a))
      → Rejects G (m >>= f)
  unfolding ◌>>=◌
  Rejects-bind G m f km kf = record {
    at = λ l e p q.
        Grows-trans G l.history (m l).1.history (continue (m l).0 f (m l).1).1.history (km.at l)
          (continue-Rejects G (m l).0 f (m l).1 e kf p q);
  }

  continue-NeverRejects :
      (r : Result A) (f : A → M W B) (l : Link W) (e : Error)
      → ((x : Error) → r ≡ err x → is_control_rejected x ≡ false)
      → ((a : A) → NeverRejects (f a))
      → (continue r f l).0 ≡ err e
      → is_control_rejected e ≡ false
  unfolding continue
  continue-NeverRejects (ok a) f l e h k p = (k a).at l e p
  continue-NeverRejects (err x) f l e h k p = h e (err_map p)
    where
      err_map : ◌≡◌ {A = Result B} (err x) (err e) → ◌≡◌ {A = Result A} (err x) (err e)
      err_map q = cc

  pub NeverRejects-bind :
      (m : M W A) (f : A → M W B)
      → NeverRejects m
      → ((a : A) → NeverRejects (f a))
      → NeverRejects (m >>= f)
  unfolding ◌>>=◌
  NeverRejects-bind m f km kf = record {
    at = λ l e p. continue-NeverRejects (m l).0 f (m l).1 e (km.at l) kf p;
  }

module _ {W A : Type 0} where
  pub Emits-try_finally :
      (G : Operation → Bool) (body : M W A) (cleanup : M W (Unit {0}))
      → Emits G body
      → Emits G cleanup
      → Emits G (try_finally body cleanup)
  unfolding try_finally
  Emits-try_finally G body cleanup kb kc = record {
    at = λ l.
        Grows-trans G l.history (body l).1.history (cleanup (body l).1).1.history (kb.at l)
          (kc.at (body l).1);
  }

  pub NeverRejects-try_finally :
      (body : M W A) (cleanup : M W (Unit {0}))
      → NeverRejects body
      → NeverRejects cleanup
      → NeverRejects (try_finally body cleanup)
  unfolding try_finally
  NeverRejects-try_finally body cleanup kb kc = record {
    at = λ l e p. ground (arith, kb.at l e, kc.at (body l).1 e);
  }

module _ {W : Type 0} (tr : Transport W) where
  pub Emits-transact :
      (G : Operation → Bool) (c : Command) → G (command c) ≡ true → Emits G (transact tr c)
  unfolding transact
  Emits-transact G c g = record {
    at = λ l. elim (exchange-Exchanged tr (command c) l).written [
      | inl (same, _) ↦ record { new = []; split = same; all = tt }
      | inr new ↦ record { new = command c ∷ []; split = new; all = (g, tt) }
    ];
  }

  pub NeverRejects-transact : (c : Command) → NeverRejects (transact tr c)
  unfolding transact
  NeverRejects-transact c = record {
    at = λ l e p. subst (IsGood (command c)) p (exchange-Exchanged tr (command c) l).good;
  }

  pub Emits-sleep : (G : Operation → Bool) (n : ℕ) → Emits G (sleep tr n)
  unfolding sleep
  Emits-sleep G n = record { at = λ l. Grows-refl G l.history }

  pub NeverRejects-sleep : (n : ℕ) → NeverRejects (sleep tr n)
  unfolding sleep
  NeverRejects-sleep n = record { at = λ l e p. ground arith }

  pub Emits-send : (G : Operation → Bool) (c : Command) → G (command c) ≡ true → Emits G (send tr c)
  unfolding send
  Emits-send G c g = record {
    at = λ l. elim (Bool-cases (is_allowed tr.allowed (request_of (command c)))) [
      | inl a ↦ rw a (record { new = command c ∷ []; split = refl; all = (g, tt) })
      | inr a ↦ rw a (Grows-refl G l.history)
    ];
  }

  pub NeverRejects-send : (c : Command) → NeverRejects (send tr c)
  unfolding send
  NeverRejects-send c = record { at = λ l e p. ground arith }

  pub Emits-shield : (G : Operation → Bool) (m : M W (Unit {0})) → Emits G m → Emits G (shield tr m)
  unfolding shield
  Emits-shield G m k = record { at = k.at }

  pub NeverRejects-shield : (m : M W (Unit {0})) → NeverRejects m → NeverRejects (shield tr m)
  unfolding shield
  NeverRejects-shield m k = record { at = λ l e p. ground (arith, k.at l e) }

pub ruleset emits_rules = (
  Emits-pure, Emits-lift, Emits-raise, Emits-check, Emits-if, Emits-bind, Emits-transact,
  Emits-sleep, Emits-send, Emits-shield, Emits-try_finally,
)

pub ruleset never_rules = (
  NeverRejects-pure, NeverRejects-raise, NeverRejects-check, NeverRejects-if, NeverRejects-bind,
  NeverRejects-transact, NeverRejects-sleep, NeverRejects-send, NeverRejects-shield,
  NeverRejects-try_finally,
)
