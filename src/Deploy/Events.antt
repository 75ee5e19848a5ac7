-- ===== src/Deploy/Events.antt =====
-- Reasoning on scripts: which events a run adds, and what the parts of a run that succeeds did.
use palmy_protocol.Prelude.{
  ◌≡◌, refl, sym, ◌∙◌, ap, Bool, true, false, Option, none, some, List, [], ◌∷◌, ◌++◌, All,
  append_assoc, append-nil, if◌then◌else◌, ◌⊎◌, inl, inr,
}
use palmy_protocol.Deploy.{
  Env, Event, Error, rejected, History, Result, ok, err, Exec, pure, throw, continue, ◌>>=◌, unless,
  when, perform, read,
}

pub All-join {ℓ κ} :
    {A : Type ℓ} (P : A → Type κ) (xs ys : List A) → All P xs → All P ys → All P (xs ++ ys)
All-join P [] ys a b = b
All-join P (x ∷ xs) ys a b = (a.0, All-join P xs ys a.1 b)

-- The history `h'` is `h` with events after it that all satisfy `P`.
abbrev pub Extends : (Event → Type 0) → History → History → Type 0
Extends P h h' = (es : List Event) × (h' ≡ h ++ es) × All P es

module _ (P : Event → Type 0) where
  -- All events that the script adds satisfy `P`, whether it throws or not.
  pub record Adds {A : Type 0} (m : Exec A) : Type 0 where
    pub extends : (h : History) → Extends P h (m h).1

  pub Extends-trans : (h i j : History) → Extends P h i → Extends P i j → Extends P h j
  Extends-trans h i j (es, e, a) (fs, f, b) =
      (es ++ fs, f ∙ ap (λ k. k ++ fs) e ∙ append_assoc h es fs, All-join P es fs a b)

  pub Extends-refl : (h : History) → Extends P h h
  Extends-refl h = ([], sym (append-nil h), tt)

  Extends-continue :
      {A B : Type 0} (r : Result A) (f : A → Exec B) (h h1 : History)
      → Extends P h h1
      → ((a : A) → Adds (f a))
      → Extends P h (continue r f h1).1
  Extends-continue (ok a) f h h1 x fs = Extends-trans h h1 _ x ((fs a).extends h1)
  Extends-continue (err e) f h h1 x fs = x

  pub Adds-bind :
      {A B : Type 0} {m : Exec A} {f : A → Exec B}
      → Adds m
      → ((a : A) → Adds (f a))
      → Adds (m >>= f)
  unfolding ◌>>=◌
  Adds-bind {m = m} {f = f} x fs = record {
    extends = λ h. Extends-continue (m h).0 f h (m h).1 (x.extends h) fs;
  }

  pub Adds-unless : (b : Bool) (e : Error) → Adds (unless b e)
  Adds-unless true e = record { extends = λ h. Extends-refl h }
  Adds-unless false e = record { extends = λ h. Extends-refl h }

  pub Adds-pure : {A : Type 0} (a : A) → Adds (pure a)
  Adds-pure a = record { extends = λ h. Extends-refl h }

  pub Adds-throw : {A : Type 0} (e : Error) → Adds (throw {A = A} e)
  Adds-throw e = record { extends = λ h. Extends-refl h }

  pub Adds-read : {A : Type 0} (f : History → A) → Adds (read f)
  Adds-read f = record { extends = λ h. Extends-refl h }

  pub Adds-when : (b : Bool) (m : Exec (Unit {0})) → Adds m → Adds (when b m)
  Adds-when true m x = x
  Adds-when false m x = record { extends = λ h. Extends-refl h }

  -- A script that branches on an optional value.
  pub Adds-elim :
      {A B : Type 0} (o : Option A) {m : Exec B} {f : A → Exec B}
      → Adds m
      → ((a : A) → Adds (f a))
      → Adds (elim o [ none ↦ m | some a ↦ f a ])
  Adds-elim none x fs = x
  Adds-elim (some a) x fs = fs a

  pub Adds-cond :
      {B : Type 0} (b : Bool) {m n : Exec B}
      → Adds m
      → Adds n
      → Adds (elim b [ true ↦ m | false ↦ n ])
  Adds-cond true x y = x
  Adds-cond false x y = y

  pub Adds-perform : ⦃env : Env⦄ (e : Event) → P e → Adds (perform e)
  unfolding perform
  Adds-perform ⦃env = env⦄ e p = record { extends = λ h. split h (env.refuses h e) }
    where
      split :
          (h : History) (refused : Bool)
          → Extends P h
              (if◌then◌else◌ {A = Result (Unit {0}) × History} refused
                (err (rejected e), h)
                (ok tt, h ++ (e ∷ []))).1
      split h true = Extends-refl h
      split h false = (e ∷ [], refl, (p, tt))

-- A script that succeeds: its first part succeeded, and so did the rest after it.
pub >>=-ok :
    {A B : Type 0} (m : Exec A) (f : A → Exec B) (h : History) {b : B} {h' : History}
    → (m >>= f) h ≡ (ok b, h')
    → (a : A) × (h1 : History) × (m h ≡ (ok a, h1)) × (f a h1 ≡ (ok b, h'))
unfolding ◌>>=◌
>>=-ok {A = A} {B = B} m f h {b = b} {h' = h'} e = split (m h).0 (m h).1 refl e
  where
    split :
        (r : Result A) (h1 : History)
        → m h ≡ (r, h1)
        → continue r f h1 ≡ (ok b, h')
        → (a : A) × (h1 : History) × (m h ≡ (ok a, h1)) × (f a h1 ≡ (ok b, h'))
    split (ok a) h1 e f = (a, h1, e, f)
    split (err x) h1 e f = cc

-- The rest of a script, where its first part succeeds.
pub >>=-run :
    {A B : Type 0} (m : Exec A) (f : A → Exec B) (h : History) {a : A} {h' : History}
    → m h ≡ (ok a, h')
    → (m >>= f) h ≡ f a h'
unfolding ◌>>=◌
>>=-run m f h e = ap (λ r. continue r.0 f r.1) e

pub unless-ok :
    (b : Bool) (x : Error) (h : History) {t : Unit {0}} {h' : History}
    → unless b x h ≡ (ok t, h')
    → (b ≡ true) × (h' ≡ h)
unless-ok true x h e = (refl, cc)
unless-ok false x h e = cc

pub perform-ok :
    ⦃env : Env⦄ (e : Event) (h : History) {t : Unit {0}} {h' : History}
    → perform e h ≡ (ok t, h')
    → h' ≡ h ++ (e ∷ [])
unfolding perform
perform-ok ⦃env = env⦄ e h {t = t} {h' = h'} p = split (env.refuses h e) p
  where
    split :
        (refused : Bool)
        → ◌≡◌ {A = Result (Unit {0}) × History}
            (if refused then (err (rejected e), h) else (ok tt, h ++ (e ∷ [])))
            (ok t, h')
        → h' ≡ h ++ (e ∷ [])
    split true p = cc
    split false p = cc

-- A script that fails: its first part failed, or the rest did.
pub >>=-err :
    {A B : Type 0} (m : Exec A) (f : A → Exec B) (h : History) {x : Error} {h' : History}
    → (m >>= f) h ≡ (err x, h')
    → (m h ≡ (err x, h')) ⊎ ((a : A) × (h1 : History) × (m h ≡ (ok a, h1)) × (f a h1 ≡ (err x, h')))
unfolding ◌>>=◌
>>=-err {A = A} {B = B} m f h {x = x} {h' = h'} e = split (m h).0 (m h).1 refl e
  where
    split :
        (r : Result A) (h1 : History)
        → m h ≡ (r, h1)
        → continue r f h1 ≡ (err x, h')
        → (m h ≡ (err x, h'))
          ⊎ ((a : A) × (h1 : History) × (m h ≡ (ok a, h1)) × (f a h1 ≡ (err x, h')))
    split (ok a) h1 e f = inr (a, h1, e, f)
    split (err y) h1 e f = inl (e ∙ cc)

pub perform-err :
    ⦃env : Env⦄ (e : Event) (h : History) {x : Error} {h' : History}
    → perform e h ≡ (err x, h')
    → h' ≡ h
unfolding perform
perform-err ⦃env = env⦄ e h {x = x} {h' = h'} p = split (env.refuses h e) p
  where
    split :
        (refused : Bool)
        → ◌≡◌ {A = Result (Unit {0}) × History}
            (if refused then (err (rejected e), h) else (ok tt, h ++ (e ∷ [])))
            (err x, h')
        → h' ≡ h
    split true p = cc
    split false p = cc

-- The two ways through a branch.
pub elim-Option :
    {A B : Type 0} (o : Option A) (m : Exec B) (f : A → Exec B) (h : History)
    (r : Result B × History)
    → (elim o as (λ _. Exec B) [ none ↦ m | some a ↦ f a ]) h ≡ r
    → ((o ≡ none) × (m h ≡ r)) ⊎ ((a : A) × (o ≡ some a) × (f a h ≡ r))
elim-Option none m f h r e = inl (refl, e)
elim-Option (some a) m f h r e = inr (a, refl, e)

pub ok-eq :
    {A : Type 0} {a b : A} {i j : History}
    → ◌≡◌ {A = Result A × History} (ok a, i) (ok b, j)
    → a ≡ b
ok-eq e = cc

-- The result of a script, where it succeeds, satisfies `Q`.
abbrev Holds : {A : Type 0} (Q : A → Type 0) → Result A → Type 0
Holds Q (ok a) = Q a
Holds Q (err x) = Unit

module _ {B : Type 0} (Q : B → Type 0) where
  pub record Yields (m : Exec B) : Type 0 where
    pub yields : (h : History) → Holds Q (m h).0

  pub Yields-pure : (b : B) → Q b → Yields (pure b)
  Yields-pure b q = record { yields = λ h. q }

  pub Yields-bind :
      {A : Type 0} (m : Exec A) {f : A → Exec B} → ((a : A) → Yields (f a)) → Yields (m >>= f)
  unfolding ◌>>=◌
  Yields-bind {A = A} m {f = f} fs = record { yields = λ h. go (m h).0 (m h).1 }
    where
      go : (r : Result A) (h1 : History) → Holds Q (continue r f h1).0
      go (ok a) h1 = (fs a).yields h1
      go (err x) h1 = tt

  pub Yields-elim :
      {A : Type 0} (o : Option A) {m : Exec B} {f : A → Exec B}
      → Yields m
      → ((a : A) → Yields (f a))
      → Yields (elim o [ none ↦ m | some a ↦ f a ])
  Yields-elim none x fs = x
  Yields-elim (some a) x fs = fs a

  pub Yields-cond :
      (b : Bool) {m n : Exec B} → Yields m → Yields n → Yields (elim b [ true ↦ m | false ↦ n ])
  Yields-cond true x y = x
  Yields-cond false x y = y

  -- A script whose second part adds good events after the results that the first part can have.
  pub Adds-Yields :
      {C : Type 0} (P : Event → Type 0) {m : Exec B} {f : B → Exec C}
      → Adds P m
      → Yields m
      → ((b : B) → Q b → Adds P (f b))
      → Adds P (m >>= f)
  unfolding ◌>>=◌
  Adds-Yields P {m = m} {f = f} x y fs = record {
    extends = λ h. go (m h).0 h (m h).1 (y.yields h) (x.extends h);
  }
    where
      go :
          (r : Result B) (h h1 : History)
          → Holds Q r
          → Extends P h h1
          → Extends P h (continue r f h1).1
      go (ok b) h h1 q before = Extends-trans P h h1 _ before ((fs b q).extends h1)
      go (err e) h h1 q before = before
