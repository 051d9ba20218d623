-- ===== src/Group/Action/Keeps.antt =====
-- What an action that returns has made of the database, by a preorder on databases: one rule for
-- each way to build an action. `Preserving P` is the preorder of an invariant.
use opensplit.Prelude.{
  Bool, true, false, Option, none, some, case_of, if◌then◌else◌, ◌≡◌, refl, ◌⊎◌, inl, inr,
}
use opensplit.Group.Refusal.{RefusalCode}
use opensplit.Group.Tables.{Db}
use opensplit.Group.Action.{
  Constraint, Thrown, Outcome, done, thrown, Action, pure, refuse, gets, or_refuse, modify,
  refuse_if, check, run_if, ◌>>=◌, continue, settled, attempt,
}

-- A preorder on databases.
pub record Order : Type 1 where
  pub rel : Db → Db → Type 0
  pub reflexive : (s : Db) → rel s s
  pub transitive : (s t u : Db) → rel s t → rel t u → rel s u

abbrev pub After : {A : Type 0} → (Db → Type 0) → Outcome A → Type 0
After P (done a t) = P t
After P (thrown e) = Unit

pub record Keeps {A : Type 0} (O : Order) (m : Action A) : Type 0 where
  pub at : (s : Db) → After (O.rel s) (m s)

-- An invariant, as a relation between the databases before and after.
abbrev pub Preserving : (Db → Type 0) → Order
Preserving P = record {
  rel = λ s t. P s → P t;
  reflexive = λ s h. h;
  transitive = λ s t u p q h. q (p h);
}

or_refuse-After :
    {A : Type 0} (O : Order) (s : Db) (a : Option A) (code : RefusalCode)
    → After (O.rel s) (or_refuse a code s)
unfolding or_refuse
or_refuse-After O s none code = tt
or_refuse-After O s (some a) code = O.reflexive s

module _ {O : Order} {A : Type 0} where
  pub Keeps-pure : (a : A) → Keeps O (pure a)
  unfolding pure
  Keeps-pure a = record { at = O.reflexive }

  pub Keeps-refuse : (code : RefusalCode) → Keeps O (refuse {A = A} code)
  unfolding refuse
  Keeps-refuse code = record { at = λ s. tt }

  pub Keeps-gets : (f : Db → A) → Keeps O (gets f)
  unfolding gets
  Keeps-gets f = record { at = O.reflexive }

  pub Keeps-or_refuse : (a : Option A) (code : RefusalCode) → Keeps O (or_refuse a code)
  Keeps-or_refuse a code = record { at = λ s. or_refuse-After O s a code }

  -- A lookup whose row and refusal are read from the database.
  pub Keeps-lookup :
      (a : Db → Option A) (code : Db → RefusalCode) → Keeps O (λ s. or_refuse (a s) (code s) s)
  Keeps-lookup a code = record { at = λ s. or_refuse-After O s (a s) (code s) }

  pub Keeps-if : (b : Bool) (m n : Action A) → Keeps O m → Keeps O n → Keeps O (if b then m else n)
  Keeps-if true m n km kn = km
  Keeps-if false m n km kn = kn

module _ {O : Order} where
  pub Keeps-refuse_if : (b : Bool) (code : RefusalCode) → Keeps O (refuse_if b code)
  unfolding refuse_if
  Keeps-refuse_if true code = record { at = λ s. tt }
  Keeps-refuse_if false code = record { at = O.reflexive }

  pub Keeps-check : (b : Bool) (c : Constraint) → Keeps O (check b c)
  unfolding check
  Keeps-check true c = record { at = O.reflexive }
  Keeps-check false c = record { at = λ s. tt }

  pub Keeps-run_if : (b : Bool) (m : Action Unit) → Keeps O m → Keeps O (run_if b m)
  unfolding run_if
  Keeps-run_if true m k = record { at = k.at }
  Keeps-run_if false m k = record { at = O.reflexive }

  pub Keeps-modify : (f : Db → Db) → ((s : Db) → O.rel s (f s)) → Keeps O (modify f)
  unfolding modify
  Keeps-modify f h = record { at = h }

extend-After :
    {B : Type 0} (O : Order) (s t : Db) (r : Outcome B)
    → O.rel s t
    → After (O.rel t) r
    → After (O.rel s) r
extend-After O s t (done b u) h g = O.transitive s t u h g
extend-After O s t (thrown e) h g = tt

module _ {O : Order} {A B : Type 0} where
  continue-After :
      (s : Db) (r : Outcome A) (f : A → Action B)
      → After (O.rel s) r
      → ((a : A) → Keeps O (f a))
      → After (O.rel s) (continue f r)
  continue-After s (thrown e) f h k = tt
  continue-After s (done a t) f h k = extend-After O s t (f a t) h ((k a).at t)

  pub Keeps-bind :
      (m : Action A) (f : A → Action B) → Keeps O m → ((a : A) → Keeps O (f a)) → Keeps O (m >>= f)
  unfolding ◌>>=◌
  Keeps-bind m f km kf = record { at = λ s. continue-After s (m s) f (km.at s) kf }

  -- An action chosen by a row that may be there.
  pub Keeps-option :
      (o : Option A) (m : Action B) (g : A → Action B)
      → Keeps O m
      → ((a : A) → Keeps O (g a))
      → Keeps O (case_of o m g)
  Keeps-option none m g km kg = km
  Keeps-option (some a) m g km kg = kg a

  -- The rest of the block may use that a row was found.
  pub Keeps-found :
      (a : Option A) (code : RefusalCode) (f : A → Action B)
      → ((x : A) → a ≡ some x → Keeps O (f x))
      → Keeps O (or_refuse a code >>= f)
  unfolding ◌>>=◌
  Keeps-found none code f k = record { at = λ s. tt }
  Keeps-found (some x) code f k = record { at = (k x refl).at }

module _ {O : Order} {B : Type 0} where
  -- The rest of the block may use that a test failed to refuse, or that a constraint held.
  pub Keeps-passed :
      (b : Bool) (code : RefusalCode) (f : Unit → Action B)
      → (b ≡ false → Keeps O (f tt))
      → Keeps O (refuse_if b code >>= f)
  unfolding ◌>>=◌
  Keeps-passed true code f k = record { at = λ s. tt }
  Keeps-passed false code f k = record { at = (k refl).at }

  pub Keeps-checked :
      (b : Bool) (c : Constraint) (f : Unit → Action B)
      → (b ≡ true → Keeps O (f tt))
      → Keeps O (check b c >>= f)
  unfolding ◌>>=◌
  Keeps-checked false c f k = record { at = λ s. tt }
  Keeps-checked true c f k = record { at = (k refl).at }

-- An action that may throw and otherwise leaves the database alone.
pub record Guards (m : Action Unit) : Type 0 where
  pub at : (s : Db) → (m s ≡ done tt s) ⊎ ((e : Thrown) × (m s ≡ thrown e))

pub Guards-check : (b : Bool) (c : Constraint) → Guards (check b c)
unfolding check
Guards-check true c = record { at = λ s. inl refl }
Guards-check false c = record { at = λ s. inr (Thrown.broken c, refl) }

pub Guards-refuse_if : (b : Bool) (code : RefusalCode) → Guards (refuse_if b code)
unfolding refuse_if
Guards-refuse_if false c = record { at = λ s. inl refl }
Guards-refuse_if true c = record { at = λ s. inr (Thrown.refused c, refl) }

pub Guards-bind :
    (m : Action Unit) (k : Unit → Action Unit) → Guards m → Guards (k tt) → Guards (m >>= k)
unfolding ◌>>=◌
Guards-bind m k gm gk = record {
  at = λ s. elim (gm.at s) [
    | inl e ↦ rw (e, continue) (gk.at s)
    | inr (x, e) ↦ inr (x, rw (e, continue))
  ];
}

module _ {B : Type 0} (P : Db → Type 0) where
  pub After-guard :
      (m : Action Unit) (k : Unit → Action B) (s : Db)
      → Guards m
      → After P (k tt s)
      → After P ((m >>= k) s)
  unfolding ◌>>=◌
  After-guard m k s g h = elim (g.at s) [
    | inl e ↦ rw (e, continue) h
    | inr (x, e) ↦ rw (e, continue) tt
  ]

  pub After-modify :
      (f : Db → Db) (k : Unit → Action B) (s : Db)
      → After P (k tt (f s))
      → After P ((modify f >>= k) s)
  unfolding ◌>>=◌
  After-modify f k s h = h

pub ruleset keeps_rules = (
  Keeps-pure, Keeps-refuse, Keeps-gets, Keeps-or_refuse, Keeps-if, Keeps-refuse_if, Keeps-check,
  Keeps-run_if, Keeps-option, Keeps-bind,
)

pub settled-keeps :
    {A : Type 0} (P : Db → Type 0) (s : Db) (r : Outcome A) → After P r → P s → P (settled s r).1
settled-keeps P s (done a t) g h = g
settled-keeps P s (thrown (Thrown.refused code)) g h = h
settled-keeps P s (thrown (Thrown.broken c)) g h = h

-- A transaction that returns, refuses or crashes has kept what each of its steps keeps.
pub attempt-keeps :
    {A : Type 0} (O : Order) (m : Action A) (s : Db) → Keeps O m → O.rel s (attempt m s).1
unfolding attempt
attempt-keeps O m s k = settled-keeps (O.rel s) s (m s) (k.at s) (O.reflexive s)
