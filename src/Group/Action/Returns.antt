-- ===== src/Group/Action/Returns.antt =====
-- What an action that returns has answered and left behind: a predicate on the two, and one rule
-- for each way to build an action.
use opensplit.Prelude.{Bool, true, false, Option, none, some, ◌≡◌, refl}
use opensplit.Group.Refusal.{RefusalCode}
use opensplit.Group.Tables.{Db}
use opensplit.Group.Action.{
  Constraint, Outcome, done, thrown, Action, or_refuse, refuse_if, check, ◌>>=◌, continue,
}

abbrev pub Returns : {A : Type 0} → (A → Db → Type 0) → Outcome A → Type 0
Returns Q (done a t) = Q a t
Returns Q (thrown e) = Unit

module _ {B : Type 0} (Q : B → Db → Type 0) (s : Db) where
  -- The rest of the block may use that a test failed to refuse, or that a constraint held.
  pub Returns-passed :
      (b : Bool) (code : RefusalCode) (f : Unit → Action B)
      → (b ≡ false → Returns Q (f tt s))
      → Returns Q ((refuse_if b code >>= f) s)
  unfolding ◌>>=◌ refuse_if
  Returns-passed true code f k = tt
  Returns-passed false code f k = k refl

  pub Returns-checked :
      (b : Bool) (c : Constraint) (f : Unit → Action B)
      → (b ≡ true → Returns Q (f tt s))
      → Returns Q ((check b c >>= f) s)
  unfolding ◌>>=◌ check
  Returns-checked false c f k = tt
  Returns-checked true c f k = k refl

  pub Returns-found :
      {A : Type 0} (a : Option A) (code : RefusalCode) (f : A → Action B)
      → ((x : A) → a ≡ some x → Returns Q (f x s))
      → Returns Q ((or_refuse a code >>= f) s)
  unfolding ◌>>=◌ or_refuse
  Returns-found none code f k = tt
  Returns-found (some x) code f k = k x refl

  pub Returns-bind :
      {A : Type 0} (m : Action A) (f : A → Action B)
      → Returns (λ a t. Returns Q (f a t)) (m s)
      → Returns Q ((m >>= f) s)
  unfolding ◌>>=◌
  Returns-bind m f h = go (m s) h
    where
      go : (o : Outcome _) → Returns (λ a t. Returns Q (f a t)) o → Returns Q (continue f o)
      go (done a t) h = h
      go (thrown e) h = tt
