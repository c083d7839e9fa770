-- ===== src/StreamBuffer/Input/Follows.antt =====
-- Two inputs that give the same answers, and what is computed from them.
use sat_symmetry.Prelude.{◌≡◌, refl, Bool, true, false, Option}
use sat_symmetry.Prelude.Outcome.{Outcome, done, check_failed, stuck, ◌>>=◌, run, check}
use sat_symmetry.StreamBuffer.Input.{Input}

-- Both come to the same end, with results that are related.
abbrev pub Follows : {A B : Type 0} → (A → B → Type 0) → Outcome A → Outcome B → Type 0
Follows {A} P r (done b) = (a : A) × (r ≡ done a) × P a b
Follows P r check_failed = r ≡ check_failed
Follows P r stuck = r ≡ stuck

-- The same value, at related inputs.
abbrev pub Same : {A S T : Type 0} → (S → T → Type 0) → A × S → A × T → Type 0
Same R (a, s) (b, t) = (a ≡ b) × R s t

pub Follows-eq : {A : Type 0} (r q : Outcome A) → Follows ◌≡◌ r q → r ≡ q
Follows-eq r (done b) (a, e, same) = rw (e, same)
Follows-eq r check_failed e = e
Follows-eq r stuck e = e

pub Follows-bind :
    {A B X Y : Type 0} (P : A → B → Type 0) (Q : X → Y → Type 0) (r : Outcome A) (q : Outcome B)
    (k : A → Outcome X) (k' : B → Outcome Y)
    → Follows P r q
    → ((a : A) (b : B) → P a b → Follows Q (k a) (k' b))
    → Follows Q (r >>= k) (q >>= k')
Follows-bind P Q r (done b) k k' (a, e, h) next = rw e (next a b h)
Follows-bind P Q r check_failed k k' e next = rw e
Follows-bind P Q r stuck k k' e next = rw e

module _ {S T : Type 0} (R : S → T → Type 0) {X Y : Type 0} (Q : X → Y → Type 0) where
  -- The same, where a value comes with the input.
  pub Follows-bind_value :
      {A : Type 0} (r : Outcome (A × S)) (q : Outcome (A × T)) (k : A × S → Outcome X)
      (k' : A × T → Outcome Y)
      → Follows (Same R) r q
      → ((a : A) (s : S) (t : T) → R s t → Follows Q (k (a, s)) (k' (a, t)))
      → Follows Q (r >>= k) (q >>= k')
  Follows-bind_value r (done (b, t)) k k' ((a, s), e, (same, h)) next = rw (e, same) (next b s t h)
  Follows-bind_value r check_failed k k' e next = rw e
  Follows-bind_value r stuck k k' e next = rw e

  pub Follows-run :
      {A : Type 0} (o : Option A) (k : A → Outcome X) (k' : A → Outcome Y)
      → ((a : A) → Follows Q (k a) (k' a))
      → Follows Q (run o >>= k) (run o >>= k')
  Follows-run Option.none k k' next = refl
  Follows-run (Option.some a) k k' next = next a

  pub Follows-check :
      {A : Type 0} (o : Option A) (k : A → Outcome X) (k' : A → Outcome Y)
      → ((a : A) → Follows Q (k a) (k' a))
      → Follows Q (check o >>= k) (check o >>= k')
  Follows-check Option.none k k' next = refl
  Follows-check (Option.some a) k k' next = next a

-- The two sides of a test.
pub Follows-test :
    {X Y : Type 0} (Q : X → Y → Type 0) (b : Bool) (x x' : Outcome X) (y y' : Outcome Y)
    → Follows Q x y
    → Follows Q x' y'
    → Follows Q (elim b [ true ↦ x | false ↦ x' ]) (elim b [ true ↦ y | false ↦ y' ])
Follows-test Q true x x' y y' h h' = h
Follows-test Q false x x' y y' h h' = h'

-- Each operation of `i` follows that of `j`, and keeps the inputs related.
pub record IsFollower {S T : Type 0} (i : Input S) (j : Input T) (R : S → T → Type 0) : Type 0 where
  pub peek : (s : S) (t : T) → R s t → Follows (Same R) (run (i.peek s)) (run (j.peek t))
  pub advance : (s : S) (t : T) → R s t → Follows R (run (i.advance s)) (run (j.advance t))
  pub pass_line : (s : S) (t : T) → R s t → Follows R (run (i.pass_line s)) (run (j.pass_line t))
  pub pass_spaces :
      (s : S) (t : T) → R s t → Follows R (run (i.pass_spaces s)) (run (j.pass_spaces t))
  pub take_int :
      (s : S) (t : T) → R s t → Follows (Same R) (run (i.take_int s)) (run (j.take_int t))
