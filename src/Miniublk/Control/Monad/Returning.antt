-- ===== src/Miniublk/Control/Monad/Returning.antt =====
-- Computations that return, whatever the host answers, with a property of the trace they leave.
use ndt.Base.{ℤ, if◌then◌else◌, Bool, true, false, ◌≡◌, refl, ◌∷◌, ◌⊎◌, inl, inr}
use ndt.Miniublk.Control.Monad.{Call, Trace, returned, M, ◌>>=◌, pure, Answers, call}

-- `m` returns from every trace, with a result and a trace of which `P` holds.
pub record Returns {ℓ} {A : Type ℓ} (m : M A) (P : Trace → Type 0) : Type ℓ where
  pub run : (t : Trace) → (a : A) × (t' : Trace) × (m t ≡ returned a t') × P t'

abbrev pub Anything : Trace → Type 0
Anything t = Unit

pub Returns-pure {ℓ} : {A : Type ℓ} (a : A) → Returns (pure a) Anything
unfolding pure
Returns-pure a = record { run = λ t. (a, t, refl, tt) }

pub Returns-call : (answers : Answers) (c : Call) → Returns (call answers c) Anything
unfolding call
Returns-call answers c = record { run = λ t. (answers t c, c ∷ t, refl, tt) }

pub Returns->>= {ℓ κ} :
    {A : Type ℓ} {B : Type κ} {m : M A} {f : A → M B} {P : Trace → Type 0}
    → Returns m Anything
    → ((a : A) → Returns (f a) P)
    → Returns (m >>= f) P
unfolding ◌>>=◌
Returns->>= h k = record {
  run = λ t.
      let (a, t', e, u) = h.run t in
      let (b, t'', e', p) = (k a).run t' in (b, t'', rw (e, ◌>>=◌) e', p);
}

pub Returns-elim {ℓ} :
    {A : Type ℓ} {P : Trace → Type 0} (b : Bool) {x y : M A}
    → Returns x P
    → Returns y P
    → Returns (elim b [ true ↦ x | false ↦ y ]) P
Returns-elim true h k = h
Returns-elim false h k = k

pub Returns-if {ℓ} :
    {A : Type ℓ} {P : Trace → Type 0} (b : Bool) {x y : M A}
    → Returns x P
    → Returns y P
    → Returns (if b then x else y) P
Returns-if true h k = h
Returns-if false h k = k

pub Returns-either {ℓ κ ν} :
    {A : Type ℓ} {B : Type κ} {C : Type ν} {P : Trace → Type 0} (s : B ⊎ C) {x : B → M A}
    {y : C → M A}
    → ((b : B) → Returns (x b) P)
    → ((c : C) → Returns (y c) P)
    → Returns (elim s [ inr c ↦ y c | inl b ↦ x b ]) P
Returns-either (inl b) h k = h b
Returns-either (inr c) h k = k c

-- A call whose answer is known to fail a test.
pub Returns-unless {ℓ} :
    {A : Type ℓ} {P : Trace → Type 0} (answers : Answers) (c : Call) (test : ℤ → Bool) (x y : M A)
    → ((t : Trace) → test (answers t c) ≡ false)
    → Returns y P
    → Returns (call answers c >>= λ a. elim (test a) [ true ↦ x | false ↦ y ]) P
unfolding ◌>>=◌ call
Returns-unless answers c test x y known h = record {
  run = λ t. let (a, t', e, p) = h.run (c ∷ t) in (a, t', rw (known t) e, p);
}

-- A result given at the end leaves the trace as it is.
pub Returns_then {ℓ κ} :
    {A : Type ℓ} {B : Type κ} {m : M A} (b : B) {P : Trace → Type 0}
    → Returns m P
    → Returns (m >>= λ _. pure b) P
unfolding ◌>>=◌ pure
Returns_then b h = record { run = λ t. let (a, t', e, p) = h.run t in (b, t', rw (e, ◌>>=◌), p) }
