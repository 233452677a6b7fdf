-- ===== src/Chip/Rules.antt =====
-- What a computation on the chip guarantees.
use x_wizchip_io_library_dri.Base.{◌≡◌, refl, Option, none, some}
use x_wizchip_io_library_dri.Chip.{World, Outcome, done, hung, fault, M, ◌>>=◌, polling}

-- If the run returns, its result and state satisfy `P`; it does not fault; it waits for ever under `H`
-- only.
abbrev pub Meets : {A S : Type 0} → Type 0 → (A → World S → Type 0) → Outcome A S → Type 0
Meets H P (done a w) = P a w
Meets H P hung = H
Meets H P fault = ⊥

-- The run does not fault, and if it returns, its result and state satisfy `P`.
abbrev pub Safe : {A S : Type 0} → (A → World S → Type 0) → Outcome A S → Type 0
Safe P o = Meets (Unit {0}) P o

-- The run returns, with a result and a state that satisfy `P`.
abbrev pub Returns : {A S : Type 0} → (A → World S → Type 0) → Outcome A S → Type 0
Returns P o = Meets ⊥ P o

-- Through a bind, step by step.
pub Meets->>= :
    (H : Type 0) {A B S : Type 0} (P : B → World S → Type 0) (m : M S A) (f : A → M S B)
    (w : World S)
    → Meets H (λ a w'. Meets H P (f a w')) (m w)
    → Meets H P ((m >>= f) w)
Meets->>= H {A} {B} {S} P m f w h = go (m w) h
  where
    go :
        (o : Outcome A S)
        → Meets H (λ a w'. Meets H P (f a w')) o
        → Meets H P (elim o [ done a w' ↦ f a w' | hung ↦ hung | fault ↦ fault ])
    go (done a w') h = h
    go hung h = h
    go fault h = h

pub polling-Safe :
    {A S : Type 0} (P : A → World S → Type 0) (f : S → Option (A × S)) (w : World S)
    → ((a : A) (s : S) → f w.chip ≡ some (a, s) → P a (record w { chip = s }))
    → Safe P (polling f w)
polling-Safe {A} {S} P f w h = go (f w.chip) h
  where
    go :
        (o : Option (A × S))
        → ((a : A) (s : S) → o ≡ some (a, s) → P a (record w { chip = s }))
        → Safe P (elim o [ none ↦ hung | some (a, s) ↦ done a (record w { chip = s }) ])
    go none k = tt
    go (some (a, s)) k = k a s refl

-- A weaker claim follows.
pub Meets-mono :
    (H : Type 0) {A S : Type 0} (P Q : A → World S → Type 0) (o : Outcome A S)
    → ((a : A) (w : World S) → P a w → Q a w)
    → Meets H P o
    → Meets H Q o
Meets-mono H P Q (done a w) h p = h a w p
Meets-mono H P Q hung h p = p
Meets-mono H P Q fault h p = p

-- A loop that ends.
pub polling-Returns :
    (H : Type 0) {A S : Type 0} (P : A → World S → Type 0) (f : S → Option (A × S)) (w : World S)
    (a : A) (s : S)
    → f w.chip ≡ some (a, s)
    → P a (record w { chip = s })
    → Meets H P (polling f w)
polling-Returns H P f w a s e p = rw (e, Meets) p

-- What holds of a run that returns, holds of a run that is known to return.
pub Safe-Returns :
    {A S : Type 0} (P Q : A → World S → Type 0) (o : Outcome A S)
    → Safe P o
    → Returns Q o
    → Returns (λ a w. P a w × Q a w) o
Safe-Returns P Q (done a w) p q = (p, q)
Safe-Returns P Q hung p q = elim q [ ]
Safe-Returns P Q fault p q = elim p [ ]
