-- ===== src/Gen/Client/Laws.antt =====
-- Chains of calls in api/gen/client.gen.go that return at the first error.
use fleetcontrol.Common.{◌≡◌, refl, Result, ok, err, arith, proceed, lift}
use fleetcontrol.Gen.Client.{and_then}

pub and_then-eq-ok :
    {A B : Type 0} (r : Result A) (f : A → Result B) (b : B)
    → and_then r f ≡ ok b
    → (a : A) × (r ≡ ok a) × (f a ≡ ok b)
and_then-eq-ok (ok a) f b h = (a, refl, h)
and_then-eq-ok (err e) f b h = absurd (ground arith)

-- Reading a response does not touch the state.
pub proceed-lift :
    {S A B : Type 0} (r : Result A) (f : A → Result B) (s : S)
    → (proceed r (λ a. lift (f a)) s).1 ≡ s
proceed-lift (ok a) f s = refl
proceed-lift (err e) f s = refl
