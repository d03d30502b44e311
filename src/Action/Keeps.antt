-- ===== src/Action/Keeps.antt =====
-- An invariant of the world through a piece of code, whatever the environment does.
use sakura_intern_team_e.Prelude.{◌≡◌, refl, sym, subst, Bool, true, false, if◌then◌else◌}
use sakura_intern_team_e.Action.{
  World, Result, ok, err, panic, Act, pure, raise, fail, ◌>>=◌, try, or_else, then_do, caught,
  handled,
}

-- Code keeps an invariant if it holds afterwards whenever it held before, on every path: a value,
-- an early return or a panic.
pub record Keeps {E A : Type 0} (I : World → Type 0) (m : Act E A) : Type 0 where
  pub at : (w : World) → I w → I (m w).1

module _ {E A : Type 0} {I : World → Type 0} where
  pub Keeps-pure : (a : A) → Keeps I (pure {E = E} a)
  unfolding pure
  Keeps-pure a = record { at = λ w h. h }

  pub Keeps-raise : (e : E) → Keeps I (raise {A = A} e)
  unfolding raise
  Keeps-raise e = record { at = λ w h. h }

  pub Keeps-fail : Keeps I (fail {E = E} {A = A})
  unfolding fail
  Keeps-fail = record { at = λ w h. h }

  pub Keeps-if : (b : Bool) (m n : Act E A) → Keeps I m → Keeps I n → Keeps I (if b then m else n)
  Keeps-if true m n km kn = km
  Keeps-if false m n km kn = kn

  -- The branches may use the outcome of the test.
  pub Keeps-if_known :
      (b : Bool) (m n : Act E A)
      → (b ≡ true → Keeps I m)
      → (b ≡ false → Keeps I n)
      → Keeps I (if b then m else n)
  Keeps-if_known true m n km kn = km refl
  Keeps-if_known false m n km kn = kn refl

caught-world : {E A : Type 0} (F : Type 0) (r : Result E A × World) → (caught {F = F} r).1 ≡ r.1
caught-world F (ok a, w) = refl
caught-world F (err e, w) = refl
caught-world F (panic, w) = refl

module _ {E F A : Type 0} {I : World → Type 0} where
  pub Keeps-try : (m : Act E A) → Keeps I m → Keeps I (try {F = F} m)
  unfolding try
  Keeps-try m k = record { at = λ w h. subst I (sym (caught-world F (m w))) (k.at w h) }

  handled-Keeps :
      (r : Result E A × World) (f : E → Act F A)
      → I r.1
      → ((e : E) → Keeps I (f e))
      → I (handled r f).1
  handled-Keeps (ok a, w) f h k = h
  handled-Keeps (err e, w) f h k = (k e).at w h
  handled-Keeps (panic, w) f h k = h

  pub Keeps-or_else :
      (m : Act E A) (f : E → Act F A)
      → Keeps I m
      → ((e : E) → Keeps I (f e))
      → Keeps I (or_else m f)
  unfolding or_else
  Keeps-or_else m f k kf = record { at = λ w h. handled-Keeps (m w) f (k.at w h) kf }

module _ {E A B : Type 0} {I : World → Type 0} where
  then_do-Keeps :
      (r : Result E A × World) (f : A → Act E B)
      → I r.1
      → ((a : A) → Keeps I (f a))
      → I (then_do r f).1
  then_do-Keeps (ok a, w) f h k = (k a).at w h
  then_do-Keeps (err e, w) f h k = h
  then_do-Keeps (panic, w) f h k = h

  pub Keeps-bind :
      (m : Act E A) (f : A → Act E B) → Keeps I m → ((a : A) → Keeps I (f a)) → Keeps I (m >>= f)
  unfolding ◌>>=◌
  Keeps-bind m f km kf = record { at = λ w h. then_do-Keeps (m w) f (km.at w h) kf }

pub ruleset keeps_rules =
    (Keeps-pure, Keeps-raise, Keeps-fail, Keeps-if, Keeps-try, Keeps-or_else, Keeps-bind)
