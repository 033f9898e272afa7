-- ===== src/Base/Seal.antt =====
-- The same actions as in `Result`, sealed: a `do` block over them stays one, so that the rules of
-- `Keeps` can be applied to it.
use mathlib.Core.Path.{◌≡◌, refl}
use mathlib.Core.Bool.{Bool, true, false}
use native.Mathlib.Omega.{arith}
use noopsys.Base.Tests.{if◌then◌else◌}
use noopsys.Base.Result.{Error, Result, ok, err, Action}

module _ {S : Type 0} where
  infixl 5 ◌>>=◌ ◌>>◌
  unfoldable pub pure : {A : Type 0} → A → Action S A
  pure a s = ok (a, s)

  unfoldable pub throw : {A : Type 0} → Error → Action S A
  throw e s = err e

  unfoldable pub ◌>>=◌ : {A B : Type 0} → Action S A → (A → Action S B) → Action S B
  ◌>>=◌ m f s = elim (m s) [ ok (a, s') ↦ f a s' | err e ↦ err e ]

  unfoldable pub ◌>>◌ : {A B : Type 0} → Action S A → Action S B → Action S B
  ◌>>◌ m k s = elim (m s) [ ok (a, s') ↦ k s' | err e ↦ err e ]

  unfoldable pub gets : {A : Type 0} → (S → A) → Action S A
  gets f s = ok (f s, s)

  unfoldable pub modify : (S → S) → Action S (Unit {0})
  modify f s = ok (tt, f s)

  unfoldable pub throw_if : Bool → Error → Action S (Unit {0})
  throw_if b e s = if b then err e else ok (tt, s)

-- What an action that returns does to the state lies in `R`.
pub record Keeps {S A : Type 0} (R : S → S → Type 0) (m : Action S A) : Type 0 where
  pub holds : (s s' : S) (a : A) → m s ≡ ok (a, s') → R s s'

module _ {S : Type 0} (R : S → S → Type 0) (R_refl : (s : S) → R s s)
    (R_trans : (s t u : S) → R s t → R t u → R s u) where
  pub Keeps-pure : {A : Type 0} (a : A) → Keeps R (pure {S = S} a)
  unfolding pure
  Keeps-pure a = record { holds = λ s s' x h. let e : s ≡ s' = ground arith in subst_R s s' e }
    where
      subst_R : (s s' : S) → s ≡ s' → R s s'
      subst_R s s' e = rw (← e) (R_refl s)

  pub Keeps-throw : {A : Type 0} (e : Error) → Keeps {A = A} R (throw {S = S} e)
  unfolding throw
  Keeps-throw e = record { holds = λ s s' x h. absurd (cc) }

  pub Keeps-gets : {A : Type 0} (f : S → A) → Keeps R (gets f)
  unfolding gets
  Keeps-gets f = record { holds = λ s s' x h. let e : s ≡ s' = ground arith in subst_R s s' e }
    where
      subst_R : (s s' : S) → s ≡ s' → R s s'
      subst_R s s' e = rw (← e) (R_refl s)

  pub Keeps-modify : (f : S → S) → ((s : S) → R s (f s)) → Keeps R (modify f)
  unfolding modify
  Keeps-modify f h = record {
    holds = λ s s' x e. let g : f s ≡ s' = ground arith in rw (← g) (h s);
  }

  pub Keeps-throw_if : (b : Bool) (e : Error) → Keeps R (throw_if {S = S} b e)
  unfolding throw_if
  Keeps-throw_if true e = record { holds = λ s s' x h. absurd (cc) }
  Keeps-throw_if false e = record {
    holds = λ s s' x h. let g : s ≡ s' = ground arith in rw (← g) (R_refl s);
  }

  pub Keeps-if :
      {A : Type 0} (b : Bool) {m k : Action S A}
      → Keeps R m
      → Keeps R k
      → Keeps R (if b then m else k)
  Keeps-if true hm hk = hm
  Keeps-if false hm hk = hk

  pub Keeps->>= :
      {A B : Type 0} {m : Action S A} {f : A → Action S B}
      → Keeps R m
      → ((a : A) → Keeps R (f a))
      → Keeps R (m >>= f)
  unfolding ◌>>=◌
  Keeps->>= {A} {B} {m} {f} hm hf = record { holds = λ s u b h. go s u b (m s) refl h }
    where
      go : (s u : S) (b : B) (r : Result (A × S)) → m s ≡ r → (m >>= f) s ≡ ok (b, u) → R s u
      go s u b (ok (a, t)) e h =
          R_trans s t u (hm.holds s t a e) ((hf a).holds t u b (ground arith))
      go s u b (err x) e h = absurd (ground arith)

  pub Keeps->> :
      {A B : Type 0} {m : Action S A} {k : Action S B} → Keeps R m → Keeps R k → Keeps R (m >> k)
  unfolding ◌>>◌
  Keeps->> {A} {B} {m} {k} hm hk = record { holds = λ s u b h. go s u b (m s) refl h }
    where
      go : (s u : S) (b : B) (r : Result (A × S)) → m s ≡ r → (m >> k) s ≡ ok (b, u) → R s u
      go s u b (ok (a, t)) e h = R_trans s t u (hm.holds s t a e) (hk.holds t u b (ground arith))
      go s u b (err x) e h = absurd (ground arith)
