-- ===== src/Common/Outcomes.antt =====
-- A Python call that may raise: its result, or the exception's kind.
pub data Result {ℓ κ} (E : Type ℓ) (A : Type κ) : Type (ℓ ⊔ κ) where
  ok : A → Result E A
  err : E → Result E A

-- A method that may raise, on a state: what it changed before it raised stays changed.
abbrev pub Method {ℓ} : Type ℓ → Type ℓ → Type ℓ → Type ℓ
Method W E A = W → W × Result E A

module _ {ℓ} {W E : Type ℓ} where
  abbrev pub then_do : {A B : Type ℓ} → W × Result E A → (A → Method W E B) → W × Result E B
  then_do (w, ok a) f = f a w
  then_do (w, err e) f = (w, err e)

  infixl 5 ◌>>=◌
  abbrev pub ◌>>=◌ : {A B : Type ℓ} → Method W E A → (A → Method W E B) → Method W E B
  ◌>>=◌ m f w = then_do (m w) f

  abbrev pub pure : {A : Type ℓ} → A → Method W E A
  pure a w = (w, ok a)
