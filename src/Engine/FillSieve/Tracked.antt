-- ===== src/Engine/FillSieve/Tracked.antt =====
-- What one method does to the tracked bundles: each stays under its own key, and a cycle ages it.
use systematic_trading_valid.Common.{
  Result, [], arith, beq_iff, beq_refl, err, false, nat_eq, ok, pair_eq, some, then_do, ℕ, ◌<◌,
  ◌==◌, ◌>>=◌, ◌∙◌, ◌≡◌,
}
use systematic_trading_valid.Common.Text.{Text, text_eq}
use systematic_trading_valid.Common.Dict.{Dict, erase, insert, lookup, lookup-erase, lookup-insert}
use systematic_trading_valid.Common.Keys.{Distinct, Distinct-erase, Distinct-insert}
use systematic_trading_valid.Engine.FillSieve.{Bundle, M, Sieve, cancel_threshold, key_of}
use systematic_trading_valid.Engine.FillSieve.Frames.{Keeps}

-- The tracked bundles: one for each key, which is that of its leg.
pub record IsTracked (d : Dict Text Bundle) : Type 0 where
  pub distinct : Distinct d
  pub keyed : (k : Text) (b : Bundle) → lookup k d ≡ some b → k ≡ key_of b

pub IsTracked-nil : IsTracked []
unfolding lookup
IsTracked-nil = record { distinct = tt; keyed = λ k b h. cc }

pub IsTracked-insert :
    (k : Text) (b : Bundle) (d : Dict Text Bundle)
    → k ≡ key_of b
    → IsTracked d
    → IsTracked (insert k b d)
IsTracked-insert k b d e i = record {
  distinct = Distinct-insert k b d i.distinct;
  keyed = λ j c h. ground (arith, lookup-insert k j b d, beq_iff k j, i.keyed j c);
}

pub IsTracked-erase : (k : Text) (d : Dict Text Bundle) → IsTracked d → IsTracked (erase k d)
IsTracked-erase k d i = record {
  distinct = Distinct-erase k d i.distinct;
  keyed = λ j c h. ground (arith, lookup-erase k j d, beq_iff k j, i.keyed j c);
}

-- A bundle that is still tracked after a cycle is older, and has not reached the threshold.
pub record IsAged (n : ℕ) (b : Bundle) : Type 0 where
  pub older : n < b.unresolved_cycles
  pub below : b.unresolved_cycles < cancel_threshold

-- What the advance of a bundle does: the others stay as they are.
pub record Advances (k : Text) (n : ℕ) (d d' : Dict Text Bundle) : Type 0 where
  pub tracked : IsTracked d'
  pub others : (j : Text) → (k == j) ≡ false → lookup j d' ≡ lookup j d
  pub aged : (b : Bundle) → lookup k d' ≡ some b → IsAged n b

pub Advances-erase :
    (k : Text) (n : ℕ) (d : Dict Text Bundle) → IsTracked d → Advances k n d (erase k d)
Advances-erase k n d i = record {
  tracked = IsTracked-erase k d i;
  others = λ j h. ground (arith, lookup-erase k j d);
  aged = λ b h. ground (arith, lookup-erase k k d, beq_refl k);
}

pub Advances-insert :
    (k : Text) (b : Bundle) (d : Dict Text Bundle) (n : ℕ)
    → k ≡ key_of b
    → IsAged n b
    → IsTracked d
    → Advances k n d (insert k b d)
Advances-insert k b d n e a i = record {
  tracked = IsTracked-insert k b d e i;
  others = λ j h. ground (arith, lookup-insert k j b d);
  aged =
      λ c h. let same : b ≡ c = ground (arith, lookup-insert k k b d, beq_refl k) in rw (← same) a;
}

pub Advances-after :
    (k : Text) (b : Bundle) (n : ℕ) (d d' : Dict Text Bundle)
    → Advances k n (insert k b d) d'
    → Advances k n d d'
Advances-after k b n d d' h = record {
  tracked = h.tracked;
  others = λ j e. h.others j e ∙ ground (arith, lookup-insert k j b d);
  aged = h.aged;
}

module _ {S : Type 0} where
  -- A run that ends well has advanced the bundle, and one that raises keeps the bundles tracked.
  abbrev pub Advanced : Text → ℕ → Dict Text Bundle → Sieve S × Result Text (Unit {0}) → Type 0
  Advanced k n d (w, ok a) = Advances k n d w.pending
  Advanced k n d (w, err e) = IsTracked w.pending

  -- Where the bundles stay the same first
  pub Advanced-then_do :
      {A : Type 0} (k : Text) (n : ℕ) (d : Dict Text Bundle) (m : M S A) (f : A → M S (Unit {0}))
      (w : Sieve S)
      → Keeps m
      → IsTracked w.pending
      → ((a : A) (v : Sieve S) → v.pending ≡ w.pending → Advanced k n d (f a v))
      → Advanced k n d ((m >>= f) w)
  Advanced-then_do {A} k n d m f w h i g = go (m w) (h.keeps w)
    where
      go : (r : Sieve S × Result Text A) → r.0.pending ≡ w.pending → Advanced k n d (then_do r f)
      go (v, ok a) e = g a v e
      go (v, err x) e = rw e i

  pub Advanced-after :
      (k : Text) (b : Bundle) (n : ℕ) (d : Dict Text Bundle) (r : Sieve S × Result Text (Unit {0}))
      → Advanced k n (insert k b d) r
      → Advanced k n d r
  Advanced-after k b n d (w, ok a) h = Advances-after k b n d w.pending h
  Advanced-after k b n d (w, err e) h = h
