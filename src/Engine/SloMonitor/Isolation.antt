-- ===== src/Engine/SloMonitor/Isolation.antt =====
-- A leg is graded by its own feed.
use systematic_trading_valid.Common.{
  All, Bool, Bool-cases, List, Option, [], beq_refl, false, inl, inr, nat_eq, none, not, pair_eq,
  refl, some, ℕ, ◌&&◌, ◌==◌, ◌∙◌, ◌∷◌, ◌≡◌,
}
use systematic_trading_valid.Common.Text.{Text, text_eq, upper}
use systematic_trading_valid.Common.Dict.{Dict, lookup, lookup-insert}
use systematic_trading_valid.Core.MarketCalendar.{is_within_rth}
use systematic_trading_valid.Engine.Degradation.{mode_eq}
use systematic_trading_valid.Engine.SloMonitor.{
  Monitor, is_market_dormant, nbbo_success_rate, note_nbbo_fetch,
}
use systematic_trading_valid.Engine.SloMonitor.Integrity.{
  Payload, evaluate_data_integrity, measure, note_reported,
}

-- A fetch of a quote that was noted
pub record Note : Type 0 where
  pub success : Bool
  pub symbol : Text
  pub is_crypto : Bool
  pub reference : ℕ

unfoldable pub note_all : Monitor → List Note → Monitor
note_all m [] = m
note_all m (n ∷ ns) = note_all (note_nbbo_fetch m n.success n.symbol n.is_crypto n.reference) ns

-- The two monitors differ in the attempts at most, and not in those of the symbol.
record Alike (symbol : Text) (m n : Monitor) : Type 0 where
  same_zone : n ≡ record m { nbbo_attempts = n.nbbo_attempts }
  same_attempts : lookup (upper symbol) n.nbbo_attempts ≡ lookup (upper symbol) m.nbbo_attempts

Alike-note :
    (symbol other : Text) (m : Monitor) (s c : Bool) (t : ℕ)
    → (upper other == upper symbol) ≡ false
    → Alike symbol m (note_nbbo_fetch m s other c t)
unfolding note_nbbo_fetch
Alike-note symbol other m s c t h =
    elim (Bool-cases (not c && not (is_within_rth m.zone m.calendar t))) [
      | inl e ↦ rw e (record { same_zone = refl; same_attempts = refl })
      | inr e ↦ rw e (record { same_zone = refl; same_attempts = simp (lookup-insert, h) })
    ]

attempts_alike :
    (o : Option Bool) (m : Monitor) (d : Dict Text (List Bool)) (symbol : Text) (c : Bool) (t : ℕ)
    → lookup (upper symbol) d ≡ lookup (upper symbol) m.nbbo_attempts
    → nbbo_success_rate (note_reported o (record m { nbbo_attempts = d }) symbol c t) symbol
      ≡ nbbo_success_rate (note_reported o m symbol c t) symbol
unfolding nbbo_success_rate note_nbbo_fetch
attempts_alike none m d symbol c t e = simp e
attempts_alike (some s) m d symbol c t e =
    elim (Bool-cases (not c && not (is_within_rth m.zone m.calendar t))) [
      | inl f ↦ simp (f, e)
      | inr f ↦ simp (f, e, lookup-insert, beq_refl)
    ]

verdict_alike :
    (m : Monitor) (d : Dict Text (List Bool)) (p : Payload)
    → lookup (upper p.symbol) d ≡ lookup (upper p.symbol) m.nbbo_attempts
    → (evaluate_data_integrity (record m { nbbo_attempts = d }) p).1
      ≡ (evaluate_data_integrity m p).1
unfolding evaluate_data_integrity measure is_market_dormant
verdict_alike m d p e = elim (Bool-cases (is_market_dormant m p.is_crypto p.exchange_reference)) [
  | inl f ↦ simp f
  | inr f ↦
      simp (f, attempts_alike p.nbbo_fetch_success m d p.symbol p.is_crypto p.exchange_reference e)
]

Alike-verdict :
    (m n : Monitor) (p : Payload)
    → Alike p.symbol m n
    → (evaluate_data_integrity n p).1 ≡ (evaluate_data_integrity m p).1
Alike-verdict m n p a = rw a.same_zone (verdict_alike m n.nbbo_attempts p a.same_attempts)

-- A leg's verdict does not change with the quotes that are fetched, or not, for other symbols.
pub verdict_isolated :
    (m : Monitor) (p : Payload) (ns : List Note)
    → All (λ n. (upper n.symbol == upper p.symbol) ≡ false) ns
    → (evaluate_data_integrity (note_all m ns) p).1 ≡ (evaluate_data_integrity m p).1
unfolding note_all
verdict_isolated m p [] h = refl
verdict_isolated m p (n ∷ ns) (h, hs) =
    let next = note_nbbo_fetch m n.success n.symbol n.is_crypto n.reference in
    verdict_isolated next p ns hs
    ∙ Alike-verdict m next p (Alike-note p.symbol n.symbol m n.success n.is_crypto n.reference h)
