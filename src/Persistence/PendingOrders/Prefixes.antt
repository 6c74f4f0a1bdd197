-- ===== src/Persistence/PendingOrders/Prefixes.antt =====
-- The staged orders that `clear_prefix` deletes: those of the leg, and with them those of any leg whose id
-- differs where the given id has an underscore.
use systematic_trading_valid.Common.{
  All, All-map, Bool, Bool-cases, [], arith, false, inl, inr, nat_eq, pair_eq, refl, true, ◌++◌,
  ◌==◌, ◌∷◌, ◌≡◌, ◌≢◌, ◌⊎◌,
}
use systematic_trading_valid.Common.Text.{Text, text, text_eq, upper}
use systematic_trading_valid.Persistence.PendingOrders.{
  Row, Table, any_suffix, clear_prefix, colon, delete_where, like, prefix_of,
}

-- Character by character the text is that of the pattern, or the pattern has an underscore.
abbrev pub Covers : Text → Text → Type 0
Covers [] [] = Unit
Covers [] (c ∷ t) = ⊥
Covers (p ∷ ps) [] = ⊥
Covers (p ∷ ps) (c ∷ t) = ((p ≡ c) ⊎ (p ≡ b'_')) × Covers ps t

pub Covers-self : (t : Text) → Covers t t
Covers-self [] = tt
Covers-self (c ∷ t) = (inl refl, Covers-self t)

pub Covers-append : (p q s t : Text) → Covers p s → Covers q t → Covers (p ++ q) (s ++ t)
Covers-append [] q [] t h k = k
Covers-append [] q (c ∷ s) t h k = absurd h
Covers-append (x ∷ p) q [] t h k = absurd h
Covers-append (x ∷ p) q (c ∷ s) t (h, hs) k = (h, Covers-append p q s t hs k)

any_suffix-head : (f : Text → Bool) (t : Text) → f t ≡ true → any_suffix f t ≡ true
any_suffix-head f [] h = h
any_suffix-head f (c ∷ t) h = rw h

any_suffix-end : (f : Text → Bool) (t : Text) → f [] ≡ true → any_suffix f t ≡ true
any_suffix-end f [] h = h
any_suffix-end f (c ∷ t) h = ground (arith, any_suffix-end f t h)

like-Covers : (p s rest : Text) → Covers p s → like (p ++ text "%") (s ++ rest) ≡ true
unfolding like
like-Covers [] [] rest h = any_suffix-end (like []) rest refl
like-Covers [] (c ∷ s) rest h = absurd h
like-Covers (x ∷ p) [] rest h = absurd h
like-Covers (x ∷ p) (c ∷ s) rest (h, hs) =
    let ih = like-Covers p s rest hs in
    elim (Bool-cases (x == b'%')) [
      | inl e ↦ rw e (ground (arith, any_suffix-head (like (p ++ text "%")) (s ++ rest) ih))
      | inr e ↦ rw e (ground arith)
    ]

deleted : (p : Row → Bool) (t : Table) → All (λ r. p r ≡ false) (delete_where p t)
deleted p [] = tt
deleted p (r ∷ t) = elim (Bool-cases (p r)) [
  | inl e ↦ rw e (deleted p t)
  | inr e ↦ rw e (e, deleted p t)
]

clash : (b : Bool) → b ≡ true → b ≡ false → ⊥
clash b h k = cc

-- `clear_prefix` for one leg leaves no order of any leg whose prefix the given one covers: of the leg's own
-- orders none is left, and none of a leg whose id has any other character in place of an underscore.
pub clear_prefix-Covers :
    (strategy other symbol : Text) (t : Table)
    → Covers strategy other
    → All
        (λ r. (rest : Text) → r.order_key ≢ prefix_of other symbol ++ rest)
        (clear_prefix true strategy symbol t).0
unfolding clear_prefix
clear_prefix-Covers strategy other symbol t h =
    let hits = λ (r : Row). like (prefix_of strategy symbol ++ text "%") r.order_key in
    let tail = Covers-self (colon ++ (upper symbol ++ colon)) in
    let covers = Covers-append strategy _ other _ h tail in
    All-map (λ r. hits r ≡ false) _ (delete_where hits t)
      (λ r missed rest e. clash _ (like-Covers _ _ rest covers) (rw e at missed)) (deleted hits t)
