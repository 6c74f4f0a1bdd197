-- ===== src/Engine/CapitalLedger/Cycle.antt =====
-- Whole cycles of reservations.
use systematic_trading_valid.Common.{
  Bool-cases, List, Option, [], ap, arith, inl, inr, is_some, nat_eq, none, pair_eq, refl, some,
  sym, ℕ, ◌∙◌, ◌∷◌, ◌≡◌,
}
use systematic_trading_valid.Common.Int.{int_laws, max_ℤ, pos, ℤ, ◌+ℤ◌, ◌-ℤ◌, ◌≤ℤ◌}
use systematic_trading_valid.Common.Text.{text_eq}
use systematic_trading_valid.Common.Dict.{Dict}
use systematic_trading_valid.Engine.CapitalLedger.{
  Account, Ledger, available_buying_power, begin_cycle, grant, left_of, or_zero, release,
  release_all, reserve, reserved_for, sync_from_broker, without_prior,
}
use systematic_trading_valid.Engine.CapitalLedger.Budget.{
  AllNonneg-erase, AllNonneg-insert, IsValid, IsWithin, KeysOnce-erase, KeysOnce-insert, budget,
  reserved_for-le-sum, reserved_for-nonneg, sum-erase, sum-insert,
}

move_total : (x p t i r : ℤ) → x +ℤ p ≡ t → i +ℤ p ≡ t +ℤ r → x +ℤ r ≡ i
move_total x p t i r h k = grind int_laws

drop_total : (x p t i : ℤ) → x +ℤ p ≡ t → i +ℤ p ≡ t → x ≡ i
drop_total x p t i h k = grind int_laws

grant_nonneg : (l : Ledger) (s : ℕ) (amount : ℤ) → pos 0 ≤ℤ grant l s amount
unfolding grant available_buying_power
grant_nonneg l s amount = ground arith

grant-le-left :
    (l : Ledger) (s : ℕ) (amount : ℤ)
    → grant l s amount ≤ℤ left_of l.snapshot (without_prior l s).reserved_total
unfolding grant
grant-le-left l s amount = ground arith

room :
    (x b g top : ℤ)
    → pos 0 ≤ℤ x
    → x ≤ℤ top
    → or_zero b ≤ℤ top
    → pos 0 ≤ℤ g
    → g ≤ℤ or_zero (b -ℤ x)
    → x +ℤ g ≤ℤ top
room x b g top h k c n r = grind int_laws

-- A grant is cut to what the snapshot has left: it adds nothing to a total that is over the budget.
fits_top :
    (snapshot : Option Account) (x g top : ℤ)
    → pos 0 ≤ℤ x
    → x ≤ℤ top
    → budget snapshot ≤ℤ top
    → pos 0 ≤ℤ g
    → g ≤ℤ left_of snapshot x
    → x +ℤ g ≤ℤ top
fits_top none x g top h k b n r = omega int_laws
fits_top (some a) x g top h k b n r = room x a.buying_power g top h k b n r

zero-le-budget : (snapshot : Option Account) → pos 0 ≤ℤ budget snapshot
zero-le-budget none = omega arith
zero-le-budget (some a) = ground arith

without_prior-nonneg : (l : Ledger) (s : ℕ) → pos 0 ≤ℤ (without_prior l s).reserved_total
without_prior-nonneg l s = ground arith

module _ (l : Ledger) (s : ℕ) (h : IsValid l) where
  -- The prior reservation is part of the total, so taking it off leaves the others.
  total-without_prior :
      (without_prior l s).reserved_total +ℤ reserved_for s l.reserved_by_strategy ≡ l.reserved_total
  total-without_prior =
      let d = l.reserved_by_strategy in
      grind (int_laws, h.totals, reserved_for-le-sum s d h.once h.nonneg)

  release-IsValid : IsValid (release l s).0
  unfolding release
  release-IsValid =
      let d = l.reserved_by_strategy in
      record {
        totals =
            drop_total _ (reserved_for s d) l.reserved_total _ total-without_prior
              (sum-erase s d h.once ∙ sym h.totals);
        nonneg = AllNonneg-erase s d h.nonneg;
        once = KeysOnce-erase s d h.once;
      }

  reserve-IsValid : (amount : ℤ) → IsValid (reserve l s amount).0
  unfolding reserve
  reserve-IsValid amount = elim (Bool-cases (is_some l.snapshot)) [
    | inl e ↦
        let d = l.reserved_by_strategy in
        let r = grant l s amount in
        simp e (record {
          totals =
              move_total _ (reserved_for s d) l.reserved_total _ r total-without_prior
                (sum-insert s r d h.once ∙ ap (λ t. t +ℤ r) (sym h.totals));
          nonneg = AllNonneg-insert s r d (grant_nonneg l s amount) h.nonneg;
          once = KeysOnce-insert s r d h.once;
        })
    | inr e ↦ simp e h
  ]

  without_prior-le : (without_prior l s).reserved_total ≤ℤ l.reserved_total
  without_prior-le =
      let d = l.reserved_by_strategy in
      grind (int_laws, total-without_prior, reserved_for-nonneg s d h.nonneg)

  -- With its new grant, the total fits the limit that it fitted before, if the snapshot's budget does.
  reserve-IsWithin :
      (top amount : ℤ)
      → budget l.snapshot ≤ℤ top
      → IsWithin top l
      → IsWithin top (reserve l s amount).0
  unfolding reserve
  reserve-IsWithin top amount b w = elim (Bool-cases (is_some l.snapshot)) [
    | inl e ↦ simp e (
        fits_top l.snapshot (without_prior l s).reserved_total (grant l s amount) top
          (without_prior-nonneg l s) (omega (arith, without_prior-le, w)) b
          (grant_nonneg l s amount) (grant-le-left l s amount))
    | inr e ↦ simp e w
  ]

  release-IsWithin : (top : ℤ) → IsWithin top l → IsWithin top (release l s).0
  unfolding release
  release-IsWithin top w = omega (arith, without_prior-le, w)

abbrev ledger_of : Option Account → ℤ → Dict ℕ ℤ → Ledger
ledger_of o total d = record { snapshot = o; reserved_total = total; reserved_by_strategy = d }

-- The calls of one cycle, between `begin_cycle` and the next.
pub data Call : Type 0 where
  reserve_for : ℕ → ℤ → Call
  release_for : ℕ → Call
  drop_all : Call
  sync : Account → Option ℕ → Call

unfoldable pub apply : Ledger → Call → Ledger
apply l (reserve_for s amount) = (reserve l s amount).0
apply l (release_for s) = (release l s).0
apply l drop_all = release_all l
apply l (sync account s) = sync_from_broker l account s

unfoldable pub run : Ledger → List Call → Ledger
run l [] = l
run l (c ∷ cs) = run (apply l c) cs

-- The highest budget among the snapshots that the reservations of a ledger were made under: `top` so far, where
-- a call that drops every reservation starts again.
abbrev pub top_after : Ledger → ℤ → Call → ℤ
top_after l top (reserve_for s amount) = top
top_after l top (release_for s) = top
top_after l top drop_all = budget l.snapshot
top_after l top (sync account none) = or_zero account.buying_power
top_after l top (sync account (some s)) = max_ℤ top (or_zero account.buying_power)

abbrev pub highest_budget : Ledger → ℤ → List Call → ℤ
highest_budget l top [] = top
highest_budget l top (c ∷ cs) = highest_budget (apply l c) (top_after l top c) cs

pub record IsSound (top : ℤ) (l : Ledger) : Type 0 where
  pub valid : IsValid l
  pub within : IsWithin top l

-- The limit is not below the budget of the present snapshot.
record Stays (top : ℤ) (l : Ledger) : Type 0 where
  sound : IsSound top l
  covers_budget : budget l.snapshot ≤ℤ top

le-max : (x a b : ℤ) → x ≤ℤ a → x ≤ℤ max_ℤ a b
le-max x a b h = ground arith

self-le-max : (a b : ℤ) → b ≤ℤ max_ℤ a b
self-le-max a b = ground arith

self_le : (a : ℤ) → a ≤ℤ a
self_le a = omega arith

reserve-snapshot : (l : Ledger) (s : ℕ) (amount : ℤ) → (reserve l s amount).0.snapshot ≡ l.snapshot
unfolding reserve
reserve-snapshot l s amount = ground arith

emptied : (o : Option Account) → Stays (budget o) (ledger_of o (pos 0) [])
emptied o = record {
  sound = record {
    valid = record { totals = refl; nonneg = tt; once = tt };
    within = zero-le-budget o;
  };
  covers_budget = self_le (budget o);
}

apply-Stays :
    (l : Ledger) (top : ℤ) (c : Call) → Stays top l → Stays (top_after l top c) (apply l c)
unfolding apply release_all sync_from_broker release
apply-Stays l top (reserve_for s amount) h = record {
  sound = record {
    valid = reserve-IsValid l s h.sound.valid amount;
    within = reserve-IsWithin l s h.sound.valid top amount h.covers_budget h.sound.within;
  };
  covers_budget = rw (reserve-snapshot l s amount) h.covers_budget;
}
apply-Stays l top (release_for s) h = record {
  sound = record {
    valid = release-IsValid l s h.sound.valid;
    within = release-IsWithin l s h.sound.valid top h.sound.within;
  };
  covers_budget = h.covers_budget;
}
apply-Stays l top drop_all h = emptied l.snapshot
apply-Stays l top (sync account none) h = emptied (some account)
apply-Stays l top (sync account (some s)) h =
    let renewed : Ledger = record l { snapshot = some account } in
    let valid : IsValid renewed = record {
      totals = h.sound.valid.totals;
      nonneg = h.sound.valid.nonneg;
      once = h.sound.valid.once;
    } in
    record {
      sound = record {
        valid = release-IsValid renewed s valid;
        within =
            release-IsWithin renewed s valid _
              (le-max l.reserved_total top (or_zero account.buying_power) h.sound.within);
      };
      covers_budget = self-le-max top (or_zero account.buying_power);
    }

run-Stays :
    (l : Ledger) (top : ℤ) (cs : List Call)
    → Stays top l
    → Stays (highest_budget l top cs) (run l cs)
unfolding run
run-Stays l top [] h = h
run-Stays l top (c ∷ cs) h = run-Stays (apply l c) (top_after l top c) cs (apply-Stays l top c h)

-- After `begin_cycle` and any calls of the cycle, broker syncs included: the reserved total is the sum of the
-- reservations, each of which is zero or more and belongs to one strategy, and it does not exceed the
-- highest buying power (or zero, where that is negative) among the snapshots since the reservations
-- were last dropped as a whole. With no sync that is the buying power of the cycle's own snapshot.
pub cycle-IsSound :
    (l : Ledger) (account : Account) (cs : List Call)
    → let opened = begin_cycle l account in
      IsSound (highest_budget opened (or_zero account.buying_power) cs) (run opened cs)
unfolding begin_cycle
cycle-IsSound l account cs = (run-Stays _ _ cs (emptied (some account))).sound
