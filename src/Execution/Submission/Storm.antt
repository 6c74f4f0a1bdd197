-- ===== src/Execution/Submission/Storm.antt =====
-- A storm of submissions gives one order for each id.
use systematic_trading_valid.Common.{
  Bool, Bool-cases, List, Option, Result, [], arith, err, false, if◌then◌else◌, inl, inr, is_some,
  nat_eq, none, not, ok, pair_eq, refl, some, sym, true, ℕ, ◌&&◌, ◌+◌, ◌==◌, ◌∙◌, ◌∷◌, ◌≡◌, ◌≤◌,
}
use systematic_trading_valid.Common.Text.{Text, text_beq_iff, text_eq}
use systematic_trading_valid.Execution.Submission.{
  Broker, BrokerOrder, Call, Intent, Refusal, SubmitResult, guard_allows, preempts, submit,
  submit_on,
}

abbrev pub is_sent : Result Refusal SubmitResult → Bool
is_sent (ok r) = not r.was_noop
is_sent (err e) = false

one_more :
    (sent before after : Bool) (n : ℕ)
    → after ≡ (if sent then true else before)
    → (sent ≡ true → before ≡ false)
    → n ≤ (if after then 0 else 1)
    → (if sent then 1 else 0) + n ≤ (if before then 0 else 1)
one_more true true after n e h k = cc (h refl)
one_more true false after n e h k = grind (arith, e, k)
one_more false before after n e h k = grind (arith, e, k)

module _ {S : Type 0} {id_of : Intent → Text} (b : Broker S id_of) where
  -- The submissions for one id that reach the broker.
  abbrev pub sends : Text → S → List Call → ℕ
  sends id s [] = 0
  sends id s (c ∷ cs) =
      let r = submit b s c in
      (if (id_of c.intent == id) && is_sent r.1 then 1 else 0) + sends id r.0 cs

  -- What one submission leaves, on what the broker found under the id.
  pub record Settles (s : S) (c : Call) (r : S × Result Refusal SubmitResult) : Type 0 where
    pub unsent : is_sent r.1 ≡ false → r.0 ≡ s
    pub sent : is_sent r.1 ≡ true → r.0 ≡ (b.submit s c.intent).0
    pub clear : is_sent r.1 ≡ true → b.get_by_client_order_id s (id_of c.intent) ≡ none
    pub allowed : is_sent r.1 ≡ true → guard_allows c.entry_guard ≡ true
    pub not_preempted : is_sent r.1 ≡ true → preempts c.preempt_check ≡ false

  settle_on :
      (o : Option BrokerOrder) (s : S) (c : Call)
      → b.get_by_client_order_id s (id_of c.intent) ≡ o
      → Settles s c (submit_on b o s c)
  settle_on (some o) s c e = record {
    unsent = λ h. refl;
    sent = λ h. cc;
    clear = λ h. cc;
    allowed = λ h. cc;
    not_preempted = λ h. cc;
  }
  settle_on none s c e = record {
    unsent = λ h. ground (arith, h);
    sent = λ h. ground (arith, h);
    clear = λ h. e;
    allowed = λ h. ground (arith, h);
    not_preempted = λ h. ground (arith, h);
  }

  -- A submission that does not reach the broker, because its id is known, the guard blocks it or it is
  -- preempted, leaves the broker as it was; one that does reach it found no order under its id, passed
  -- the guard and was not preempted.
  pub submit-Settles : (s : S) (c : Call) → Settles s c (submit b s c)
  unfolding submit
  submit-Settles s c = settle_on (b.get_by_client_order_id s (id_of c.intent)) s c refl

  -- The broker has an order under the id.
  abbrev known : Text → S → Bool
  known id s = is_some (b.get_by_client_order_id s id)

  known-at :
      (s : S) (id : Text) (o : Option BrokerOrder)
      → b.get_by_client_order_id s id ≡ o
      → known id s ≡ is_some o
  known-at s id o e = rw e refl

  same_state : (id : Text) (s t : S) → s ≡ t → known id s ≡ known id t
  same_state id s t e = rw e refl

  known-submitted :
      (s : S) (i : Intent) (id : Text) → id_of i ≡ id → known id (b.submit s i).0 ≡ true
  known-submitted s i id e = rw (sym e) (known-at _ (id_of i) _ (b.found s i))

  known-other :
      (s : S) (i : Intent) (id : Text)
      → (id_of i == id) ≡ false
      → known id (b.submit s i).0 ≡ known id s
  known-other s i id e = known-at _ id _ (b.others s i id e)

  unknown-before :
      (s : S) (c : Call) (id : Text)
      → id_of c.intent ≡ id
      → is_sent (submit b s c).1 ≡ true
      → known id s ≡ false
  unknown-before s c id e h = rw (sym e) (known-at s _ _ ((submit-Settles s c).clear h))

  -- A known id stays known, and a sent one becomes known.
  known-after :
      (s : S) (c : Call) (id : Text)
      → known id (submit b s c).0
        ≡ (if (id_of c.intent == id) && is_sent (submit b s c).1 then true else known id s)
  known-after s c id =
      let r = submit-Settles s c in
      elim (Bool-cases (is_sent (submit b s c).1)) [
        | inl h ↦ elim (Bool-cases (id_of c.intent == id)) [
          | inl e ↦
              simp (e, h)
                (same_state id _ _ (r.sent h)
                  ∙ known-submitted s c.intent id ((text_beq_iff _ id).0 e))
          | inr e ↦ simp (e, h) (same_state id _ _ (r.sent h) ∙ known-other s c.intent id e)
        ]
        | inr h ↦ ground (arith, h, same_state id _ _ (r.unsent h))
      ]

  sends-le : (id : Text) (s : S) (cs : List Call) → sends id s cs ≤ (if known id s then 0 else 1)
  sends-le id s [] = omega arith
  sends-le id s (c ∷ cs) =
      one_more ((id_of c.intent == id) && is_sent (submit b s c).1) (known id s)
        (known id (submit b s c).0) (sends id (submit b s c).0 cs) (known-after s c id)
        (λ h.
          unknown-before s c id ((text_beq_iff (id_of c.intent) id).0 (ground (arith, h)))
            (ground (arith, h)))
        (sends-le id (submit b s c).0 cs)

  -- In any sequence of submissions, of any intents and with any answers of their guards, no more than
  -- one submission for an id reaches the broker, and none if the broker had an order under it.
  pub one_order_per_id :
      (id : Text) (s : S) (cs : List Call)
      → sends id s cs ≤ (if is_some (b.get_by_client_order_id s id) then 0 else 1)
  one_order_per_id id s cs = sends-le id s cs
