-- ===== src/Engine/Flatten/Isolation.antt =====
-- In a flatten of the portfolio no fault of one symbol keeps another from being cancelled or flattened.
use mathlib.Core.List.{append-nil, append_assoc}
use systematic_trading_valid.Common.{
  Bool, Bool-cases, List, Result, [], ap, err, false, inl, inr, nat_eq, ok, pair_eq, refl, sym,
  then_do, true, ◌++◌, ◌∙◌, ◌∷◌, ◌≡◌,
}
use systematic_trading_valid.Common.Int.{leb_ℤ, pos, ℤ}
use systematic_trading_valid.Common.Text.{Text, text_eq, upper}
use systematic_trading_valid.Engine.Flatten.{
  Call, Fault, M, Outside, Position, World, await_cleared, cancel, do_await, do_cancel, do_flatten,
  do_force_cancel, flatten, force_cancel,
}
use systematic_trading_valid.Engine.Flatten.Portfolio.{
  Outcome, await_loop, cancel_loop, clear_symbol, flatten_loop, note_reply, side_of,
}
use systematic_trading_valid.Engine.Flatten.Calls.{
  Grows, Grows-nil, Grows-trans, attempts, attempts-append, cancels, cancels-append, due, found,
  raised,
}

-- Some calls were made, with no flatten among them, and with these cancels.
pub record Prepares {S : Type 0} (w v : World S) (symbols : List Text) : Type 0 where
  pub new : List Call
  pub grows : Grows w v new
  pub no_attempt : attempts new ≡ []
  pub cancelled : cancels new ≡ symbols

pub Prepares-trans :
    {S : Type 0} {w v u : World S} (ss ts : List Text)
    → Prepares w v ss
    → Prepares v u ts
    → Prepares w u (ss ++ ts)
Prepares-trans ss ts p q = record {
  new = p.new ++ q.new;
  grows = Grows-trans p.new q.new p.grows q.grows;
  no_attempt = attempts-append p.new q.new ∙ simp (p.no_attempt, q.no_attempt);
  cancelled = cancels-append p.new q.new ∙ simp (p.cancelled, q.cancelled);
}

module _ {S : Type 0} (o : Outside S) where
  pub cancel_loop-Prepares : (ss : List Text) (w : World S) → Prepares w (cancel_loop o ss w) ss
  unfolding cancel_loop do_cancel
  cancel_loop-Prepares [] w = record {
    new = [];
    grows = Grows-nil w;
    no_attempt = refl;
    cancelled = refl;
  }
  cancel_loop-Prepares (s ∷ ss) w =
      Prepares-trans (s ∷ []) ss
        (record {
          new = cancel s ∷ [];
          grows = record { calls = refl; writable = refl };
          no_attempt = refl;
          cancelled = refl;
        })
        (cancel_loop-Prepares ss (do_cancel o s w).0)

  do_await-Prepares : (s : Text) (w : World S) → Prepares w (do_await o s w).0 []
  unfolding do_await
  do_await-Prepares s w = record {
    new = await_cleared s ∷ [];
    grows = record { calls = refl; writable = refl };
    no_attempt = refl;
    cancelled = refl;
  }

  do_force_cancel-Prepares : (s : Text) (w : World S) → Prepares w (do_force_cancel o s w).0 []
  unfolding do_force_cancel
  do_force_cancel-Prepares s w = record {
    new = force_cancel s ∷ [];
    grows = record { calls = refl; writable = refl };
    no_attempt = refl;
    cancelled = refl;
  }

  then_do-Prepares :
      {A B : Type 0} (w : World S) (r : World S × Result Fault A) (f : A → M S B)
      → Prepares w r.0 []
      → ((a : A) (v : World S) → Prepares v (f a v).0 [])
      → Prepares w (then_do r f).0 []
  then_do-Prepares w (v, ok a) f h k = Prepares-trans [] [] h (k a v)
  then_do-Prepares w (v, err e) f h k = h

  clear_symbol-Prepares : (s : Text) (w : World S) → Prepares w (clear_symbol o s w).0 []
  clear_symbol-Prepares s w = then_do-Prepares w (do_await o s w) _ (do_await-Prepares s w) λ a v.
      elim (Bool-cases a.0) [
        | inl e ↦
            rw e (record { new = []; grows = Grows-nil v; no_attempt = refl; cancelled = refl })
        | inr e ↦ rw e (
            then_do-Prepares v (do_force_cancel o s v) (λ forced. do_await o s)
              (do_force_cancel-Prepares s v) (λ b u. do_await-Prepares s u))
      ]

  pub await_loop-Prepares : (ss : List Text) (w : World S) → Prepares w (await_loop o ss w) []
  unfolding await_loop
  await_loop-Prepares [] w = record {
    new = [];
    grows = Grows-nil w;
    no_attempt = refl;
    cancelled = refl;
  }
  await_loop-Prepares (s ∷ ss) w =
      Prepares-trans [] [] (clear_symbol-Prepares s w)
        (await_loop-Prepares ss (clear_symbol o s w).0)

-- The flattens that are due were attempted, and the outcome is that of their replies.
pub record Flattens {S : Type 0} (w v : World S) (ps : List Position) (out res : Outcome)
    : Type 0 where
  pub new : List Call
  pub grows : Grows w v new
  pub attempted : attempts new ≡ due ps
  pub no_cancel : cancels new ≡ []
  pub failed : res.failed ≡ out.failed ++ raised new
  pub flattened : res.flattened ≡ out.flattened ++ found new

Flattens-skip :
    {S : Type 0} {w v : World S} (p : Position) (ps : List Position) {out res : Outcome}
    → leb_ℤ p.qty (pos 0) ≡ true
    → Flattens w v ps out res
    → Flattens w v (p ∷ ps) out res
Flattens-skip p ps e f = record {
  new = f.new;
  grows = f.grows;
  attempted = rw e f.attempted;
  no_cancel = f.no_cancel;
  failed = f.failed;
  flattened = f.flattened;
}

raised-reply :
    (s side : Text) (q : ℤ) (r : Result Fault Bool) (cs : List Call) (out : Outcome)
    → (note_reply s r out).failed ++ raised cs ≡ out.failed ++ raised (flatten s side q r ∷ cs)
raised-reply s side q (ok true) cs out = refl
raised-reply s side q (ok false) cs out = refl
raised-reply s side q (err e) cs out = append_assoc out.failed (s ∷ []) (raised cs)

found-reply :
    (s side : Text) (q : ℤ) (r : Result Fault Bool) (cs : List Call) (out : Outcome)
    → (note_reply s r out).flattened ++ found cs ≡ out.flattened ++ found (flatten s side q r ∷ cs)
found-reply s side q (ok true) cs out = append_assoc out.flattened (s ∷ []) (found cs)
found-reply s side q (ok false) cs out = refl
found-reply s side q (err e) cs out = refl

Flattens-next :
    {S : Type 0} {w v u : World S} (p : Position) (ps : List Position) (r : Result Fault Bool)
    (out : Outcome) {res : Outcome}
    → leb_ℤ p.qty (pos 0) ≡ false
    → Grows w v (flatten (upper p.symbol) (side_of p) p.qty r ∷ [])
    → Flattens v u ps (note_reply (upper p.symbol) r out) res
    → Flattens w u (p ∷ ps) out res
Flattens-next p ps r out e g f = record {
  new = flatten (upper p.symbol) (side_of p) p.qty r ∷ f.new;
  grows = Grows-trans _ f.new g f.grows;
  attempted =
      rw e (
        ap (λ l. record { symbol = upper p.symbol; side = side_of p; qty = p.qty } ∷ l)
          f.attempted);
  no_cancel = f.no_cancel;
  failed = f.failed ∙ raised-reply (upper p.symbol) (side_of p) p.qty r f.new out;
  flattened = f.flattened ∙ found-reply (upper p.symbol) (side_of p) p.qty r f.new out;
}

abbrev pub no_outcome : Outcome
no_outcome = record { flattened = []; failed = [] }

module _ {S : Type 0} (o : Outside S) where
  pub flatten_loop-Flattens :
      (ps : List Position) (out : Outcome) (w : World S)
      → Flattens w (flatten_loop o ps out w).0 ps out (flatten_loop o ps out w).1
  unfolding flatten_loop do_flatten
  flatten_loop-Flattens [] out w = record {
    new = [];
    grows = Grows-nil w;
    attempted = refl;
    no_cancel = refl;
    failed = sym (append-nil out.failed);
    flattened = sym (append-nil out.flattened);
  }
  flatten_loop-Flattens (p ∷ ps) out w = elim (Bool-cases (leb_ℤ p.qty (pos 0))) [
    | inl e ↦ rw e (Flattens-skip p ps e (flatten_loop-Flattens ps out w))
    | inr e ↦
        let r = do_flatten o (upper p.symbol) (side_of p) p.qty w in
        rw e (
          Flattens-next p ps r.1 out e (record { calls = refl; writable = refl })
            (flatten_loop-Flattens ps (note_reply (upper p.symbol) r.1 out) r.0))
  ]
