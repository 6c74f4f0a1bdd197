-- ===== src/Engine/Flatten/Calls.antt =====
-- The calls that a run adds, and what they show.
use mathlib.Core.List.{append-nil, append_assoc}
use systematic_trading_valid.Common.{
  List, Result, [], ap, err, false, if◌then◌else◌, nat_eq, ok, pair_eq, refl, sym, true, ◌++◌, ◌∙◌,
  ◌∷◌, ◌≡◌,
}
use systematic_trading_valid.Common.Int.{leb_ℤ, pos, ℤ}
use systematic_trading_valid.Common.Text.{Text, text_eq, upper}
use systematic_trading_valid.Engine.Flatten.{
  Call, Fault, Position, World, await_cleared, cancel, close_all, flatten, force_cancel,
}
use systematic_trading_valid.Engine.Flatten.Portfolio.{FlattenResult, side_of}

-- The flattens among the calls, with their replies
pub record Attempt : Type 0 where
  pub symbol : Text
  pub side : Text
  pub qty : ℤ

abbrev pub attempts : List Call → List Attempt
attempts [] = []
attempts (flatten s side q r ∷ cs) = record { symbol = s; side = side; qty = q } ∷ attempts cs
attempts (cancel s ∷ cs) = attempts cs
attempts (force_cancel s ∷ cs) = attempts cs
attempts (await_cleared s ∷ cs) = attempts cs
attempts (close_all ∷ cs) = attempts cs

-- The symbols of the flattens that raised
abbrev pub raised : List Call → List Text
raised [] = []
raised (flatten s side q (err e) ∷ cs) = s ∷ raised cs
raised (flatten s side q (ok b) ∷ cs) = raised cs
raised (cancel s ∷ cs) = raised cs
raised (force_cancel s ∷ cs) = raised cs
raised (await_cleared s ∷ cs) = raised cs
raised (close_all ∷ cs) = raised cs

-- The symbols of the flattens that found a position
abbrev pub found : List Call → List Text
found [] = []
found (flatten s side q (err e) ∷ cs) = found cs
found (flatten s side q (ok true) ∷ cs) = s ∷ found cs
found (flatten s side q (ok false) ∷ cs) = found cs
found (cancel s ∷ cs) = found cs
found (force_cancel s ∷ cs) = found cs
found (await_cleared s ∷ cs) = found cs
found (close_all ∷ cs) = found cs

abbrev pub cancels : List Call → List Text
cancels [] = []
cancels (cancel s ∷ cs) = s ∷ cancels cs
cancels (flatten s side q r ∷ cs) = cancels cs
cancels (force_cancel s ∷ cs) = cancels cs
cancels (await_cleared s ∷ cs) = cancels cs
cancels (close_all ∷ cs) = cancels cs

-- The flattens that a list of positions is due: one for each whose quantity is above zero
abbrev pub due : List Position → List Attempt
due [] = []
due (p ∷ ps) =
    let rest = due ps in
    if leb_ℤ p.qty (pos 0)
    then rest
    else record { symbol = upper p.symbol; side = side_of p; qty = p.qty } ∷ rest

-- The world after a run has the calls made before, and the new ones behind them.
pub record Grows {S : Type 0} (w v : World S) (new : List Call) : Type 0 where
  pub calls : v.calls ≡ w.calls ++ new
  pub writable : v.writable ≡ w.writable

pub Grows-nil : {S : Type 0} (w : World S) → Grows w w []
Grows-nil w = record { calls = sym (append-nil w.calls); writable = refl }

pub Grows-trans :
    {S : Type 0} {w v u : World S} (cs ds : List Call)
    → Grows w v cs
    → Grows v u ds
    → Grows w u (cs ++ ds)
Grows-trans {w} cs ds g h = record {
  calls = h.calls ∙ ap (λ l. l ++ ds) g.calls ∙ append_assoc w.calls cs ds;
  writable = h.writable ∙ g.writable;
}

pub attempts-append : (cs ds : List Call) → attempts (cs ++ ds) ≡ attempts cs ++ attempts ds
attempts-append [] ds = refl
attempts-append (cancel s ∷ cs) ds = attempts-append cs ds
attempts-append (force_cancel s ∷ cs) ds = attempts-append cs ds
attempts-append (await_cleared s ∷ cs) ds = attempts-append cs ds
attempts-append (flatten s side q r ∷ cs) ds =
    ap (λ l. record { symbol = s; side = side; qty = q } ∷ l) (attempts-append cs ds)
attempts-append (close_all ∷ cs) ds = attempts-append cs ds

pub cancels-append : (cs ds : List Call) → cancels (cs ++ ds) ≡ cancels cs ++ cancels ds
cancels-append [] ds = refl
cancels-append (cancel s ∷ cs) ds = ap (λ l. s ∷ l) (cancels-append cs ds)
cancels-append (force_cancel s ∷ cs) ds = cancels-append cs ds
cancels-append (await_cleared s ∷ cs) ds = cancels-append cs ds
cancels-append (flatten s side q r ∷ cs) ds = cancels-append cs ds
cancels-append (close_all ∷ cs) ds = cancels-append cs ds

-- What the result of a run says of the flattens that it made
abbrev pub Reports : Result Fault FlattenResult → List Call → Type 0
Reports (ok res) cs = (res.symbols_failed ≡ raised cs) × (res.symbols_flattened ≡ found cs)
Reports (err e) cs = Unit
