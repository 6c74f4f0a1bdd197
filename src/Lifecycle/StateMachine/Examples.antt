-- ===== src/Lifecycle/StateMachine/Examples.antt =====
-- Runs of the state machine on concrete requests.
use systematic_trading_valid.Common.{
  List, String, [], nat_eq, pair_eq, refl, true, ◌++◌, ◌↔◌, ◌∷◌, ◌≡◌,
}
use systematic_trading_valid.Common.Text.{text, text_eq}
use systematic_trading_valid.Lifecycle.StateMachine.{
  LifecycleState, Request, active, candidate, new_machine, paper, run, safe_mode, sizing_factor,
  state_eq, transition, validated, watch,
}
use systematic_trading_valid.Lifecycle.StateMachine.Moves.{Allowed, accepted, transition_iff}
use systematic_trading_valid.Lifecycle.StateMachine.Histories.{IsRecorded, history-IsRecorded}

abbrev ask : LifecycleState → String → Request
ask to actor = record { target = to; reason = text "test"; actor = text actor }

abbrev climb : List Request
climb = ask validated "operator" ∷ ask validated "gate" ∷ ask paper "gate" ∷ ask active "gate" ∷ []

-- The operator's own promotion is refused; the gates' are not.
climb-active : (run (new_machine 7 candidate) climb).state ≡ active
unfolding run transition new_machine
climb-active = refl

abbrev demotions : List Request
demotions = climb ++ (ask watch "system" ∷ ask safe_mode "operator" ∷ ask active "gate" ∷ [])

demoted : (run (new_machine 7 candidate) demotions).state ≡ safe_mode
unfolding run transition new_machine
demoted = refl

halved : (sizing_factor watch ≡ 50) × (sizing_factor active ≡ 100)
unfolding sizing_factor
halved = (refl, refl)

transition_iff_example :
    (accepted (transition (new_machine 7 candidate) validated [] (text "operator")).1 ≡ true)
    ↔ Allowed candidate validated (text "operator")
unfolding new_machine
transition_iff_example = transition_iff (new_machine 7 candidate) validated [] (text "operator")

history-IsRecorded_example : IsRecorded candidate (run (new_machine 7 candidate) demotions)
history-IsRecorded_example = history-IsRecorded 7 candidate demotions
