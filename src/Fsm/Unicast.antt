-- ===== src/Fsm/Unicast.antt =====
-- unicast_fsm.c: the state of one master of the unicast master table.
use lyp_lyl.Prelude.{Bool, true, false, ◌≡◌, ◌⊎◌, List, [], ◌∷◌, arith}

-- enum unicast_state
pub data UnicastState : Type 0 where
  wait have_ann need_sydy have_sydy : UnicastState

-- enum unicast_event
pub data UnicastEvent : Type 0 where
  grant_ann selected grant_sydy unselected cancel : UnicastEvent

-- The nested `switch`; the last clause is every case that breaks at once.
unfoldable pub unicast_fsm : UnicastState → UnicastEvent → UnicastState
unicast_fsm wait grant_ann = have_ann
unicast_fsm have_ann selected = need_sydy
unicast_fsm have_ann cancel = wait
unicast_fsm need_sydy grant_sydy = have_sydy
unicast_fsm need_sydy unselected = have_ann
unicast_fsm need_sydy cancel = wait
unicast_fsm have_sydy unselected = have_ann
unicast_fsm have_sydy cancel = wait
unicast_fsm s e = s

-- The events of a list, in order.
unfoldable pub unicast_run : UnicastState → List UnicastEvent → UnicastState
unicast_run s [] = s
unicast_run s (e ∷ es) = unicast_run (unicast_fsm s e) es

-- What the three grants of the unicast negotiation stand for: the master grants announce
-- messages, the client wants sync and delay messages from it, and the master grants those.
pub record Contract : Type 0 where
  pub announce : Bool
  pub chosen : Bool
  pub timing : Bool

abbrev pub contract : UnicastState → Contract
contract wait = record { announce = false; chosen = false; timing = false }
contract have_ann = record { announce = true; chosen = false; timing = false }
contract need_sydy = record { announce = true; chosen = true; timing = false }
contract have_sydy = record { announce = true; chosen = true; timing = true }

-- Each event's effect on the grants, described without the states.
abbrev pub negotiate : Contract → UnicastEvent → Contract
negotiate c grant_ann = record c { announce = true }
negotiate c selected = record c { chosen = elim c.announce [ true ↦ true | false ↦ false ] }
negotiate c grant_sydy = record c { timing = elim c.chosen [ true ↦ true | false ↦ false ] }
negotiate c unselected = record c { chosen = false; timing = false }
negotiate c cancel = record { announce = false; chosen = false; timing = false }

-- The states of the machine and its transitions are exactly the three grants under each event: an
-- announce grant, a selection that counts only with an announce grant, a sync and delay grant that
-- counts only for a selected master, a withdrawal of the selection, and a cancellation of all.
pub contract-unicast_fsm :
    (s : UnicastState) (e : UnicastEvent) → contract (unicast_fsm s e) ≡ negotiate (contract s) e
unfolding unicast_fsm
contract-unicast_fsm s e = ground arith

-- An entry that has no grant reaches the state with sync and delay grants only by a list of
-- events that holds an announce grant, a selection and a sync and delay grant.
abbrev pub Holds : UnicastEvent → List UnicastEvent → Type 0
Holds e [] = ⊥
Holds e (x ∷ xs) = (x ≡ e) ⊎ Holds e xs

abbrev Owed : UnicastState → List UnicastEvent → Type 0
Owed wait es = Holds grant_ann es × Holds selected es × Holds grant_sydy es
Owed have_ann es = Holds selected es × Holds grant_sydy es
Owed need_sydy es = Holds grant_sydy es
Owed have_sydy es = Unit

unicast_run-Owed :
    (s : UnicastState) (es : List UnicastEvent) → unicast_run s es ≡ have_sydy → Owed s es
unfolding unicast_run unicast_fsm
unicast_run-Owed s [] h = ground arith
unicast_run-Owed s (e ∷ es) h = ground (arith, unicast_run-Owed (unicast_fsm s e) es)

-- If a list of events takes an entry from the state with no grant to the state with sync and delay
-- grants, then an announce grant, a selection and a sync and delay grant are among the events.
pub have_sydy-needs :
    (es : List UnicastEvent)
    → unicast_run wait es ≡ have_sydy
    → Holds grant_ann es × Holds selected es × Holds grant_sydy es
have_sydy-needs es h = unicast_run-Owed wait es h
