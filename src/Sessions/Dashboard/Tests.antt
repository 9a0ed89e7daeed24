-- ===== src/Sessions/Dashboard/Tests.antt =====
-- A user who loads the page and revokes another device, then this one.
use g_manager.Common.{true, false, none, some, List, [], ◌∷◌, ◌++◌, ◌≡◌, ◌↔◌, refl}
use g_manager.Sessions.Dashboard.{
  SessionInfo, Dashboard, Event, mount, timer, history_done, sessions_answer, events_answer,
  success, revoking, revoke, acknowledged, sign_in, idle, initial, load, step, run, current_actor,
}
use g_manager.Sessions.Dashboard.Laws.{IsValid, is_idle, run-start-IsValid}
use g_manager.Sessions.Dashboard.SignOut.{SignsOut, step-SignsOut}
use g_manager.Sessions.Dashboard.Foreign.{IsUntouched, step_foreign}

abbrev here : SessionInfo
here = record { id = "s1"; current = true }

abbrev phone : SessionInfo
phone = record { id = "s2"; current = false }

abbrev loading : List Event
loading =
    mount
    ∷ timer
    ∷ history_done
    ∷ events_answer (success [])
    ∷ sessions_answer (success (here ∷ phone ∷ []))
    ∷ []

abbrev loaded : Dashboard
loaded = run "u1" loading (initial (some "u1"))

abbrev asked : Dashboard
asked = run "u1" (loading ++ revoke here ∷ []) (initial (some "u1"))

abbrev foreign : Dashboard
foreign = run "u1" (loading ++ revoke phone ∷ sign_in (some "u2") ∷ []) (initial (some "u1"))

removes :
    (run "u1" (loading ++ revoke phone ∷ acknowledged ∷ []) (initial (some "u1"))).sessions.content
    ≡ some (here ∷ [])
unfolding run load
removes = refl

run-start-IsValid_example : IsValid loaded
run-start-IsValid_example = run-start-IsValid "u1" loading (some "u1")

asked-IsValid : IsValid asked
asked-IsValid = run-start-IsValid "u1" (loading ++ revoke here ∷ []) (some "u1")

asked-busy : is_idle asked.phase ≡ false
unfolding run load
asked-busy = refl

asked-phase : asked.phase ≡ revoking here
unfolding run load
asked-phase = refl

asked-current : current_actor "u1" asked ≡ true
unfolding run load
asked-current = refl

foreign-current : current_actor "u1" foreign ≡ false
unfolding run load
foreign-current = refl

asked-stays : asked.at_login ≡ false
unfolding run load
asked-stays = refl

step-SignsOut_example :
    let t = step "u1" acknowledged asked in
    ((t.at_login ≡ true) ↔ SignsOut "u1" acknowledged asked)
    × ((t.at_login ≡ true) → (t.user ≡ none) × (t.phase ≡ idle) × (t.mutation_in_flight ≡ false))
step-SignsOut_example = step-SignsOut "u1" acknowledged asked asked-stays

step_foreign_example : IsUntouched foreign (step "u1" acknowledged foreign)
step_foreign_example = step_foreign "u1" foreign foreign-current acknowledged refl
