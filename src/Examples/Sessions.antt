-- ===== src/Examples/Sessions.antt =====
-- Runs of crates/night24-core/src/session.rs and permission.rs.
use night.Text.{lit, text_eq, Text}
use night.Core.Session.Calls.{step, step-IsKeyed, save_call, fork_session_lem}
use night.Core.Session.Store.{IsKeyed, Fresh}
use night.Examples.{Toy}
use night.Prelude.{ok, if◌then◌else◌, ◌≡◌, refl, none, some, ◌∷◌, []}
use night.Core.Session.{
  Session, Memory, new, get, save, fork_session, fork_history, user_session, scheduled,
}

abbrev first : Session Toy
first = new (lit "11111111-1") 0 (lit "first") (lit "/tmp") user_session

abbrev other_session : Session Toy
other_session = new (lit "22222222-2") 1 (lit "second") (lit "/tmp") scheduled

abbrev two : Memory Toy
two = (lit "11111111-1", first) ∷ (lit "22222222-2", other_session) ∷ []

two-IsKeyed : IsKeyed two
unfolding IsKeyed Fresh new text_eq
two-IsKeyed = (refl, (refl, tt), (refl, tt, tt))

step-IsKeyed_example : IsKeyed (save two other_session)
unfolding step
step-IsKeyed_example =
    step-IsKeyed two (save_call other_session) (save two other_session) two-IsKeyed refl

fork_session_lem_example :
    (memory' : Memory Toy) × (forked : Session Toy) × (fork_session
        (lit "3")
        2
        two
        (lit "11111111-1")
        none
      ≡ some (memory', ok forked))
    × (forked.conversation ≡ fork_history none first.conversation)
    × ((id : Text) → get memory' id ≡ (if text_eq (lit "3") id then some forked else get two id))
unfolding get text_eq night.Text.slice_to new night.Text.len night.Text.len_utf8
fork_session_lem_example =
    fork_session_lem (lit "3") 2 two (lit "11111111-1") none first (lit "11111111") refl refl
