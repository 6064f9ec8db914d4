-- ===== src/Server/Socket/Admitted.antt =====
-- Nothing is sent before a valid token has come.
use lapinq.Prelude.{
  String, subst, sym, ℕ, ◌≡◌, refl, List, [], ◌∷◌, Option, none, some, false, ◌||◌,
}
use lapinq.Prelude.Lists.{All, All-map}
use lapinq.Scheduler.Cron.{Text}
use lapinq.Server.Session.{Signer, Payload}
use lapinq.Server.Page.{Texts, Sight, page}
use lapinq.Server.Socket.Steps.{if-Holds, IsAuth, connecting-Holds, serving-Holds}
use lapinq.Server.Socket.{
  Socket, Sent, Phase, connecting, serving, closed, crashed, Effect, Event, wakes, gone, garbled,
  gets, kept, differs, sent_page, show, send, opened, step, run,
}

-- A phase in which nothing but `user` is served.
abbrev IsOf : Payload → Phase → Type 0
IsOf user connecting = ⊥
IsOf user (serving s) = s.user ≡ user
IsOf user (closed code) = Unit {0}
IsOf user crashed = Unit {0}

abbrev AllOf : Payload → List Sent → Type 0
AllOf user = All (λ m. m.user ≡ user)

abbrev Serves : Payload → Effect → Type 0
Serves user e = IsOf user e.0 × AllOf user (kept e.1 [])

kept-All :
    (user : Payload) (out : Option Sent) (rest : List Sent)
    → AllOf user (kept out [])
    → AllOf user rest
    → AllOf user (kept out rest)
kept-All user none rest h k = k
kept-All user (some m) rest (h, _) k = (h, k)

module _ (texts : Texts) (signer : Signer) (secret : Text) (cleanup_interval : ℕ) where
  show-Serves :
      (g : Sight) (s : Socket) (p : Option (String × String))
      → Serves s.user (show texts signer secret cleanup_interval g s p)
  show-Serves g s none = (tt, tt)
  show-Serves g s (some p) =
      if-Holds (Serves s.user) (differs p.0 s.last_cards || differs p.1 s.last_table || s.changed)
        {x = (
          serving (record s { last_cards = some p.0; last_table = some p.1; changed = false }),
          some (sent_page texts signer secret cleanup_interval g s p.0 p.1),
        )}
        {y = (serving s, none)} (refl, (refl, tt)) (refl, tt)

  send-Serves :
      (g : Sight) (s : Socket) → Serves s.user (send texts signer secret cleanup_interval g s)
  unfolding send
  send-Serves g s =
      if-Holds (Serves s.user) g.shutting_down (tt, tt) (show-Serves g s (page texts g s.filters))

  step-Serves :
      (user : Payload) (g : Sight) (e : Event) (p : Phase)
      → IsOf user p
      → Serves user (step texts signer secret cleanup_interval g e p)
  unfolding step
  step-Serves user g e connecting h = absurd h
  step-Serves user g e (serving s) h =
      serving-Holds texts signer secret cleanup_interval (Serves user) g e s (tt, tt) (tt, tt)
        (λ f c.
          subst
            (λ u.
              Serves u (
                send texts signer secret cleanup_interval g
                  (record s { filters = f; changed = c })))
            h (send-Serves g (record s { filters = f; changed = c })))
  step-Serves user g wakes (closed code) h = (tt, tt)
  step-Serves user g gone (closed code) h = (tt, tt)
  step-Serves user g garbled (closed code) h = (tt, tt)
  step-Serves user g (gets msg) (closed code) h = (tt, tt)
  step-Serves user g wakes crashed h = (tt, tt)
  step-Serves user g gone crashed h = (tt, tt)
  step-Serves user g garbled crashed h = (tt, tt)
  step-Serves user g (gets msg) crashed h = (tt, tt)

  run-AllOf :
      (user : Payload) (es : List (Sight × Event)) (p : Phase)
      → IsOf user p
      → AllOf user (run texts signer secret cleanup_interval es p).0
  unfolding run
  run-AllOf user [] p h = tt
  run-AllOf user ((g, e) ∷ es) p h =
      let (next, out) = step texts signer secret cleanup_interval g e p in
      let (of_user, sent) = step-Serves user g e p h in
      kept-All user out (run texts signer secret cleanup_interval es next).0 sent
        (run-AllOf user es next of_user)

  run-closed :
      (es : List (Sight × Event)) (code : Option ℕ)
      → (run texts signer secret cleanup_interval es (closed code)).0 ≡ []
  unfolding run step
  run-closed [] code = refl
  run-closed ((g, wakes) ∷ es) code = run-closed es code
  run-closed ((g, gone) ∷ es) code = run-closed es code
  run-closed ((g, garbled) ∷ es) code = run-closed es code
  run-closed ((g, gets msg) ∷ es) code = run-closed es code

  run-crashed :
      (es : List (Sight × Event)) → (run texts signer secret cleanup_interval es crashed).0 ≡ []
  unfolding run step
  run-crashed [] = refl
  run-crashed ((g, wakes) ∷ es) = run-crashed es
  run-crashed ((g, gone) ∷ es) = run-crashed es
  run-crashed ((g, garbled) ∷ es) = run-crashed es
  run-crashed ((g, gets msg) ∷ es) = run-crashed es

  -- The conversation starts with a valid token of the user.
  abbrev pub Starts : List (Sight × Event) → Payload → Type 0
  Starts [] user = ⊥
  Starts ((g, e) ∷ es) user = IsAuth texts signer secret cleanup_interval g e user

  -- However a conversation on the web socket of the dashboard goes, whatever it sends is sent to a
  -- user whose valid token, in a message of the type auth, is the first thing that came; nothing
  -- is sent before that or without it.
  pub run-Starts :
      (es : List (Sight × Event))
      → All (λ m. Starts es m.user) (run texts signer secret cleanup_interval es connecting).0
  unfolding run
  run-Starts [] = tt
  run-Starts ((g, e) ∷ es) =
      let Fits : List Sent → Type 0 = All (λ m. Starts ((g, e) ∷ es) m.user) in
      connecting-Holds texts signer secret cleanup_interval
        (λ o. Fits (kept o.1 (run texts signer secret cleanup_interval es o.0).0)) g e
        (subst Fits (sym (run-crashed es)) tt) (subst Fits (sym (run-closed es (some 4001))) tt)
        (λ user auth.
          let first = opened texts signer secret cleanup_interval user in
          let (next, out) = send texts signer secret cleanup_interval g first in
          let (of_user, sent) = send-Serves g first in
          All-map (λ m. m.user ≡ user) (λ m. Starts ((g, e) ∷ es) m.user) _
            (λ m h. subst (IsAuth texts signer secret cleanup_interval g e) (sym h) auth)
            (kept-All user out (run texts signer secret cleanup_interval es next).0 sent
              (run-AllOf user es next of_user)))
