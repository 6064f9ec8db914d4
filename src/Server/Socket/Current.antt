-- ===== src/Server/Socket/Current.antt =====
-- The client is up to date after each step.
use mathlib.Core.Option
use mathlib.Core.Option.{none-ne-some, some-injective}
use text.Mathlib.TextEquality.{eq_iff}
use lapinq.Prelude.{
  ℕ, ◌≡◌, refl, sym, ap, ◌∙◌, String, false, ◌||◌, inl, inr, Option, none, some, List, [], ◌∷◌,
  ◌++◌, subst, Bool-cases, arith,
}
use lapinq.Scheduler.Cron.{Text}
use lapinq.Server.Session.{Signer}
use lapinq.Server.Page.{Texts, Sight, page}
use lapinq.Server.Socket.Steps.{if-Holds, connecting-Holds, serving-Holds}
use lapinq.Server.Socket.{
  Socket, Sent, Phase, connecting, serving, closed, crashed, Effect, Event, wakes, gone, garbled,
  gets, differs, kept, show, send, opened, step, run,
}

-- What a client shows after the messages it was sent, the first of which is the oldest.
abbrev pub view : Option (String × String) → List Sent → Option (String × String)
view old [] = old
view old (m ∷ ms) = view (some (m.cards, m.table)) ms

-- The socket knows what the client shows.
abbrev pub Knows : Socket → Option (String × String) → Type 0
Knows s shown =
    (s.last_cards ≡ Option.map (λ p. p.0) shown) × (s.last_table ≡ Option.map (λ p. p.1) shown)

-- What is known of the client in a phase.
abbrev pub Knowing : Option (String × String) → Phase → Type 0
Knowing shown connecting = shown ≡ none
Knowing shown (serving s) = Knows s shown
Knowing shown (closed code) = Unit {0}
Knowing shown crashed = Unit {0}

view-kept :
    (old : Option (String × String)) (out : Option Sent) (rest : List Sent)
    → view old (kept out rest) ≡ view (view old (kept out [])) rest
view-kept old none rest = refl
view-kept old (some m) rest = refl

same-differs : (new : String) (old : Option String) → differs new old ≡ false → old ≡ some new
same-differs new none e = cc
same-differs new (some old) e = ap some (sym ((eq_iff new old).0 (ground (arith, e))))

shown-is :
    (shown : Option (String × String)) (p : String × String)
    → Option.map (λ q. q.0) shown ≡ some p.0
    → Option.map (λ q. q.1) shown ≡ some p.1
    → shown ≡ some p
shown-is none p h k = absurd (none-ne-some p.0 h)
shown-is (some q) p h k = rw (sym (some-injective q.0 p.0 h), sym (some-injective q.1 p.1 k)) refl

module _ (texts : Texts) (signer : Signer) (secret : Text) (cleanup_interval : ℕ) where
  -- A socket that goes on shows the page of what the program has just seen.
  abbrev pub IsCurrent : Sight → Option (String × String) → Phase → Type 0
  IsCurrent g shown connecting = shown ≡ none
  IsCurrent g shown (serving s) = Knows s shown × (shown ≡ page texts g s.filters)
  IsCurrent g shown (closed code) = Unit {0}
  IsCurrent g shown crashed = Unit {0}

  IsCurrent-Knowing :
      (g : Sight) (shown : Option (String × String)) (p : Phase)
      → IsCurrent g shown p
      → Knowing shown p
  IsCurrent-Knowing g shown connecting h = h
  IsCurrent-Knowing g shown (serving s) h = h.0
  IsCurrent-Knowing g shown (closed code) h = tt
  IsCurrent-Knowing g shown crashed h = tt

  -- The view and the phase after an effect.
  abbrev After : Sight → Option (String × String) → Effect → Type 0
  After g shown e = IsCurrent g (view shown (kept e.1 [])) e.0

  show-IsCurrent :
      (g : Sight) (s : Socket) (shown p : Option (String × String))
      → Knows s shown
      → page texts g s.filters ≡ p
      → After g shown (show texts signer secret cleanup_interval g s p)
  show-IsCurrent g s shown none h e = tt
  show-IsCurrent g s shown (some p) h e =
      elim (Bool-cases (differs p.0 s.last_cards || differs p.1 s.last_table || s.changed)) [
        | inl sent ↦ rw (sent) ((refl, refl), sym e)
        | inr same ↦ rw (same) (
          h,
          shown-is shown p (sym h.0 ∙ same-differs p.0 s.last_cards (ground (arith, same)))
                (sym h.1 ∙ same-differs p.1 s.last_table (ground (arith, same)))
              ∙ sym e,
        )
      ]

  send-IsCurrent :
      (g : Sight) (s : Socket) (shown : Option (String × String))
      → Knows s shown
      → After g shown (send texts signer secret cleanup_interval g s)
  unfolding send
  send-IsCurrent g s shown h =
      if-Holds (After g shown) g.shutting_down tt
        (show-IsCurrent g s shown (page texts g s.filters) h refl)

  step-IsCurrent :
      (g : Sight) (e : Event) (p : Phase) (shown : Option (String × String))
      → Knowing shown p
      → After g shown (step texts signer secret cleanup_interval g e p)
  unfolding step
  step-IsCurrent g e connecting shown h =
      subst (λ o. After g o (step texts signer secret cleanup_interval g e connecting)) (sym h)
        (connecting-Holds texts signer secret cleanup_interval (After g none) g e tt tt (λ user a.
          send-IsCurrent g (opened texts signer secret cleanup_interval user) none (refl, refl)))
  step-IsCurrent g e (serving s) shown h =
      serving-Holds texts signer secret cleanup_interval (After g shown) g e s tt tt
        (λ f c. send-IsCurrent g (record s { filters = f; changed = c }) shown h)
  step-IsCurrent g wakes (closed code) shown h = tt
  step-IsCurrent g gone (closed code) shown h = tt
  step-IsCurrent g garbled (closed code) shown h = tt
  step-IsCurrent g (gets msg) (closed code) shown h = tt
  step-IsCurrent g wakes crashed shown h = tt
  step-IsCurrent g gone crashed shown h = tt
  step-IsCurrent g garbled crashed shown h = tt
  step-IsCurrent g (gets msg) crashed shown h = tt

  run-step :
      (es : List (Sight × Event)) (g : Sight) (e : Event) (p : Phase)
      (shown : Option (String × String))
      → Knowing shown p
      → (let r = run texts signer secret cleanup_interval (es ++ (g, e) ∷ []) p in
          IsCurrent g (view shown r.0) r.1)
  unfolding run
  run-step [] g e p shown h = step-IsCurrent g e p shown h
  run-step ((g0, e0) ∷ es) g e p shown h =
      let (next, out) = step texts signer secret cleanup_interval g0 e0 p in
      let known = IsCurrent-Knowing g0 _ next (step-IsCurrent g0 e0 p shown h) in
      subst
        (λ v. IsCurrent g v (run texts signer secret cleanup_interval (es ++ (g, e) ∷ []) next).1)
        (sym (
          view-kept shown out
            (run texts signer secret cleanup_interval (es ++ (g, e) ∷ []) next).0))
        (run-step es g e next (view shown (kept out [])) known)

  -- If a conversation is still served after a step, the last page that was sent is the page that
  -- the tables which the last step saw have under the filters in force, although an unchanged page
  -- is not sent again.
  pub run-IsCurrent :
      (es : List (Sight × Event)) (g : Sight) (e : Event) (sent : List Sent) (s : Socket)
      → run texts signer secret cleanup_interval (es ++ (g, e) ∷ []) connecting ≡ (sent, serving s)
      → view none sent ≡ page texts g s.filters
  run-IsCurrent es g e sent s ends =
      let current = run-step es g e connecting none refl in
      (subst (λ (r : List Sent × Phase). IsCurrent g (view none r.0) r.1) ends current).1
