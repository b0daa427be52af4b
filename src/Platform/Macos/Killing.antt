-- ===== src/Platform/Macos/Killing.antt =====
-- Which processes of the notifier are killed.
use mathlib.Core.List.{append-nil}
use taymna.Common.{
  ℕ, ◌≡◌, refl, ◌∙◌, ap, Option, none, some, List, [], ◌∷◌, ◌++◌, Option-cases, inl, inr,
}
use taymna.Common.Text.{Str}
use taymna.Warning.{Notice, WarningEffect, notify, show_final_warning, dismiss_final_warning}
use taymna.Platform.Macos.{
  Call, spawn, kill, wait, Console, console_user_uid, spawn_osascript, notify_script, wait_for,
  notify_user, dismiss, final_script, deliver,
}

abbrev pub kills : List Call → List ℕ
kills [] = []
kills (kill child ∷ calls) = child ∷ kills calls
kills (_ ∷ calls) = kills calls

abbrev pub with_child : Option ℕ → List ℕ → List ℕ
with_child none children = children
with_child (some child) children = child ∷ children

-- The processes that draw a final alert.
abbrev pub alerts : List (WarningEffect × Console) → List ℕ
alerts [] = []
alerts ((show_final_warning r, c) ∷ effects) =
    with_child (spawn_osascript (final_script r) c).1 (alerts effects)
alerts (_ ∷ effects) = alerts effects

kills-append : (xs ys : List Call) → kills (xs ++ ys) ≡ kills xs ++ kills ys
kills-append [] ys = refl
kills-append (kill child ∷ xs) ys = ap (◌∷◌ child) (kills-append xs ys)
kills-append (spawn _ _ _ ∷ xs) ys = kills-append xs ys
kills-append (wait _ ∷ xs) ys = kills-append xs ys

kills-spawn_osascript : (script : Str) (c : Console) → kills (spawn_osascript script c).0 ≡ []
unfolding spawn_osascript
kills-spawn_osascript script c = elim (Option-cases (console_user_uid c.owner)) [
  | inl e ↦ rw (kills, spawn_osascript, e) refl
  | inr (uid, e) ↦ rw (kills, spawn_osascript, e) refl
]

kills-dismiss :
    (state : Option ℕ)
    → (kills (dismiss state).0 ≡ with_child state []) × ((dismiss state).1 ≡ none)
unfolding dismiss
kills-dismiss none = (refl, refl)
kills-dismiss (some child) = (refl, refl)

kills_then :
    (state : Option ℕ) (children : List ℕ) (xs ys : List Call)
    → kills xs ≡ with_child state []
    → kills ys ≡ children
    → kills (xs ++ ys) ≡ with_child state children
kills_then none children xs ys p q = kills-append xs ys ∙ ap (λ k. k ++ kills ys) p ∙ q
kills_then (some child) children xs ys p q =
    kills-append xs ys ∙ ap (λ k. k ++ kills ys) p ∙ ap (◌∷◌ child) q

kills-wait_for : (child : Option ℕ) → kills (wait_for child) ≡ []
kills-wait_for none = refl
kills-wait_for (some child) = refl

kills-notify_user : (n : Notice) (c : Console) → kills (notify_user n c) ≡ []
unfolding notify_user
kills-notify_user n c =
    let (calls, child) = spawn_osascript (notify_script n) c in
    kills-append calls (wait_for child)
    ∙ ap (λ k. k ++ kills (wait_for child)) (kills-spawn_osascript (notify_script n) c)
    ∙ kills-wait_for child

-- The processes that the notifier kills are exactly the one whose alert was up at the start, if there
-- was one, and every process that was started to draw a final alert, each once and in that order,
-- also where others could not be started; when the effects are delivered and the channel has ended
-- none of them is left.
pub kills-deliver :
    (state : Option ℕ) (effects : List (WarningEffect × Console))
    → (kills (deliver state effects).0 ≡ with_child state (alerts effects))
      × ((deliver state effects).1 ≡ none)
unfolding deliver
kills-deliver state [] = kills-dismiss state
kills-deliver state ((notify n, c) ∷ effects) =
    let (q, end) = kills-deliver state effects in
    (
      kills-append (notify_user n c) _
          ∙ ap (λ k. k ++ kills (deliver state effects).0) (kills-notify_user n c)
          ∙ q,
      end,
    )
kills-deliver state ((dismiss_final_warning, c) ∷ effects) =
    let (p, empty) = kills-dismiss state in
    let (q, end) = kills-deliver (dismiss state).1 effects in
    (
      kills_then state (alerts effects) (dismiss state).0 _ p
          (q ∙ ap (λ k. with_child k (alerts effects)) empty),
      end,
    )
kills-deliver state ((show_final_warning r, c) ∷ effects) =
    let started = spawn_osascript (final_script r) c in
    let (p, empty) = kills-dismiss state in
    let (q, end) = kills-deliver started.1 effects in
    let closing = (dismiss state).0 in
    (
      kills_then state (with_child started.1 (alerts effects)) (closing ++ started.0) _
          (kills-append closing started.0
            ∙ ap (λ k. kills closing ++ k) (kills-spawn_osascript (final_script r) c)
            ∙ append-nil _
            ∙ p)
          q,
      end,
    )
