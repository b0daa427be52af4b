-- ===== src/Platform/Linux/Notifier/Closing.antt =====
-- How the final warnings are taken off the screen.
use taymna.Common.{
  ℕ, map, if◌then◌else◌, ◌≡◌, refl, ◌∙◌, ap, Option, none, some, List, [], ◌∷◌, ◌++◌, arith, All,
  Option-cases, inl, inr,
}
use taymna.Common.Text.{Str, codes}
use mathlib.Core.List.{append-nil}
use taymna.Warning.{Notice, WarningEffect, notify, show_final_warning, dismiss_final_warning}
use taymna.Platform.Linux.{DesktopSession}
use taymna.Platform.Linux.Notifier.{
  Run, Os, desktop, dismiss, notify_send, notify_user, deliver, close_args, urgency_name,
  final_options, final_body,
}
use taymna.Platform.{final_warning_headline}
use taymna.Common.Equality.{◌==◌, nat_eq, list_eq}

-- The closings among some runs, by their arguments.
abbrev pub closings : List Run → List (List Str)
closings [] = []
closings (r ∷ rs) =
    let more = closings rs in if r.program == codes "gdbus" then r.args ∷ more else more

abbrev pub Delivery : Type 0
Delivery = WarningEffect × (Os × Os)

abbrev with_id : Option ℕ → List ℕ → List ℕ
with_id none ids = ids
with_id (some id) ids = id ∷ ids

-- The ids of the final warnings that are put on the screen.
abbrev pub shown_ids : List Delivery → List ℕ
shown_ids [] = []
shown_ids ((show_final_warning r, (first, second)) ∷ ds) =
    with_id (notify_send (final_options r) final_warning_headline (final_body r) second).1
      (shown_ids ds)
shown_ids (_ ∷ ds) = shown_ids ds

abbrev pub IsReachable : Os → Type 0
IsReachable os = (session : DesktopSession) × (desktop os ≡ some session)

abbrev pub IsDelivered : Delivery → Type 0
IsDelivered (_, (first, second)) = IsReachable first

closings-append : (rs ss : List Run) → closings (rs ++ ss) ≡ closings rs ++ closings ss
closings-append [] ss = refl
closings-append (r ∷ rs) ss = ground (arith, closings-append rs ss)

closings-notify_send :
    (options : List Str) (title body : Str) (os : Os)
    → closings (notify_send options title body os).0 ≡ []
unfolding notify_send
closings-notify_send options title body os = elim (Option-cases (desktop os)) [
  | inl e ↦ rw (closings, notify_send, e) refl
  | inr (session, e) ↦ rw (closings, notify_send, e) refl
]

dismiss_closes :
    (state : Option ℕ) (os : Os)
    → IsReachable os
    → (closings (dismiss state os).0 ≡ map close_args (with_id state []))
      × ((dismiss state os).1 ≡ none)
unfolding dismiss
dismiss_closes none os h = (refl, refl)
dismiss_closes (some id) os (session, e) = rw e (refl, refl)

closings-notify_user : (n : Notice) (os : Os) → closings (notify_user n os) ≡ []
unfolding notify_user
closings-notify_user n os =
    closings-notify_send
      (codes "--urgency" ∷ urgency_name n.urgency ∷ codes "--expire-time" ∷ codes "15000" ∷ [])
      n.title n.body os

-- Runs that close the warning of `state` and more that close those of `ids`.
closed_then :
    (state : Option ℕ) (ids : List ℕ) (rs ss : List Run)
    → closings rs ≡ map close_args (with_id state [])
    → closings ss ≡ map close_args ids
    → closings (rs ++ ss) ≡ map close_args (with_id state ids)
closed_then none ids rs ss p q = closings-append rs ss ∙ ap (λ k. k ++ closings ss) p ∙ q
closed_then (some id) ids rs ss p q =
    closings-append rs ss ∙ ap (λ k. k ++ closings ss) p ∙ ap (◌∷◌ (close_args id)) q

-- If a desktop session is found at every dismissal, the warnings that are closed are exactly the
-- one on the screen at the start, if there is one, and every final warning whose id was printed
-- when it was shown, each once, with that id and in that order; when the effects are delivered and
-- the channel has ended, none of them is left.
pub closings-deliver :
    (state : Option ℕ) (ds : List Delivery) (last : Os)
    → All IsDelivered ds
    → IsReachable last
    → (closings (deliver state ds last).0 ≡ map close_args (with_id state (shown_ids ds)))
      × ((deliver state ds last).1 ≡ none)
unfolding deliver
closings-deliver state [] last h l = dismiss_closes state last l
closings-deliver state ((notify n, (first, second)) ∷ ds) last (h, hs) l =
    let (q, end) = closings-deliver state ds last hs l in
    (
      closings-append (notify_user n first) _
          ∙ ap (λ k. k ++ closings (deliver state ds last).0) (closings-notify_user n first)
          ∙ q,
      end,
    )
closings-deliver state ((dismiss_final_warning, (first, second)) ∷ ds) last (h, hs) l =
    let state' = (dismiss state first).1 in
    let (p, empty) = dismiss_closes state first h in
    let (q, end) = closings-deliver state' ds last hs l in
    (
      closed_then state (shown_ids ds) (dismiss state first).0 (deliver state' ds last).0 p
          (q ∙ ap (λ k. map close_args (with_id k (shown_ids ds))) empty),
      end,
    )
closings-deliver state ((show_final_warning r, (first, second)) ∷ ds) last (h, hs) l =
    let sent = notify_send (final_options r) final_warning_headline (final_body r) second in
    let (p, empty) = dismiss_closes state first h in
    let (q, end) = closings-deliver sent.1 ds last hs l in
    let quiet =
      closings-notify_send (final_options r) final_warning_headline (final_body r) second in
    let closing = (dismiss state first).0 in
    (
      closed_then state (with_id sent.1 (shown_ids ds)) (closing ++ sent.0)
          (deliver sent.1 ds last).0
          (closings-append closing sent.0
            ∙ ap (λ k. closings closing ++ k) quiet
            ∙ append-nil _
            ∙ p)
          q,
      end,
    )
