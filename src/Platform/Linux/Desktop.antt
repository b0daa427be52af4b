-- ===== src/Platform/Linux/Desktop.antt =====
-- Which session the warnings are shown in.
use taymna.Common.{◌≡◌, refl, ◌⊎◌, inl, inr, true, false, some, List, [], ◌∷◌, arith, Bool-cases}
use taymna.Common.Text.{Str}
use taymna.Platform.Linux.{
  DesktopSession, Shown, not_run, failed, printed, is_active_graphical, session_of, find_session,
  active_desktop_session, first_words, lines,
}

-- A session that is passed over: `loginctl` fails for it, or it is not an active graphical one.
abbrev pub IsPassedOver : Shown → Type 0
IsPassedOver not_run = ⊥
IsPassedOver failed = Unit {0}
IsPassedOver (printed properties) = is_active_graphical properties ≡ false

-- A session that is chosen.
abbrev pub IsChosen : DesktopSession → Shown → Type 0
IsChosen d (printed properties) =
    (is_active_graphical properties ≡ true) × (session_of properties ≡ some d)
IsChosen d _ = ⊥

-- The first active graphical one of some sessions is `d`.
abbrev pub IsFirst : (Str → Shown) → DesktopSession → List Str → Type 0
IsFirst show d [] = ⊥
IsFirst show d (id ∷ ids) = IsChosen d (show id) ⊎ (IsPassedOver (show id) × IsFirst show d ids)

Shown-cases : (s : Shown) → (s ≡ not_run) ⊎ ((s ≡ failed) ⊎ ((p : Str) × (s ≡ printed p)))
Shown-cases not_run = inl refl
Shown-cases failed = inr (inl refl)
Shown-cases (printed p) = inr (inr (p, refl))

find_session-IsFirst :
    (show : Str → Shown) (ids : List Str) (d : DesktopSession)
    → find_session show ids ≡ some d
    → IsFirst show d ids
unfolding find_session
find_session-IsFirst show [] d h = absurd (ground arith)
find_session-IsFirst show (id ∷ ids) d h = elim (Shown-cases (show id)) [
  | inl e ↦ absurd (ground arith)
  | inr (inl e) ↦ inr (rw e tt, find_session-IsFirst show ids d (ground arith))
  | inr (inr (p, e)) ↦ elim (Bool-cases (is_active_graphical p)) [
    | inl a ↦ inl (rw e (a, ground arith))
    | inr a ↦ inr (rw e a, find_session-IsFirst show ids d (ground arith))
  ]
]

-- If a desktop session is found, it belongs to the first of the listed sessions that is active and
-- graphical, every one before it having failed or not being so; its user and its uid are those
-- that logind prints for that very session.
pub active_desktop_session-IsFirst :
    (listed : Str) (show : Str → Shown) (d : DesktopSession)
    → active_desktop_session (some listed) show ≡ some d
    → IsFirst show d (first_words (lines listed))
unfolding active_desktop_session
active_desktop_session-IsFirst listed show d h =
    find_session-IsFirst show (first_words (lines listed)) d h
