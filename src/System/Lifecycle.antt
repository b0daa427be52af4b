-- ===== src/System/Lifecycle.antt =====
-- What the agent is for, seen from outside: a machine is managed or released (docs/enrollment.md).
use taymna.Common.{◌≡◌, refl, List, [], ◌∷◌, ◌++◌, All}
use taymna.System.{Action, locked, unlocked, acknowledged, enrolled}

pub data Phase : Type 0 where
  managed released : Phase

-- The life of a machine, with what others see of it. Only a managed machine is locked and unlocked,
-- only a released one acknowledges, and only an enrollment leads back.
pub data Life : Phase → List Action → Phase → Type 0 where
  stay : (p : Phase) → Life p [] p
  lock :
      {q : Phase} {actions : List Action}
      → Life managed actions q
      → Life managed (locked ∷ actions) q
  unlock :
      {q : Phase} {actions : List Action}
      → Life managed actions q
      → Life managed (unlocked ∷ actions) q
  release : {q : Phase} {actions : List Action} → Life released actions q → Life managed actions q
  acknowledge :
      {q : Phase} {actions : List Action}
      → Life released actions q
      → Life released (acknowledged ∷ actions) q
  enroll :
      {p q : Phase} {actions : List Action} → Life managed actions q → Life p (enrolled ∷ actions) q

pub Life-append :
    {p q r : Phase} {before after : List Action}
    → Life p before q
    → Life q after r
    → Life p (before ++ after) r
Life-append (stay p) k = k
Life-append (lock h) k = lock (Life-append h k)
Life-append (unlock h) k = unlock (Life-append h k)
Life-append (release h) k = release (Life-append h k)
Life-append (acknowledge h) k = acknowledge (Life-append h k)
Life-append (enroll h) k = enroll (Life-append h k)

abbrev pub IsNoEnrollment : Action → Type 0
IsNoEnrollment enrolled = ⊥
IsNoEnrollment _ = Unit {0}

abbrev pub IsAcknowledgement : Action → Type 0
IsAcknowledgement acknowledged = Unit {0}
IsAcknowledgement _ = ⊥

-- A released machine that is not enrolled again stays released, and acknowledges at most.
pub Life-released :
    {q : Phase} {actions : List Action}
    → Life released actions q
    → All IsNoEnrollment actions
    → All IsAcknowledgement actions × (q ≡ released)
Life-released (stay released) h = (tt, refl)
Life-released (acknowledge k) (_, h) = let (quiet, same) = Life-released k h in ((tt, quiet), same)
Life-released (enroll k) (h, _) = absurd h
