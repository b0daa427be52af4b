-- ===== src/Server/Usage/Sums.antt =====
-- What a machine's usage is the sum of.
use taymna.Common.{
  ℕ, ◌+◌, ◌-◌, ◌≤◌, ◌≡◌, max, List, [], ◌∷◌, arith, if◌then◌else◌, inl, inr, Bool-cases, ◌&&◌, ltb,
}
use taymna.Common.Equality.{◌==◌, nat_eq, list_eq}
use taymna.Common.Text.{Str}
use taymna.Server.{Time}
use taymna.Server.Number.{Number, seconds_of, add}
use taymna.Server.Usage.{UsageSession, usable_until, overlap}

-- The time inside `[from, to)` in which the sessions of a machine made it usable.
unfoldable pub used_of : Str → List UsageSession → Time → Time → Time → ℕ
unfolding overlap usable_until
used_of id [] from to now = 0
used_of id (s ∷ ss) from to now =
    (if id == s.machine_id then overlap s.started_at (usable_until s now) from to else 0)
    + used_of id ss from to now

overlap_split :
    (start end from mid to : Time)
    → from ≤ mid
    → mid ≤ to
    → overlap start end from to ≡ overlap start end from mid + overlap start end mid to
unfolding overlap
overlap_split start end from mid to h k = omega arith

-- Of two adjacent windows every millisecond is counted in exactly one: the usage of a machine in
-- both together is the sum of its usage in each, whatever its sessions are.
pub used_of-split :
    (id : Str) (ss : List UsageSession) (from mid to now : Time)
    → from ≤ mid
    → mid ≤ to
    → used_of id ss from to now ≡ used_of id ss from mid now + used_of id ss mid to now
unfolding used_of
used_of-split id [] from mid to now h k = omega arith
used_of-split id (s ∷ ss) from mid to now h k = ground (
  arith,
  overlap_split s.started_at (usable_until s now) from mid to h k,
  used_of-split id ss from mid to now h k,
)

-- The sessions of a machine follow one another: each begins after the ones before it have ended,
-- and ends after it began. `since` is the end of the last one.
abbrev pub InTurn : Str → Time → Time → List UsageSession → Type 0
InTurn id now since [] = Unit {0}
InTurn id now since (s ∷ ss) =
    if id == s.machine_id
    then (since ≤ s.started_at)
      × (s.started_at ≤ usable_until s now)
      × InTurn id now (usable_until s now) ss
    else InTurn id now since ss

overlap-le :
    (start end since from to : Time) (rest : ℕ)
    → since ≤ start
    → start ≤ end
    → rest ≤ to - max end from
    → overlap start end from to + rest ≤ to - max since from
unfolding overlap
overlap-le start end since from to rest h k l = omega arith

used_of-le_since :
    (id : Str) (ss : List UsageSession) (from to now since : Time)
    → InTurn id now since ss
    → used_of id ss from to now ≤ to - max since from
unfolding used_of
used_of-le_since id [] from to now since h = omega arith
used_of-le_since id (s ∷ ss) from to now since h = elim (Bool-cases (id == s.machine_id)) [
  | inl e ↦
      let (begins, ends, more) = rw e at h in
      rw e (
        overlap-le s.started_at (usable_until s now) since from to _ begins ends
          (used_of-le_since id ss from to now (usable_until s now) more))
  | inr e ↦ let later = used_of-le_since id ss from to now since (rw e at h) in rw e (omega arith)
]

-- A machine whose sessions follow one another was not usable for longer than the window is.
pub used_of-le :
    (id : Str) (ss : List UsageSession) (from to now : Time)
    → InTurn id now 0 ss
    → used_of id ss from to now ≤ to - from
used_of-le id ss from to now h = let le = used_of-le_since id ss from to now 0 h in omega arith

-- The parts of a machine's sessions that lie in the window, in milliseconds.
unfoldable pub parts_of : Str → List UsageSession → Time → Time → Time → List ℕ
unfolding overlap usable_until
parts_of id [] from to now = []
parts_of id (s ∷ ss) from to now =
    let ms = overlap s.started_at (usable_until s now) from to in
    if id == s.machine_id && ltb 0 ms
    then ms ∷ parts_of id ss from to now
    else parts_of id ss from to now

-- Their sum in seconds, added up in their order.
unfoldable pub added_to : Number → List ℕ → Number
added_to sum [] = sum
added_to sum (ms ∷ parts) = added_to (add sum (seconds_of ms)) parts
