-- ===== src/Server/Usage/Accuracy.antt =====
-- How far the seconds of a report are from the exact time.
use taymna.Common.{
  ℕ, ◌+◌, ◌*◌, ◌^◌, ◌≤◌, ◌<◌, ◌≡◌, refl, Bool, List, [], ◌∷◌, map, arith, length, All,
}
use taymna.Common.Equality.{nat_eq, list_eq}
use taymna.Common.Text.{Str}
use taymna.Server.{Time}
use taymna.Server.Number.{Number, seconds_of, add, math_round}
use taymna.Server.Number.Error.{IsNear, half_place, seconds_of-IsNear, add-IsNear}
use taymna.Server.Usage.{UsageSession, ReportedMachine, MachineUsage, summarize_usage}
use taymna.Server.Usage.Sums.{used_of, parts_of, added_to}
use taymna.Server.Usage.Rows.{IsKeyed, usage_of, summarize_usage_lem}
use taymna.Server.Usage.Order.{All-sort}

abbrev total : List ℕ → ℕ
total [] = 0
total (ms ∷ parts) = ms + total parts

used_of-total :
    (id : Str) (ss : List UsageSession) (from to now : Time)
    → used_of id ss from to now ≡ total (parts_of id ss from to now)
unfolding used_of parts_of
used_of-total id [] from to now = refl
used_of-total id (s ∷ ss) from to now = ground (arith, used_of-total id ss from to now)

-- Each part adds at most twice half a last place to the difference.
added_to-IsNear :
    (parts : List ℕ) (sum : Number) (exact n : ℕ)
    → IsNear (n * (2 * half_place)) (1000 * sum) (exact * 2 ^ 62)
    → exact + total parts < 2 ^ 43
    → n + length parts ≤ 2 ^ 17
    → IsNear
        ((n + length parts) * (2 * half_place))
        (1000 * added_to sum parts)
        ((exact + total parts) * 2 ^ 62)
unfolding added_to
added_to-IsNear [] sum exact n near h k = omega (arith, near)
added_to-IsNear (ms ∷ parts) sum exact n near h k =
    let second = seconds_of-IsNear ms (omega arith) in
    let sum' = add sum (seconds_of ms) in
    let added = add-IsNear sum (seconds_of ms) (omega (arith, near, second)) in
    let next : IsNear ((n + 1) * (2 * half_place)) (1000 * sum') ((exact + ms) * 2 ^ 62) =
      omega (arith, near, second, added) in
    let all = added_to-IsNear parts sum' (exact + ms) (n + 1) next (omega arith) (omega arith) in
    omega (arith, all)

-- Fewer than 2^43 milliseconds, which are 278 years, in at most 2^17 parts.
abbrev pub IsModest : List UsageSession → Time → Time → Time → ReportedMachine → Type 0
IsModest ss from to now m =
    (used_of m.id ss from to now < 2 ^ 43) × (length (parts_of m.id ss from to now) ≤ 2 ^ 17)

abbrev pub IsAccurate : List UsageSession → Time → Time → Time → MachineUsage → Type 0
IsAccurate ss from to now u =
    IsNear 750 (1000 * u.used_seconds) (used_of u.machine_id ss from to now)

usage_of-IsAccurate :
    (ss : List UsageSession) (from to now : Time) (m : ReportedMachine)
    → IsModest ss from to now m
    → IsAccurate ss from to now (usage_of ss from to now m)
unfolding usage_of math_round
usage_of-IsAccurate ss from to now m (h, k) =
    let parts = parts_of m.id ss from to now in
    let same = used_of-total m.id ss from to now in
    let near = added_to-IsNear parts 0 0 0 (omega arith) (omega (arith, same)) (omega arith) in
    omega (arith, near, same)

usages-IsAccurate :
    (ss : List UsageSession) (from to now : Time) (ms : List ReportedMachine)
    → All (IsModest ss from to now) ms
    → All (IsAccurate ss from to now) (map (usage_of ss from to now) ms)
usages-IsAccurate ss from to now [] h = tt
usages-IsAccurate ss from to now (m ∷ ms) (h, hs) =
    (usage_of-IsAccurate ss from to now m h, usages-IsAccurate ss from to now ms hs)

-- The seconds that a report shows of a machine are those of the exact time in milliseconds in which
-- its sessions made it usable inside the window, to three quarters of a second, whatever is lost
-- in the additions, if no two machines have one id and each machine has at most 2^17 parts of
-- sessions in the window and, in these, fewer than 2^43 milliseconds.
pub summarize_usage-IsAccurate :
    (locale_le : Str → Str → Bool) (machines : List ReportedMachine) (sessions : List UsageSession)
    (from to now : Time)
    → IsKeyed machines
    → All (IsModest sessions from to now) machines
    → All
        (IsAccurate sessions from to now)
        (summarize_usage locale_le machines sessions from to now)
summarize_usage-IsAccurate locale_le machines sessions from to now h k =
    rw (summarize_usage_lem locale_le machines sessions from to now h) (
      All-sort locale_le (IsAccurate sessions from to now)
        (map (usage_of sessions from to now) machines)
        (usages-IsAccurate sessions from to now machines k))
