-- ===== src/Platform/Linux/Notifier.antt =====
-- agent/src/platform/linux.rs, `LinuxNotifier`, and `apply` of agent/src/warning.rs.
pub mod Closing
pub mod Expiry
use taymna.Common.{
  ℕ, suc, ◌*◌, Bool, true, false, Option, none, some, List, [], ◌∷◌, ◌++◌, if◌then◌else◌,
}
use taymna.Common.Int.{ℤ, pos, negsuc, sub_ℕ, leb_ℤ}
use taymna.Common.Text.{Str, codes, to_string}
use taymna.Warning.{
  Notice, Urgency, normal, critical, WarningEffect, notify, show_final_warning,
  dismiss_final_warning,
}
use taymna.Platform.{app_name, final_warning_headline, final_warning_body}
use taymna.Platform.Linux.{DesktopSession, Shown, active_desktop_session, trim, parse_u32}

-- One child process of `run_as_desktop_user`: `runuser -u user -- program args`, with the two
-- variables of its environment.
pub record Run : Type 0 where
  pub user : Str
  pub program : Str
  pub args : List Str
  pub bus_address : Str
  pub runtime_dir : Str

unfoldable pub run_as_desktop_user : DesktopSession → Str → List Str → Run
unfolding to_string
run_as_desktop_user session program args = record {
  user = session.user;
  program = program;
  args = args;
  bus_address = codes "unix:path=/run/user/" ++ (to_string (pos session.uid) ++ codes "/bus");
  runtime_dir = codes "/run/user/" ++ to_string (pos session.uid);
}

-- What the operating system answers in one search for the desktop session and one run in it:
-- what `loginctl` prints, and the output of the run if it succeeds.
pub record Os : Type 0 where
  pub listed : Option Str
  pub show : Str → Shown
  pub output : Option Str

abbrev pub desktop : Os → Option DesktopSession
desktop os = active_desktop_session os.listed os.show

abbrev id_of : Option Str → Option ℕ
id_of none = none
id_of (some output) = parse_u32 (trim output)

-- The runs, and the id that is printed.
unfoldable pub notify_send : List Str → Str → Str → Os → List Run × Option ℕ
unfolding run_as_desktop_user parse_u32
notify_send options title body os = elim (desktop os) [
  | none ↦ ([], none)
  | some session ↦ (
    run_as_desktop_user session (codes "notify-send")
          (codes "--app-name" ∷ app_name ∷ (options ++ title ∷ body ∷ []))
        ∷ [],
    id_of os.output,
  )
]

abbrev pub urgency_name : Urgency → Str
urgency_name normal = codes "normal"
urgency_name critical = codes "critical"

abbrev pub close_args : ℕ → List Str
close_args id =
    codes "call"
    ∷ codes "--session"
    ∷ codes "--dest"
    ∷ codes "org.freedesktop.Notifications"
    ∷ codes "--object-path"
    ∷ codes "/org/freedesktop/Notifications"
    ∷ codes "--method"
    ∷ codes "org.freedesktop.Notifications.CloseNotification"
    ∷ to_string (pos id)
    ∷ []

abbrev close : ℕ → Option DesktopSession → List Run
close id none = []
close id (some session) = run_as_desktop_user session (codes "gdbus") (close_args id) ∷ []

-- The state is `final_warning`: the id of the one on screen, if there is one.
unfoldable pub dismiss : Option ℕ → Os → List Run × Option ℕ
unfolding run_as_desktop_user
dismiss none os = ([], none)
dismiss (some id) os = (close id (desktop os), none)

-- `remaining_secs.clamp(1, 600)` and `remaining_secs.max(0)`.
abbrev pub clamp : ℤ → ℤ
clamp r = if leb_ℤ r (pos 1) then pos 1 else if leb_ℤ (pos 600) r then pos 600 else r

abbrev at_least_zero : ℤ → ℤ
at_least_zero (pos n) = pos n
at_least_zero (negsuc n) = pos 0

abbrev pub times : ℕ → ℤ → ℤ
times k (pos n) = pos (n * k)
times k (negsuc n) = sub_ℕ 0 (suc n * k)

unfoldable pub expire_ms : ℤ → Str
unfolding to_string
expire_ms remaining = to_string (times 1000 (clamp remaining))

abbrev pub final_options : ℤ → List Str
final_options remaining =
    codes "--urgency"
    ∷ codes "critical"
    ∷ codes "--expire-time"
    ∷ expire_ms remaining
    ∷ codes "--print-id"
    ∷ []

abbrev pub final_body : ℤ → Str
final_body remaining =
    to_string (at_least_zero remaining) ++ (codes " seconds remaining. " ++ final_warning_body)

-- `first` answers the dismissal and `second` the new warning.
unfoldable pub show_final : Option ℕ → ℤ → Os → Os → List Run × Option ℕ
unfolding dismiss notify_send expire_ms
show_final state remaining first second =
    let (closing, empty) = dismiss state first in
    let (sending, id) =
      notify_send (final_options remaining) final_warning_headline (final_body remaining) second in
    (closing ++ sending, id)

unfoldable pub notify_user : Notice → Os → List Run
unfolding notify_send
notify_user notice os =
    (notify_send
      (codes "--urgency" ∷ urgency_name notice.urgency ∷ codes "--expire-time" ∷ codes "15000" ∷ [])
      notice.title notice.body os).0

-- `warning::apply`.
unfoldable pub apply : Option ℕ → WarningEffect → Os → Os → List Run × Option ℕ
unfolding notify_user show_final dismiss
apply state (notify notice) first second = (notify_user notice first, state)
apply state (show_final_warning remaining) first second = show_final state remaining first second
apply state dismiss_final_warning first second = dismiss state first

-- The warnings thread of `run` in agent/src/main.rs: every effect, and at the end of the channel
-- one more dismissal, which `last` answers.
unfoldable pub deliver : Option ℕ → List (WarningEffect × (Os × Os)) → Os → List Run × Option ℕ
unfolding apply
deliver state [] last = dismiss state last
deliver state ((effect, (first, second)) ∷ effects) last =
    let (runs, state') = apply state effect first second in
    let (more, end) = deliver state' effects last in (runs ++ more, end)
