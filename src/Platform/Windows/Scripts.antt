-- ===== src/Platform/Windows/Scripts.antt =====
-- agent/src/platform/windows.rs, BALLOON_SCRIPT and FINAL_WARNING_SCRIPT, and how they are filled in.
pub mod Filled
pub mod Filling
pub mod Marks
pub mod Quiet
pub mod Template
use taymna.Common.{
  ℕ, zero, suc, Bool, true, false, List, [], ◌∷◌, ◌++◌, if◌then◌else◌, nat_beq, ◌&&◌, length, ◌-◌,
}
use taymna.Common.Int.{ℤ, pos, leb_ℤ}
use taymna.Common.Text.{Str, codes, to_string}
use Prim.Native.String.{String}
use taymna.Warning.{Notice, Urgency, normal, critical}
use taymna.Platform.{app_name, final_warning_headline, final_warning_body}
use taymna.Platform.Quoting.{powershell_string}

abbrev pub lines : List String → Str
lines [] = []
lines (l ∷ ls) = codes l ++ 10 ∷ lines ls

unfoldable pub starts_with : Str → Str → Bool
starts_with [] s = true
starts_with (c ∷ prefix) [] = false
starts_with (c ∷ prefix) (x ∷ s) = nat_beq x c && starts_with prefix s

-- `str::replace`. Behind a match the rest of it is skipped.
unfoldable pub replace_from : (skip : ℕ) → (pattern by : Str) → Str → Str
unfolding starts_with
replace_from skip pattern by [] = []
replace_from (suc skip) pattern by (c ∷ s) = replace_from skip pattern by s
replace_from zero pattern by (c ∷ s) = elim (starts_with pattern (c ∷ s)) [
  | true ↦ by ++ replace_from (length pattern - 1) pattern by s
  | false ↦ c ∷ replace_from zero pattern by s
]

unfoldable pub replace_text : (pattern by : Str) → Str → Str
unfolding replace_from
replace_text pattern by s = replace_from zero pattern by s

abbrev pub balloon_script : Str
balloon_script = lines (
    "" ∷ "$ErrorActionPreference = 'Stop'" ∷ "Add-Type -AssemblyName System.Windows.Forms"
    ∷ "Add-Type -AssemblyName System.Drawing" ∷ "$tray = New-Object System.Windows.Forms.NotifyIcon"
    ∷ "$tray.Icon = [System.Drawing.SystemIcons]::Information"
    ∷ "$tray.BalloonTipIcon = [System.Windows.Forms.ToolTipIcon]::%%ICON%%"
    ∷ "$tray.BalloonTipTitle = %%TITLE%%" ∷ "$tray.BalloonTipText = %%BODY%%"
    ∷ "$tray.Visible = $true" ∷ "$tray.ShowBalloonTip(15000)" ∷ "Start-Sleep -Seconds 12"
    ∷ "$tray.Visible = $false" ∷ "$tray.Dispose()" ∷ [])

abbrev pub final_warning_script : Str
final_warning_script = lines (
    "" ∷ "$ErrorActionPreference = 'Stop'" ∷ "Add-Type -AssemblyName System.Windows.Forms"
    ∷ "Add-Type -AssemblyName System.Drawing" ∷ "$total = %%SECONDS%%"
    ∷ "$elapsed = [System.Diagnostics.Stopwatch]::StartNew()" ∷ ""
    ∷ "$form = New-Object System.Windows.Forms.Form" ∷ "$form.FormBorderStyle = 'None'"
    ∷ "$form.StartPosition = 'CenterScreen'"
    ∷ "$form.Size = New-Object System.Drawing.Size(520, 300)"
    ∷ "$form.BackColor = [System.Drawing.Color]::FromArgb(15, 16, 19)" ∷ "$form.TopMost = $true"
    ∷ "$form.ShowInTaskbar = $false" ∷ ""
    ∷ "function New-Line($text, $size, $style, $color, $top, $height) {"
    ∷ "  $label = New-Object System.Windows.Forms.Label" ∷ "  $label.Text = $text"
    ∷ "  $label.Font = New-Object System.Drawing.Font('Segoe UI', $size, $style)"
    ∷ "  $label.ForeColor = $color" ∷ "  $label.AutoSize = $false"
    ∷ "  $label.TextAlign = 'MiddleCenter'" ∷ "  $label.SetBounds(24, $top, 472, $height)"
    ∷ "  return $label" ∷ "}" ∷ "" ∷ "$bold = [System.Drawing.FontStyle]::Bold"
    ∷ "$brand = New-Line %%BRAND%% 10 $bold ([System.Drawing.Color]::FromArgb(132, 138, 150)) 30 22"
    ∷ "$clock = New-Line '' 48 $bold ([System.Drawing.Color]::FromArgb(245, 246, 248)) 58 84"
    ∷ "$headline = New-Line %%HEADLINE%% 12 $bold ([System.Drawing.Color]::FromArgb(232, 178, 92)) 148 24"
    ∷ "$body = New-Line %%BODY%% 10 ([System.Drawing.FontStyle]::Regular) ([System.Drawing.Color]::FromArgb(168, 174, 186)) 176 48"
    ∷ "foreach ($line in $brand, $clock, $headline, $body) { $form.Controls.Add($line) }" ∷ ""
    ∷ "$dismiss = New-Object System.Windows.Forms.Button" ∷ "$dismiss.Text = 'Dismiss'"
    ∷ "$dismiss.FlatStyle = 'Flat'" ∷ "$dismiss.FlatAppearance.BorderSize = 0"
    ∷ "$dismiss.BackColor = [System.Drawing.Color]::FromArgb(32, 34, 40)"
    ∷ "$dismiss.ForeColor = [System.Drawing.Color]::FromArgb(226, 229, 234)"
    ∷ "$dismiss.SetBounds(200, 236, 120, 34)" ∷ "$dismiss.Add_Click({ $form.Close() })"
    ∷ "$form.Controls.Add($dismiss)" ∷ "" ∷ "$render = {"
    ∷ "  $left = $total - [int][System.Math]::Floor($elapsed.Elapsed.TotalSeconds)"
    ∷ "  if ($left -le 0) { $form.Close() }"
    ∷ "  else { $clock.Text = '{0:00}:{1:00}' -f [System.Math]::Floor($left / 60), ($left % 60) }"
    ∷ "}" ∷ "& $render" ∷ "" ∷ "$timer = New-Object System.Windows.Forms.Timer"
    ∷ "$timer.Interval = 250" ∷ "$timer.Add_Tick($render)" ∷ "$timer.Start()"
    ∷ "[void]$form.ShowDialog()" ∷ "$timer.Stop()" ∷ [])

abbrev pub icon_name : Urgency → Str
icon_name normal = codes "Info"
icon_name critical = codes "Warning"

-- The script of `notify`.
unfoldable pub balloon : Notice → Str
unfolding replace_text powershell_string
balloon notice = replace_text (codes "%%ICON%%") (icon_name notice.urgency) (
    replace_text (codes "%%BODY%%") (powershell_string notice.body)
      (replace_text (codes "%%TITLE%%") (powershell_string notice.title) balloon_script))

-- `remaining_secs.clamp(1, 600)`.
abbrev pub clamp : ℤ → ℤ
clamp r = if leb_ℤ r (pos 1) then pos 1 else if leb_ℤ (pos 600) r then pos 600 else r

-- The script of `show_final_warning`.
unfoldable pub countdown : ℤ → Str
unfolding replace_text powershell_string to_string
countdown remaining = replace_text (codes "%%BODY%%") (powershell_string final_warning_body) (
    replace_text (codes "%%HEADLINE%%") (powershell_string final_warning_headline) (
      replace_text (codes "%%BRAND%%") (powershell_string app_name)
        (replace_text (codes "%%SECONDS%%") (to_string (clamp remaining)) final_warning_script)))
