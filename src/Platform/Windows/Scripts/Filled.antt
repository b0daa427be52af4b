-- ===== src/Platform/Windows/Scripts/Filled.antt =====
-- The scripts as they are handed to PowerShell.
use taymna.Common.{◌≡◌, refl, true, List, [], ◌∷◌, ◌++◌, arith, ap, ◌∙◌}
use taymna.Common.Int.{ℤ}
use taymna.Common.Text.{Str, codes, to_string}
use taymna.Warning.{Notice}
use taymna.Platform.{app_name, final_warning_headline, final_warning_body}
use taymna.Platform.Quoting.{powershell_string}
use taymna.Platform.Windows.Scripts.{
  lines, replace_text, balloon, countdown, clamp, icon_name, balloon_script, final_warning_script,
}
use taymna.Platform.Windows.Scripts.Quiet.{powershell_string-quiet, to_string-quiet}
use taymna.Platform.Windows.Scripts.Filling.{replace_text-render, fill-IsSound}
use taymna.Platform.Windows.Scripts.Template.{
  Part, fixed, slot, mark, render, fill, is_quiet, IsSound,
}

-- The texts of the balloon's script around its icon, title and text.
abbrev balloon_head : Str
balloon_head =
    lines (
      "" ∷ "$ErrorActionPreference = 'Stop'" ∷ "Add-Type -AssemblyName System.Windows.Forms"
      ∷ "Add-Type -AssemblyName System.Drawing"
      ∷ "$tray = New-Object System.Windows.Forms.NotifyIcon"
      ∷ "$tray.Icon = [System.Drawing.SystemIcons]::Information" ∷ [])
    ++ codes "$tray.BalloonTipIcon = [System.Windows.Forms.ToolTipIcon]::"

abbrev before_title : Str
before_title = lines ("" ∷ []) ++ codes "$tray.BalloonTipTitle = "

abbrev before_text : Str
before_text = lines ("" ∷ []) ++ codes "$tray.BalloonTipText = "

abbrev balloon_tail : Str
balloon_tail = lines (
    "" ∷ "$tray.Visible = $true" ∷ "$tray.ShowBalloonTip(15000)" ∷ "Start-Sleep -Seconds 12"
    ∷ "$tray.Visible = $false" ∷ "$tray.Dispose()" ∷ [])

abbrev pub balloon_parts : (icon title text : Part) → List Part
balloon_parts icon title text =
    fixed balloon_head
    ∷ icon
    ∷ fixed before_title
    ∷ title
    ∷ fixed before_text
    ∷ text
    ∷ fixed balloon_tail
    ∷ []

-- Those of the countdown around its seconds and its three lines.
abbrev countdown_head : Str
countdown_head =
    lines (
      "" ∷ "$ErrorActionPreference = 'Stop'" ∷ "Add-Type -AssemblyName System.Windows.Forms"
      ∷ "Add-Type -AssemblyName System.Drawing" ∷ [])
    ++ codes "$total = "

abbrev before_brand : Str
before_brand =
    lines (
      "" ∷ "$elapsed = [System.Diagnostics.Stopwatch]::StartNew()" ∷ ""
      ∷ "$form = New-Object System.Windows.Forms.Form" ∷ "$form.FormBorderStyle = 'None'"
      ∷ "$form.StartPosition = 'CenterScreen'"
      ∷ "$form.Size = New-Object System.Drawing.Size(520, 300)"
      ∷ "$form.BackColor = [System.Drawing.Color]::FromArgb(15, 16, 19)" ∷ "$form.TopMost = $true"
      ∷ "$form.ShowInTaskbar = $false" ∷ ""
      ∷ "function New-Line($text, $size, $style, $color, $top, $height) {"
      ∷ "  $label = New-Object System.Windows.Forms.Label" ∷ "  $label.Text = $text"
      ∷ "  $label.Font = New-Object System.Drawing.Font('Segoe UI', $size, $style)"
      ∷ "  $label.ForeColor = $color" ∷ "  $label.AutoSize = $false"
      ∷ "  $label.TextAlign = 'MiddleCenter'" ∷ "  $label.SetBounds(24, $top, 472, $height)"
      ∷ "  return $label" ∷ "}" ∷ "" ∷ "$bold = [System.Drawing.FontStyle]::Bold" ∷ [])
    ++ codes "$brand = New-Line "

abbrev before_headline : Str
before_headline =
    lines (
      " 10 $bold ([System.Drawing.Color]::FromArgb(132, 138, 150)) 30 22"
      ∷ "$clock = New-Line '' 48 $bold ([System.Drawing.Color]::FromArgb(245, 246, 248)) 58 84"
      ∷ [])
    ++ codes "$headline = New-Line "

abbrev before_body : Str
before_body =
    lines (" 12 $bold ([System.Drawing.Color]::FromArgb(232, 178, 92)) 148 24" ∷ [])
    ++ codes "$body = New-Line "

abbrev countdown_tail : Str
countdown_tail = lines (
    " 10 ([System.Drawing.FontStyle]::Regular) ([System.Drawing.Color]::FromArgb(168, 174, 186)) 176 48"
    ∷ "foreach ($line in $brand, $clock, $headline, $body) { $form.Controls.Add($line) }" ∷ ""
    ∷ "$dismiss = New-Object System.Windows.Forms.Button" ∷ "$dismiss.Text = 'Dismiss'"
    ∷ "$dismiss.FlatStyle = 'Flat'" ∷ "$dismiss.FlatAppearance.BorderSize = 0"
    ∷ "$dismiss.BackColor = [System.Drawing.Color]::FromArgb(32, 34, 40)"
    ∷ "$dismiss.ForeColor = [System.Drawing.Color]::FromArgb(226, 229, 234)"
    ∷ "$dismiss.SetBounds(200, 236, 120, 34)" ∷ "$dismiss.Add_Click({ $form.Close() })"
    ∷ "$form.Controls.Add($dismiss)" ∷ "" ∷ "$render = {"
    ∷ "  $left = $total - [int][System.Math]::Floor($elapsed.Elapsed.TotalSeconds)"
    ∷ "  if ($left -le 0) { $form.Close() }"
    ∷ "  else { $clock.Text = '{0:00}:{1:00}' -f [System.Math]::Floor($left / 60), ($left % 60) }"
    ∷ "}" ∷ "& $render" ∷ "" ∷ "$timer = New-Object System.Windows.Forms.Timer"
    ∷ "$timer.Interval = 250" ∷ "$timer.Add_Tick($render)" ∷ "$timer.Start()"
    ∷ "[void]$form.ShowDialog()" ∷ "$timer.Stop()" ∷ [])

abbrev pub countdown_parts : (seconds brand headline body : Part) → List Part
countdown_parts seconds brand headline body =
    fixed countdown_head
    ∷ seconds
    ∷ fixed before_brand
    ∷ brand
    ∷ fixed before_headline
    ∷ headline
    ∷ fixed before_body
    ∷ body
    ∷ fixed countdown_tail
    ∷ []

abbrev balloon_slots : List Part
balloon_slots = balloon_parts (slot (codes "ICON")) (slot (codes "TITLE")) (slot (codes "BODY"))

balloon_script-eq : balloon_script ≡ render balloon_slots
balloon_script-eq = refl

balloon_slots-IsSound : IsSound balloon_slots
balloon_slots-IsSound = ground arith

abbrev countdown_slots : List Part
countdown_slots =
    countdown_parts (slot (codes "SECONDS")) (slot (codes "BRAND")) (slot (codes "HEADLINE"))
      (slot (codes "BODY"))

countdown_script-eq : final_warning_script ≡ render countdown_slots
countdown_script-eq = refl

countdown_slots-IsSound : IsSound countdown_slots
countdown_slots-IsSound = ground arith

-- The three replacements, on any sound script.
fill_balloon :
    (title text icon : Str)
    → is_quiet title ≡ true
    → is_quiet text ≡ true
    → replace_text (mark (codes "ICON")) icon (
        replace_text
          (mark (codes "BODY"))
          text
          (replace_text (mark (codes "TITLE")) title (render balloon_slots)))
      ≡ render (balloon_parts (fixed icon) (fixed title) (fixed text))
fill_balloon title text icon h k =
    let one = fill (codes "TITLE") title balloon_slots in
    let two = fill (codes "BODY") text one in
    let one-IsSound = fill-IsSound (codes "TITLE") title balloon_slots h balloon_slots-IsSound in
    let two-IsSound = fill-IsSound (codes "BODY") text one k one-IsSound in
    ap (λ s. replace_text (mark (codes "ICON")) icon (replace_text (mark (codes "BODY")) text s))
      (replace_text-render (codes "TITLE") title balloon_slots (ground arith) balloon_slots-IsSound)
    ∙ ap (replace_text (mark (codes "ICON")) icon)
        (replace_text-render (codes "BODY") text one (ground arith) one-IsSound)
    ∙ replace_text-render (codes "ICON") icon two (ground arith) two-IsSound

-- The structure of the balloon's script is fixed: for every notice whose title and text have no two
-- percent signs in a row and none at the end, the script is its fixed texts with the name of the
-- icon and the two quoted literals between them, and no other place of it depends on the notice.
pub balloon_lem :
    (n : Notice)
    → is_quiet n.title ≡ true
    → is_quiet n.body ≡ true
    → balloon n
      ≡ render (
          balloon_parts
            (fixed (icon_name n.urgency))
            (fixed (powershell_string n.title))
            (fixed (powershell_string n.body)))
unfolding balloon
balloon_lem n h k =
    fill_balloon (powershell_string n.title) (powershell_string n.body) (icon_name n.urgency)
      (powershell_string-quiet n.title h) (powershell_string-quiet n.body k)

fill_countdown :
    (seconds brand headline body : Str)
    → is_quiet seconds ≡ true
    → is_quiet brand ≡ true
    → is_quiet headline ≡ true
    → replace_text (mark (codes "BODY")) body (
        replace_text (mark (codes "HEADLINE")) headline (
          replace_text
            (mark (codes "BRAND"))
            brand
            (replace_text (mark (codes "SECONDS")) seconds (render countdown_slots))))
      ≡ render (countdown_parts (fixed seconds) (fixed brand) (fixed headline) (fixed body))
fill_countdown seconds brand headline body h k l =
    let one = fill (codes "SECONDS") seconds countdown_slots in
    let two = fill (codes "BRAND") brand one in
    let three = fill (codes "HEADLINE") headline two in
    let first = fill-IsSound (codes "SECONDS") seconds countdown_slots h countdown_slots-IsSound in
    let second = fill-IsSound (codes "BRAND") brand one k first in
    let third = fill-IsSound (codes "HEADLINE") headline two l second in
    ap
      (λ s. replace_text (mark (codes "BODY")) body (
        replace_text (mark (codes "HEADLINE")) headline
          (replace_text (mark (codes "BRAND")) brand s)))
      (replace_text-render (codes "SECONDS") seconds countdown_slots (ground arith)
        countdown_slots-IsSound)
    ∙ ap
        (λ s.
          replace_text (mark (codes "BODY")) body
            (replace_text (mark (codes "HEADLINE")) headline s))
        (replace_text-render (codes "BRAND") brand one (ground arith) first)
    ∙ ap (replace_text (mark (codes "BODY")) body)
        (replace_text-render (codes "HEADLINE") headline two (ground arith) second)
    ∙ replace_text-render (codes "BODY") body three (ground arith) third

-- The structure of the countdown's script is fixed: for every number of remaining seconds the script
-- is its fixed texts with the digits of that number, brought between 1 and 600, and the three quoted
-- constants between them, and no other place of it depends on the number.
pub countdown_lem :
    (remaining : ℤ)
    → countdown remaining
      ≡ render (
          countdown_parts
            (fixed (to_string (clamp remaining)))
            (fixed (powershell_string app_name))
            (fixed (powershell_string final_warning_headline))
            (fixed (powershell_string final_warning_body)))
unfolding countdown
countdown_lem remaining =
    fill_countdown (to_string (clamp remaining)) (powershell_string app_name)
      (powershell_string final_warning_headline) (powershell_string final_warning_body)
      (to_string-quiet (clamp remaining)) (powershell_string-quiet app_name refl)
      (powershell_string-quiet final_warning_headline refl)
