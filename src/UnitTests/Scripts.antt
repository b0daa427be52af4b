-- ===== src/UnitTests/Scripts.antt =====
-- agent/src/platform/windows.rs, `mod tests`.
use taymna.Common.{ℕ, ◌≡◌, refl, Bool, false, ◌||◌, ◌&&◌, List, [], ◌∷◌, map, nat_beq}
use taymna.Common.Int.{pos}
use taymna.Common.Text.{Str, codes}
use taymna.Warning.{normal}
use taymna.Platform.Base64.{base64, letter}
use taymna.Platform.Utf16.{utf16le}
use taymna.Platform.Quoting.{powershell_string}
use taymna.Platform.Windows.Scripts.{balloon, countdown}

base64_matches_the_vectors : List Str
unfolding base64 letter
base64_matches_the_vectors = map base64 (
    codes ""
    ∷ codes "f"
    ∷ codes "fo"
    ∷ codes "foo"
    ∷ codes "foob"
    ∷ codes "fooba"
    ∷ codes "foobar"
    ∷ [])

base64_matches_the_vectors_lem :
    base64_matches_the_vectors
    ≡ codes ""
      ∷ codes "Zg=="
      ∷ codes "Zm8="
      ∷ codes "Zm9v"
      ∷ codes "Zm9vYg=="
      ∷ codes "Zm9vYmE="
      ∷ codes "Zm9vYmFy"
      ∷ []
unfolding base64_matches_the_vectors
base64_matches_the_vectors_lem = refl

scripts_are_utf16le : List ℕ × Str
unfolding utf16le base64 letter
scripts_are_utf16le = (utf16le (codes "A"), base64 (utf16le (codes "A")))

scripts_are_utf16le_lem : scripts_are_utf16le ≡ (0x41 ∷ 0x00 ∷ [], codes "QQA=")
unfolding scripts_are_utf16le
scripts_are_utf16le_lem = refl

literals_cannot_be_broken_out_of : List Str
unfolding powershell_string
literals_cannot_be_broken_out_of =
    map powershell_string
      (codes "5 minutes remaining" ∷ codes "it's" ∷ codes "'; Start-Process calc; '" ∷ [])

literals_cannot_be_broken_out_of_lem :
    literals_cannot_be_broken_out_of
    ≡ codes "'5 minutes remaining'" ∷ codes "'it''s'" ∷ codes "'''; Start-Process calc; '''" ∷ []
unfolding literals_cannot_be_broken_out_of
literals_cannot_be_broken_out_of_lem = refl

-- `contains("%%")`.
abbrev has_mark : Str → Bool
has_mark [] = false
has_mark (c ∷ []) = false
has_mark (c ∷ d ∷ s) = nat_beq c b'%' && nat_beq d b'%' || has_mark (d ∷ s)

every_placeholder_is_substituted : Bool × Bool
unfolding balloon countdown
every_placeholder_is_substituted = (
  has_mark (
      balloon (record {
        title = codes "5 minutes remaining";
        body = codes "Save your work.";
        urgency = normal;
      })),
  has_mark (countdown (pos 30)),
)

every_placeholder_is_substituted_lem : every_placeholder_is_substituted ≡ (false, false)
unfolding every_placeholder_is_substituted
every_placeholder_is_substituted_lem = refl
