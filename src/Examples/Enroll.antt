-- ===== src/Examples/Enroll.antt =====
-- The theorems of Enroll at concrete inputs.
use taymna.Common.{◌≡◌, refl, false, true, Option, none, some, [], ◌∷◌}
use taymna.Common.Text.{Str, codes}
use taymna.Storage
use taymna.Storage.{Credentials, AgentState, Disk, written, SaveIo, load_for_enroll}
use taymna.Agent.{Agent}
use taymna.Agent.Loop.{entered, start}
use taymna.Enroll.{EnrollResponse, Answer, answered, ok, enroll}
use taymna.Enroll.Managed.{start-enroll}
use taymna.Examples.Codec.{read_state, state-RoundTrips, external}

-- A server whose bodies are JSON without a message.
abbrev message_of : Str → Option Str
message_of s = none

abbrev parse : Str → Option EnrollResponse
parse [] = none
parse (c ∷ s) = some (record { machine_id = c ∷ []; machine_secret = s })

abbrev corrupt : Disk
corrupt = record { state_json = some (codes "{"); state_json_tmp = none; state_json_corrupt = none }

abbrev fine : SaveIo
fine = record { write = written; harden = none; rename = none }

abbrev server : Str
server = codes "https://taymna.example"

abbrev created : Answer
created = answered true (codes "201 Created") (some (codes "{}"))

enrolled :
    (enroll external message_of parse corrupt server created none none 9 fine).1 ≡ ok (codes "{")
unfolding enroll load_for_enroll read_state
enrolled = refl

start-enroll_example :
    (a : Agent) × (c : Credentials) × (state : AgentState) × (start external
        (enroll external message_of parse corrupt server created none none 9 fine).0
        none
        10
        0
      ≡ entered c a [])
    × (c.server_url ≡ server)
    × (c.machine_id ≡ codes "{")
    × (a.decommissioned ≡ false)
    × (a.state.session ≡ none)
    × ((load_for_enroll external.from_json corrupt none none 9).1 ≡ Storage.ok state)
    × (a.clock.high_water_mark ≡ state.trusted_high_water_mark)
start-enroll_example =
    start-enroll external message_of parse state-RoundTrips corrupt server created none none 9 10 0
      fine (codes "{") enrolled
