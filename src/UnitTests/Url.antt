-- ===== src/UnitTests/Url.antt =====
-- agent/src/client.rs, `mod tests`. The shape of the acknowledgement on the wire is serde's.
use taymna.Common.{◌≡◌, refl, Option, some, List, [], ◌∷◌, map, arith}
use taymna.Common.Text.{Str, codes}
use taymna.Client.{ServerToAgent, ServerEvent, to_ws_url}
use taymna.Client.Connection.{Act, forward, handle_message}

-- `text` is a message that parses as a decommission.
parses_a_decommission : (Str → Option ServerToAgent) → Str → List Act
unfolding handle_message
parses_a_decommission parse text = handle_message parse text

parses_a_decommission_lem :
    (parse : Str → Option ServerToAgent) (text : Str)
    → parse text ≡ some ServerToAgent.decommission
    → parses_a_decommission parse text ≡ forward ServerEvent.decommission ∷ []
unfolding parses_a_decommission
parses_a_decommission_lem parse text h = ground arith

converts_urls : List Str
unfolding to_ws_url
converts_urls = map to_ws_url (
    codes "https://taymna.example.com"
    ∷ codes "http://localhost:3000"
    ∷ codes "http://localhost:3000/"
    ∷ codes "taymna.example.com"
    ∷ [])

converts_urls_lem :
    converts_urls
    ≡ codes "wss://taymna.example.com/ws"
      ∷ codes "ws://localhost:3000/ws"
      ∷ codes "ws://localhost:3000/ws"
      ∷ codes "wss://taymna.example.com/ws"
      ∷ []
unfolding converts_urls
converts_urls_lem = refl
