-- ===== src/Deployment.antt =====
-- The whole agent (System.antt) together with the row of its machine on the server
-- (Server/Machines.antt): agent/src/main.rs and agent/src/client.rs with
-- api/src/modules/machines/machines.service.ts and `handleAgentMessage` of
-- api/src/modules/realtime/realtime.gateway.ts. Acknowledgements that the agent has sent are on the
-- way until the server takes one up or it is lost. What the server sends is not carried over: an
-- agent of System.antt may be sent anything.
pub mod Covered
pub mod Removal
pub mod Runs
use taymna.Common.{ℕ, ◌+◌, ◌≡◌, List, [], ◌∷◌, ◌++◌, Bool}
use taymna.Common.Text.{Str}
use taymna.Server.Machines.{Slice, Operation, revoke, acknowledge, perform}
use taymna.System.{World, System, Action, acknowledged, Move}

pub record Deployment : Type 0 where
  pub agent : System
  pub on_the_way : ℕ
  pub slice : Slice

abbrev pub acknowledgements : List Action → ℕ
acknowledgements [] = 0
acknowledgements (acknowledged ∷ actions) = 1 + acknowledgements actions
acknowledgements (_ ∷ actions) = acknowledgements actions

-- What the server does by itself or for an operator, not on an acknowledgement.
abbrev pub IsRequest : Operation → Type 0
IsRequest acknowledge = ⊥
IsRequest _ = Unit {0}

abbrev pub IsNoRevocation : Operation → Type 0
IsNoRevocation (revoke _) = ⊥
IsNoRevocation _ = Unit {0}

module _ (w : World) (verify : Str → Str → Bool) where
  -- One move of the agent, one operation of the server, or the loss of an acknowledgement.
  pub data Step : Deployment → List Action → List Operation → Deployment → Type 0 where
    move :
        (d : Deployment) (actions : List Action) (t : System)
        → Move w d.agent actions t
        → Step d actions []
            (record d { agent = t; on_the_way = d.on_the_way + acknowledgements actions })
    operate :
        (d : Deployment) (o : Operation)
        → IsRequest o
        → Step d [] (o ∷ []) (record d { slice = (perform verify o d.slice).0 })
    arrive :
        (d : Deployment) (n : ℕ)
        → d.on_the_way ≡ 1 + n
        → Step d []
            (acknowledge ∷ [])
            (record d { on_the_way = n; slice = (perform verify acknowledge d.slice).0 })
    lose :
        (d : Deployment) (n : ℕ) → d.on_the_way ≡ 1 + n → Step d [] [] (record d { on_the_way = n })

  pub data Course : Deployment → List Action → List Operation → Deployment → Type 0 where
    begin : (d : Deployment) → Course d [] [] d
    then_step :
        {d e f : Deployment} {before now : List Action} {earlier at_once : List Operation}
        → Course d before earlier e
        → Step e now at_once f
        → Course d (before ++ now) (earlier ++ at_once) f
