-- ===== src/Sdk/Connectivity.antt =====
-- model/Message.h and connectivity/ConnectivityService.h of WolkSDK-Cpp.
use wolk_connect_cpp.Base.{String, Bool, true, false, List, [], ◌∷◌, ◌++◌, ◌≡◌}

pub record Message : Type 0 where
  pub content : String
  pub channel : String

-- The connection to the platform. `sent` is the messages that went out, oldest first.
pub record Connectivity : Type 1 where
  pub Network : Type 0
  pub publish : Network → Message → Bool × Network
  pub sent : Network → List Message
  pub sent-publish :
      (n : Network) (m : Message) → (publish n m).0 ≡ true → sent (publish n m).1 ≡ sent n ++ m ∷ []
  pub sent-publish_refused :
      (n : Network) (m : Message) → (publish n m).0 ≡ false → sent (publish n m).1 ≡ sent n
