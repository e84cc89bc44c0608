-- ===== src/Challenge/Opened.antt =====
-- What a day of challenges that is opened has.
use dalal_street_server.Base.{ℕ, ◌≡◌, ◌≢◌, false, Option, none, some, List, All}
use dalal_street_server.Account.State.{Server}
use dalal_street_server.Challenge.{unsupported, DailyChallenge, ChallengeError, ChallengeStore}

abbrev pub IsSupported : DailyChallenge → Type 0
IsSupported c = c.challenge_type ≢ unsupported

-- Without an error, `P` holds.
data Ensures {World : Type 0} (P : Type 0) : Option ChallengeError × World → Type 0 where
  stops : {e : ChallengeError} {w : World} → Ensures P (some e, w)
  ensures : {w : World} → P → Ensures P (none, w)

module _ (s : Server) (store : ChallengeStore s.World) where
  -- What an opening without an error needs.
  pub record CanOpen (day : ℕ) (w : s.World) : Type 0 where
    pub closed : store.is_open w ≡ false
    pub challenges :
        (cs : List DailyChallenge) × (store.challenges w day ≡ some cs) × All IsSupported cs
