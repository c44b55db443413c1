-- ===== src/Discovery/Calls.antt =====
-- What a client does with a discovery, an implementation of the trait of src/discovery/mod.rs, and what
-- comes of it.
use hyperswarm_rs.Prelude.{ℕ, suc, List, [], ◌∷◌, ◌++◌, some, ok, ready, Next, Outcome, returns}
use hyperswarm_rs.Prelude.Outcomes
use hyperswarm_rs.Discovery.{Topic, PeerInfo, Discovery}

pub data Call : Type 0 where
  looks_up announces : Topic → Call
  polls : Call

-- The peers that a result of a poll hands out.
abbrev pub emitted : Next PeerInfo → List PeerInfo
emitted (ready (some (ok info))) = info ∷ []
emitted _ = []

abbrev pub emitted_all : List (Next PeerInfo) → List PeerInfo
emitted_all [] = []
emitted_all (result ∷ results) = emitted result ++ emitted_all results

-- How many of the calls are polls.
abbrev pub count_polls : List Call → ℕ
count_polls [] = 0
count_polls (looks_up topic ∷ calls) = count_polls calls
count_polls (announces topic ∷ calls) = count_polls calls
count_polls (polls ∷ calls) = suc (count_polls calls)

-- The calls in turn, with the results of the polls.
unfoldable pub run : {S : Type 0} → Discovery S → List Call → S → Outcome (List (Next PeerInfo) × S)
run d [] s = returns ([], s)
run d (looks_up topic ∷ calls) s = Outcomes.◌>>=◌ (d.lookup topic s) (run d calls)
run d (announces topic ∷ calls) s = Outcomes.◌>>=◌ (d.announce topic s) (run d calls)
run d (polls ∷ calls) s = Outcomes.◌>>=◌ (d.poll_next s) λ (result, s').
    Outcomes.◌>>=◌ (run d calls s') λ (results, s''). returns (result ∷ results, s'')
