-- ===== src/Balancer/Election.antt =====
-- pkg/etdc_load_balancer.go: `DoElection`. What the etcd client answers in each turn of the loop is given.
use service_template.Base.{
  ℕ, suc, ◌+◌, Bool, true, false, List, [], ◌∷◌, if◌then◌else◌, ◌≡◌, refl, ap, ◌∙◌, All, length,
  if-true, if-false, arith,
}

-- A turn of the loop: whether `stopElection` is closed at its `select`, whether `Campaign` has an error,
-- whether the session is done at last, and whether `Resign` has an error.
pub record Round : Type 0 where
  pub stop_closed : Bool
  pub campaign_fails : Bool
  pub session_done : Bool
  pub resign_fails : Bool

-- The goroutine is at its `select`, waits for the end of the session, as the leader or not, or is gone.
pub data Standing : Type 0 where
  selecting : Standing
  waiting : (leader : Bool) → Standing
  stopped : Standing

pub record Election : Type 0 where
  pub campaigns : ℕ
  pub resigned : ℕ
  pub standing : Standing

unfoldable pub resign : Bool → ℕ → ℕ
resign fails resigned = if fails then resigned else suc resigned

-- The loop, with the campaigns so far and the calls of `Resign` that had no error.
unfoldable pub do_election : (campaigns resigned : ℕ) → List Round → Election
do_election campaigns resigned [] = record {
  campaigns = campaigns;
  resigned = resigned;
  standing = selecting;
}
do_election campaigns resigned (r ∷ rounds) =
    let later = do_election (suc campaigns) (resign r.resign_fails resigned) rounds in
    if r.stop_closed
    then record {
      campaigns = campaigns;
      resigned = resign r.resign_fails resigned;
      standing = stopped;
    }
    else if r.session_done
    then later
    else record {
      campaigns = suc campaigns;
      resigned = resigned;
      standing = waiting (if r.campaign_fails then false else true);
    }

-- A turn in which the session is over and the goroutine is not stopped.
abbrev pub IsOver : Round → Type 0
IsOver r = (r.stop_closed ≡ false) × (r.session_done ≡ true)

do_election-over :
    (campaigns resigned : ℕ) (r : Round) (rounds : List Round)
    → r.stop_closed ≡ false
    → r.session_done ≡ true
    → do_election campaigns resigned (r ∷ rounds)
      ≡ do_election (suc campaigns) (resign r.resign_fails resigned) rounds
unfolding do_election
do_election-over campaigns resigned r rounds s d =
    if-false r.stop_closed _ s ∙ if-true r.session_done _ d

-- When the session is over the loop goes round without a pause: each turn campaigns once more with the
-- session that is over, until it is stopped.
pub do_election-campaigns :
    (campaigns resigned : ℕ) (rounds : List Round)
    → All IsOver rounds
    → ((do_election campaigns resigned rounds).campaigns ≡ length rounds + campaigns)
      × ((do_election campaigns resigned rounds).standing ≡ selecting)
unfolding do_election
do_election-campaigns campaigns resigned [] h = (omega arith, refl)
do_election-campaigns campaigns resigned (r ∷ rounds) h =
    let next = do_election-over campaigns resigned r rounds h.0.0 h.0.1 in
    let more = do_election-campaigns (suc campaigns) (resign r.resign_fails resigned) rounds h.1 in
    (ap (λ e. e.campaigns) next ∙ more.0 ∙ omega arith, ap (λ e. e.standing) next ∙ more.1)
