-- ===== src/Tests/Commit.antt =====
-- Two requests to the log, of which the committer has one.
use ascent_db.Prelude.{◌≡◌, refl, [], ◌∷◌, ◌++◌}
use ascent_db.Wal.Commit.{
  State, Step, Reachable, CommitStep, Commits, IsLog, joined, receive_first, opened,
  Reachable-IsLog, Reachable-acknowledged,
}

abbrev first_sent : State
first_sent = record (opened (9 ∷ [])) { channel = (1 ∷ []) ∷ []; sent = (1 ∷ []) ∷ [] }

abbrev both_sent : State
both_sent = record (receive_first (1 ∷ []) [] first_sent) {
  channel = (2 ∷ 3 ∷ []) ∷ [];
  sent = (1 ∷ []) ∷ (2 ∷ 3 ∷ []) ∷ [];
}

first_reached : Reachable (9 ∷ []) first_sent
first_reached =
    Reachable.next (Reachable.next Reachable.start (Step.check (1 ∷ []) refl))
      (Step.send [] _ [] refl refl)

reached : Reachable (9 ∷ []) both_sent
unfolding receive_first
reached =
    Reachable.next
      (Reachable.next (Reachable.next first_reached (Step.committer (CommitStep.receive refl refl)))
        (Step.check (2 ∷ 3 ∷ []) refl))
      (Step.send [] _ [] refl refl)

Reachable-IsLog_example : IsLog (9 ∷ []) both_sent
Reachable-IsLog_example = Reachable-IsLog reached

Reachable-acknowledged_example :
    (s' : State) × Commits both_sent s'
    × (s'.acknowledged ≡ both_sent.sent)
    × (s'.file ≡ (9 ∷ []) ++ joined both_sent.sent)
Reachable-acknowledged_example = Reachable-acknowledged reached
