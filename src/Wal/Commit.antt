-- ===== src/Wal/Commit.antt =====
-- The group commit of the log: submit in batch mode, the committer and Close, as steps of goroutines
-- that interleave. Writes and syncs succeed; a request is its bytes.
use ascent_db.Prelude.{
  ℕ, ◌≡◌, ◌∙◌, refl, sym, ap, List, [], ◌∷◌, ◌++◌, append-nil, append_assoc, Bool, true, false,
}

abbrev Request : Type 0
Request = List ℕ

-- Where the committer is: waiting for a request, collecting what else is in the channel, or about to
-- write what it has collected.
pub data Phase : Type 0 where
  waiting draining writing : Phase

-- `checked` are the calls of submit that have found the log open and not yet sent, `sent` all
-- requests that went into the channel, in order, and `acknowledged` those whose submit returned
-- without an error.
pub record State : Type 0 where
  pub file : List ℕ
  pub closed : Bool
  pub checked : List Request
  pub channel : List Request
  pub batch : List Request
  pub phase : Phase
  pub sent : List Request
  pub acknowledged : List Request

abbrev pub opened : List ℕ → State
opened file = record {
  file = file;
  closed = false;
  checked = [];
  channel = [];
  batch = [];
  phase = waiting;
  sent = [];
  acknowledged = [];
}

-- `batch = append(batch, r.buf...)`
unfoldable pub joined : List Request → List ℕ
joined [] = []
joined (r ∷ rs) = r ++ joined rs

unfoldable pub receive_first : Request → List Request → State → State
receive_first r rest s = record s { channel = rest; batch = r ∷ []; phase = draining }

unfoldable pub drain_one : Request → List Request → State → State
drain_one r rest s = record s { channel = rest; batch = s.batch ++ (r ∷ []) }

-- Write, Sync, and then every request of the batch is done.
unfoldable pub commit : State → State
commit s = record s {
  file = s.file ++ joined s.batch;
  batch = [];
  phase = waiting;
  acknowledged = s.acknowledged ++ s.batch;
}

-- A step of the committer.
pub data CommitStep : State → State → Type 0 where
  receive :
      {s : State} {r : Request} {rest : List Request}
      → s.phase ≡ waiting
      → s.channel ≡ r ∷ rest
      → CommitStep s (receive_first r rest s)
  drain :
      {s : State} {r : Request} {rest : List Request}
      → s.phase ≡ draining
      → s.channel ≡ r ∷ rest
      → CommitStep s (drain_one r rest s)
  stop :
      {s : State}
      → s.phase ≡ draining
      → s.channel ≡ []
      → CommitStep s (record s { phase = writing })
  write : {s : State} → s.phase ≡ writing → CommitStep s (commit s)

-- A step of any goroutine. Any call that has checked may be the next to send. A send on the closed channel is a panic and has no next state.
pub data Step : State → State → Type 0 where
  check :
      {s : State} (r : Request) → s.closed ≡ false → Step s (record s { checked = r ∷ s.checked })
  send :
      {s : State} (earlier : List Request) (r : Request) (later : List Request)
      → s.checked ≡ earlier ++ (r ∷ later)
      → s.closed ≡ false
      → Step s (record s {
        checked = earlier ++ later;
        channel = s.channel ++ (r ∷ []);
        sent = s.sent ++ (r ∷ []);
      })
  close : {s : State} → s.closed ≡ false → Step s (record s { closed = true })
  committer : {s s' : State} → CommitStep s s' → Step s s'

pub data Reachable (file : List ℕ) : State → Type 0 where
  start : Reachable file (opened file)
  next : {s s' : State} → Reachable file s → Step s s' → Reachable file s'

joined-append : (a b : List Request) → joined (a ++ b) ≡ joined a ++ joined b
unfolding joined
joined-append [] b = refl
joined-append (r ∷ a) b =
    ap (λ l. r ++ l) (joined-append a b) ∙ sym (append_assoc r (joined a) (joined b))

-- The requests are acknowledged in the order in which they were sent, and the file holds exactly the
-- bytes of the acknowledged ones.
pub record IsLog (file : List ℕ) (s : State) : Type 0 where
  pub contents : s.file ≡ file ++ joined s.acknowledged
  pub in_order : s.acknowledged ++ (s.batch ++ s.channel) ≡ s.sent
  pub idle : s.phase ≡ waiting → s.batch ≡ []

CommitStep-IsLog : {file : List ℕ} {s s' : State} → CommitStep s s' → IsLog file s → IsLog file s'
unfolding receive_first drain_one commit
CommitStep-IsLog (receive {s} {r} {rest} e c) h = record {
  contents = h.contents;
  in_order =
      sym
        (ap (λ b. s.acknowledged ++ (b ++ s.channel)) (h.idle e) ∙ ap (λ l. s.acknowledged ++ l) c)
      ∙ h.in_order;
  idle = λ q. cc q;
}
CommitStep-IsLog (drain {s} {r} {rest} e c) h = record {
  contents = h.contents;
  in_order =
      ap (λ l. s.acknowledged ++ l) (append_assoc s.batch (r ∷ []) rest)
      ∙ sym (ap (λ l. s.acknowledged ++ (s.batch ++ l)) c)
      ∙ h.in_order;
  idle = λ q. cc (q, e);
}
CommitStep-IsLog (stop {s} e c) h = record {
  contents = h.contents;
  in_order = h.in_order;
  idle = λ q. cc q;
}
CommitStep-IsLog {file} (write {s} e) h = record {
  contents =
      ap (λ l. l ++ joined s.batch) h.contents
      ∙ append_assoc file (joined s.acknowledged) (joined s.batch)
      ∙ ap (λ l. file ++ l) (sym (joined-append s.acknowledged s.batch));
  in_order = append_assoc s.acknowledged s.batch s.channel ∙ h.in_order;
  idle = λ q. refl;
}

Step-IsLog : {file : List ℕ} {s s' : State} → Step s s' → IsLog file s → IsLog file s'
Step-IsLog (check r e) h = record { contents = h.contents; in_order = h.in_order; idle = h.idle }
Step-IsLog (send {s} earlier r later c e) h = record {
  contents = h.contents;
  in_order =
      ap (λ l. s.acknowledged ++ l) (sym (append_assoc s.batch s.channel (r ∷ [])))
      ∙ sym (append_assoc s.acknowledged (s.batch ++ s.channel) (r ∷ []))
      ∙ ap (λ l. l ++ (r ∷ [])) h.in_order;
  idle = h.idle;
}
Step-IsLog (close e) h = record { contents = h.contents; in_order = h.in_order; idle = h.idle }
Step-IsLog (committer c) h = CommitStep-IsLog c h

pub Reachable-IsLog : {file : List ℕ} {s : State} → Reachable file s → IsLog file s
unfolding joined
Reachable-IsLog {file} start = record {
  contents = sym (append-nil file);
  in_order = refl;
  idle = λ e. refl;
}
Reachable-IsLog (next r step) = Step-IsLog step (Reachable-IsLog r)

-- Steps of the committer alone.
pub data Commits : State → State → Type 0 where
  stay : {s : State} → Commits s s
  go : {s s' s'' : State} → CommitStep s s' → Commits s' s'' → Commits s s''

-- The committer comes to wait on an empty channel.
abbrev Settles : State → Type 0
Settles s =
    (s' : State) × Commits s s' × (s'.phase ≡ waiting) × (s'.channel ≡ []) × (s'.sent ≡ s.sent)

after : {s s' : State} → CommitStep s s' → s'.sent ≡ s.sent → Settles s' → Settles s
after c e (s'', cs, w, n, e') = (s'', go c cs, w, n, e' ∙ e)

Settles-draining :
    (channel : List Request) {s : State} → s.phase ≡ draining → s.channel ≡ channel → Settles s
unfolding commit drain_one
Settles-draining [] {s} e c =
    after (stop e c) refl
      (after (write {s = record s { phase = writing }} refl) refl (_, stay, refl, c, refl))
Settles-draining (r ∷ rest) {s} e c =
    after (drain e c) refl (Settles-draining rest {s = drain_one r rest s} e refl)

Settles-waiting :
    (channel : List Request) {s : State} → s.phase ≡ waiting → s.channel ≡ channel → Settles s
unfolding receive_first
Settles-waiting [] {s} e c = (s, stay, e, c, refl)
Settles-waiting (r ∷ rest) {s} e c =
    after (receive e c) refl (Settles-draining rest {s = receive_first r rest s} refl refl)

Settles-any : (phase : Phase) {s : State} → s.phase ≡ phase → Settles s
unfolding commit
Settles-any waiting {s} e = Settles-waiting s.channel e refl
Settles-any draining {s} e = Settles-draining s.channel e refl
Settles-any writing {s} e =
    after (write e) refl (Settles-waiting s.channel {s = commit s} refl refl)

Commits-IsLog : {file : List ℕ} {s s' : State} → Commits s s' → IsLog file s → IsLog file s'
Commits-IsLog stay h = h
Commits-IsLog (go c cs) h = Commits-IsLog cs (CommitStep-IsLog c h)

pub Reachable-acknowledged :
    {file : List ℕ} {s : State}
    → Reachable file s
    → (s' : State) × Commits s s' × (s'.acknowledged ≡ s.sent) × (s'.file ≡ file ++ joined s.sent)
Reachable-acknowledged {file} {s} r =
    let (s', cs, w, n, e) = Settles-any s.phase {s = s} refl in
    let h : IsLog file s' = Commits-IsLog cs (Reachable-IsLog r) in
    let all : s'.acknowledged ≡ s.sent =
      sym (append-nil s'.acknowledged)
      ∙ sym (
          ap (λ b. s'.acknowledged ++ (b ++ s'.channel)) (h.idle w)
          ∙ ap (λ l. s'.acknowledged ++ l) n)
      ∙ h.in_order
      ∙ e in
    (s', cs, all, h.contents ∙ ap (λ l. file ++ joined l) all)
