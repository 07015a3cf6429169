-- ===== src/Coordination/Gate/Counts.antt =====
-- The counters of the gate are exact in every interleaving, so its limit bounds the mutations.
use scaleway_file_storage_su.Prelude.{
  ℕ, zero, suc, ◌+◌, ◌≤◌, ◌≡◌, refl, Option, none, some, List, [], ◌∷◌, get_elem?, total, total-set,
  arith,
}
use scaleway_file_storage_su.Prelude.Results.{ok}
use scaleway_file_storage_su.Coordination.Gate.{
  Gate, new_gate, enter, take_token, admit, release, begin_quiesce, give_up, return_token,
  start_reconciliation, finish_reconciliation, resume,
}
use scaleway_file_storage_su.Coordination.Gate.Threads.{
  Phase, Move, System, Action, waiting, granted, holding, returning, calls, moves, quiesces, drains,
  starts, finishes, resumes, move, act, run, start, moved, move_at,
}

-- What a thread adds to `inflight`, to the items in `tokens` and to `queued`.
abbrev pub holds : Phase → ℕ
holds (holding c) = 1
holds _ = 0

abbrev pub keeps_token : Phase → ℕ
keeps_token (granted c) = 1
keeps_token (holding c) = 1
keeps_token returning = 1
keeps_token _ = 0

abbrev pub waits : Phase → ℕ
waits (waiting c) = 1
waits _ = 0

pub record Exact (s : System) : Type 0 where
  pub inflight_exact : s.gate.inflight ≡ total holds s.threads
  pub tokens_exact : s.gate.tokens ≡ total keeps_token s.threads
  pub queued_exact : s.gate.queued ≡ total waits s.threads
  pub tokens_le : s.gate.tokens ≤ s.gate.limit

-- One move changes the counters by what it changes of its thread.
record Balanced (gate gate' : Gate) (phase phase' : Phase) : Type 0 where
  inflight :
      holds phase ≤ gate.inflight → gate'.inflight + holds phase ≡ gate.inflight + holds phase'
  tokens :
      keeps_token phase ≤ gate.tokens
      → gate'.tokens + keeps_token phase ≡ gate.tokens + keeps_token phase'
  queued : waits phase ≤ gate.queued → gate'.queued + waits phase ≡ gate.queued + waits phase'
  limit : gate'.limit ≡ gate.limit
  within : gate.tokens ≤ gate.limit → gate'.tokens ≤ gate.limit

move-Balanced :
    (gate : Gate) (phase : Phase) (m : Move) (gate' : Gate) (phase' : Phase)
    → move gate phase m ≡ some (gate', phase')
    → Balanced gate gate' phase phase'
unfolding move give_up take_token admit release return_token
move-Balanced gate phase m gate' phase' h = ground arith

weight-le :
    (w : Phase → ℕ) (xs : List Phase) (i : ℕ) (phase : Phase)
    → get_elem? xs i ≡ some phase
    → w phase ≤ total w xs
weight-le w [] i phase h = absurd (cc)
weight-le w (x ∷ xs) zero phase h = ground arith
weight-le w (x ∷ xs) (suc i) phase h = omega (arith, weight-le w xs i phase h)

moved-Exact :
    (s : System) (i : ℕ) (phase : Phase) (o : Option (Gate × Phase))
    → get_elem? s.threads i ≡ some phase
    → ((gate' : Gate) (phase' : Phase)
        → o ≡ some (gate', phase')
        → Balanced s.gate gate' phase phase')
    → Exact s
    → Exact (moved s i o)
unfolding moved
moved-Exact s i phase none at b v = v
moved-Exact s i phase (some (gate', phase')) at b v =
    let d = b gate' phase' refl in
    let set_of = λ (w : Phase → ℕ). total-set w s.threads i phase phase' at in
    let below = λ (w : Phase → ℕ). weight-le w s.threads i phase at in
    record {
      inflight_exact =
          omega (arith, set_of holds, below holds, d.inflight (omega (arith, v, below holds)), v);
      tokens_exact = omega (
        arith,
        set_of keeps_token,
        below keeps_token,
        d.tokens (omega (arith, v, below keeps_token)),
        v,
      );
      queued_exact =
          omega (arith, set_of waits, below waits, d.queued (omega (arith, v, below waits)), v);
      tokens_le = omega (arith, d.limit, d.within v.tokens_le);
    }

move_at-Exact :
    (s : System) (i : ℕ) (m : Move) (o : Option Phase)
    → get_elem? s.threads i ≡ o
    → Exact s
    → Exact (move_at s i m o)
unfolding move_at
move_at-Exact s i m none at v = v
move_at-Exact s i m (some phase) at v =
    moved-Exact s i phase (move s.gate phase m) at
      (λ gate' phase' e. move-Balanced s.gate phase m gate' phase' e) v

-- Every action keeps the counters exact.
pub act-Exact : (s : System) (a : Action) → Exact s → Exact (act s a)
unfolding act enter begin_quiesce start_reconciliation finish_reconciliation resume
act-Exact s (calls is_cancelled carried) v = ground arith
act-Exact s (moves i m) v = move_at-Exact s i m (get_elem? s.threads i) refl v
act-Exact s (quiesces id) v = ground arith
act-Exact s drains v = ground arith
act-Exact s (starts id) v = ground arith
act-Exact s (finishes admission) v = ground arith
act-Exact s (resumes id) v = ground arith

pub run-Exact : (s : System) (as' : List Action) → Exact s → Exact (run s as')
unfolding run
run-Exact s [] v = v
run-Exact s (a ∷ as') v = run-Exact (act s a) as' (act-Exact s a v)

pub new_gate-Exact : (limit : ℕ) {gate : Gate} → new_gate limit ≡ ok gate → Exact (start gate)
unfolding new_gate
new_gate-Exact limit h = ground arith

-- In every interleaving of calls on a new gate the counters are exact: `inflight` is the number of
-- calls that hold the gate, the channel holds a token for each call from its grant to its return,
-- `queued` is the number of waiting calls, and the tokens stay within the limit.
pub new_gate-run-Exact :
    (limit : ℕ) (schedule : List Action) {gate : Gate}
    → new_gate limit ≡ ok gate
    → Exact (run (start gate) schedule)
new_gate-run-Exact limit schedule {gate} h =
    run-Exact (start gate) schedule (new_gate-Exact limit {gate = gate} h)

holds-le-keeps_token : (xs : List Phase) → total holds xs ≤ total keeps_token xs
holds-le-keeps_token [] = omega arith
holds-le-keeps_token (x ∷ xs) = ground (arith, holds-le-keeps_token xs)

-- In every interleaving of calls on a new gate the mutations in flight stay within the limit.
pub new_gate-run-within :
    (limit : ℕ) (schedule : List Action) {gate : Gate}
    → new_gate limit ≡ ok gate
    → (run (start gate) schedule).gate.inflight ≤ (run (start gate) schedule).gate.limit
new_gate-run-within limit schedule {gate} h =
    let s = run (start gate) schedule in
    let v = new_gate-run-Exact limit schedule {gate = gate} h in
    omega (arith, v.inflight_exact, v.tokens_exact, v.tokens_le, holds-le-keeps_token s.threads)
