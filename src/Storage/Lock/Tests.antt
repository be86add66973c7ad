-- ===== src/Storage/Lock/Tests.antt =====
-- Runs of src/storage/lock.ts: the theorems at concrete runs, and two runs in which two live calls
-- hold the lock together.
use agentgather.Common.{ℕ, ◌≡◌, refl, true, false, none, some, inl}
use agentgather.Storage.Lock.{
  LockRecord, Disk, Pc, retry, opened, written, holding, write_own, Move, acquire, write, secure,
  inspect, judge_dead, judge_old, open_reclaim, reclaim_taken, stamp, recheck_same, remove, close,
  weigh, reclaimer_dead, rename, drop, update, System, go_on, die, Run, still, later, start,
}
use agentgather.Storage.Lock.Invariant.{owns}
use agentgather.Storage.Lock.Exclusion.{is_calm, is_calm_run, exclusion_lem}
use agentgather.Storage.Lock.Recovery.{Obtained, recovery_lem}

-- Every call in a process of its own.
abbrev record_of : ℕ → LockRecord
record_of a = record { pid = a; created_at = 100 }

abbrev all_alive : System
all_alive = start (λ pid. true)

abbrev go :
    {s : System} (a : ℕ) {d : Disk} {p : Pc}
    → Run record_of all_alive s
    → s.alive a ≡ true
    → Move record_of s.alive a s.disk (s.pc a) d p
    → Run record_of all_alive (record s { disk = d; pc = update s.pc a p })
go a run live move = later run (go_on a live move)

-- The first call holds the lock.
held : System
unfolding update write_own
held = record {
  disk = record {
    lock = some (record { maker = 0; content = some (record_of 0) });
    reclaim = none;
  };
  pc = update (update (update (λ a. retry) 0 opened) 0 written) 0 holding;
  alive = λ pid. true;
}

held_run : Run record_of all_alive held
unfolding held update write_own
held_run = go 0 (go 0 (go 0 still refl (acquire refl)) refl write) refl (secure refl)

held_calm : is_calm_run record_of held_run ≡ true
unfolding held held_run is_calm_run is_calm update write_own
held_calm = refl

exclusion_example : ◌≡◌ {A = ℕ} 0 0
unfolding held update owns
exclusion_example =
    exclusion_lem record_of (λ pid. true) held held_run held_calm 0 0 refl refl refl refl

-- It died.
abandoned : System
unfolding held update
abandoned = record held { alive = update (λ pid. true) 0 false }

live_waiter : abandoned.alive (record_of 1).pid ≡ true
unfolding abandoned update
live_waiter = refl

recovery_example : (t : System) × Obtained record_of abandoned 1 live_waiter t
unfolding abandoned held update
recovery_example =
    recovery_lem record_of abandoned 1 (record { maker = 0; content = some (record_of 0) })
      (record_of 0) live_waiter refl refl refl refl (inl refl)

-- Two live calls that hold the lock.
abbrev BothHold : System → ℕ → ℕ → Type 0
BothHold s a b = (s.pc a ≡ holding) × (s.pc b ≡ holding) × (s.alive a ≡ true) × (s.alive b ≡ true)

-- A call that judged an empty file by its age removes the file of the next call, which is still empty.
empty_file_race : (s : System) × Run record_of all_alive s × BothHold s 2 3
unfolding update write_own
empty_file_race = (
  _,
  (go 2
      (go 2
        (go 3
          (go 3
            (go 3
              (go 1
                (go 1
                  (go 1
                    (go 1
                      (go 2
                        (go 2
                          (go 2
                            (go 2
                              (go 2
                                (go 2
                                  (go 2
                                    (go 2
                                      (go 1
                                        (go 1 (later (go 0 still refl (acquire refl)) (die 0)) refl
                                          (inspect refl))
                                        refl judge_old)
                                      refl (inspect refl))
                                    refl judge_old)
                                  refl (open_reclaim refl))
                                refl (stamp 0))
                              refl (recheck_same refl refl))
                            refl remove)
                          refl close)
                        refl (acquire refl))
                      refl (open_reclaim refl))
                    refl (stamp 0))
                  refl (recheck_same refl refl))
                refl remove)
              refl (acquire refl))
            refl write)
          refl (secure refl))
        refl write)
      refl (secure refl)),
  (refl, refl, refl, refl),
)

-- A call that takes away the reclaim lock of another after its maker, which was dead, has been replaced.
reclaim_race : (s : System) × Run record_of all_alive s × BothHold s 3 5
unfolding update write_own
reclaim_race = (
  _,
  (go 5
      (go 5
        (go 5
          (go 4
            (go 3
              (go 3
                (go 3
                  (go 3
                    (go 3
                      (go 4
                        (go 4
                          (go 4
                            (go 4
                              (go 4
                                (go 2
                                  (go 3
                                    (go 3
                                      (go 3
                                        (go 3
                                          (go 3
                                            (go 3
                                              (go 3
                                                (go 3
                                                  (go 3
                                                    (go 3
                                                      (go 3
                                                        (go 3
                                                          (go 2
                                                            (go 2
                                                            (go 2
                                                            (go 2
                                                            (go 2
                                                            (later
                                                            (go 1
                                                            (go 1
                                                            (go 1
                                                            (go 1
                                                            (later
                                                            (go 0
                                                            (go 0 (go 0 still refl (acquire refl))
                                                            refl write)
                                                            refl (secure refl))
                                                            (die 0))
                                                            refl (inspect refl))
                                                            refl (judge_dead refl))
                                                            refl (open_reclaim refl))
                                                            refl (stamp 0))
                                                            (die 1))
                                                            refl (inspect refl))
                                                            refl (judge_dead refl))
                                                            refl (reclaim_taken refl))
                                                            refl (weigh refl))
                                                            refl (reclaimer_dead refl))
                                                          refl (inspect refl))
                                                        refl (judge_dead refl))
                                                      refl (reclaim_taken refl))
                                                    refl (weigh refl))
                                                  refl (reclaimer_dead refl))
                                                refl (rename refl))
                                              refl (drop refl))
                                            refl (inspect refl))
                                          refl (judge_dead refl))
                                        refl (open_reclaim refl))
                                      refl (stamp 0))
                                    refl (recheck_same refl refl))
                                  refl (rename refl))
                                refl (inspect refl))
                              refl (judge_dead refl))
                            refl (open_reclaim refl))
                          refl (stamp 0))
                        refl (recheck_same refl refl))
                      refl remove)
                    refl close)
                  refl (acquire refl))
                refl write)
              refl (secure refl))
            refl remove)
          refl (acquire refl))
        refl write)
      refl (secure refl)),
  (refl, refl, refl, refl),
)
