-- ===== src/Storage/Lock/Recovery.antt =====
-- How the writer lock of src/storage/lock.ts comes free again after its holder, or one that
-- reclaimed it, has died.
use agentgather.Common.{
  ℕ, ◌≡◌, ◌⊎◌, refl, sym, subst, true, false, Option, none, some, ==-refl, inl, inr,
}
use agentgather.Storage.Lock.{
  LockRecord, LockFile, Disk, Pc, retry, written, holding, inspecting, suspecting, weighing,
  new_file, Move, acquire, write, secure, inspect, judge_dead, open_reclaim, reclaim_taken, stamp,
  recheck_same, remove, close, weigh, reclaimer_dead, rename, drop, update, System, go_on, Run,
  still, later,
}
use agentgather.Storage.Lock.Exclusion.{write_own_mine}

update_same : {A : Type 0} (f : ℕ → A) (i : ℕ) (x : A) → update f i x i ≡ x
unfolding update
update_same f i x = rw (==-refl i) refl

-- A run in which only the live call `a` takes steps, and no process dies.
pub data OwnRun (record_of : ℕ → LockRecord) (a : ℕ) (s : System) : System → Type 0 where
  rests : OwnRun record_of a s s
  moves :
      {t : System} {d : Disk} {p : Pc}
      → OwnRun record_of a s t
      → t.alive (record_of a).pid ≡ true
      → Move record_of t.alive a t.disk (t.pc a) d p
      → OwnRun record_of a s (record t { disk = d; pc = update t.pc a p })

-- Such a run is one of the runs of the system.
OwnRun-Run :
    (record_of : ℕ → LockRecord) (a : ℕ) (s t : System) → OwnRun record_of a s t → Run record_of s t
OwnRun-Run record_of a s _ rests = still
OwnRun-Run record_of a s _ (moves {t} run live move) =
    later (OwnRun-Run record_of a s t run) (go_on a live move)

module _ (record_of : ℕ → LockRecord) (s : System) (a : ℕ)
    (live : s.alive (record_of a).pid ≡ true) where
  -- A moment of the run in which only `a` goes on.
  record Moment (d : Disk) (p : Pc) : Type 0 where
    pcs : ℕ → Pc
    run : OwnRun record_of a s (record s { disk = d; pc = pcs })
    at : pcs a ≡ p

  go : {d e : Disk} {p q : Pc} → Moment d p → Move record_of s.alive a d p e q → Moment e q
  go {d = d} {e = e} {q = q} m move = record {
    pcs = update m.pcs a q;
    run = moves m.run live (subst (λ x. Move record_of s.alive a d x e q) (sym m.at) move);
    at = update_same m.pcs a q;
  }

  begin : {p : Pc} → s.pc a ≡ p → Moment s.disk p
  begin e = record { pcs = s.pc; run = rests; at = e }

  module _ (f : LockFile) (r : LockRecord) (named : f.content ≡ some r)
      (dead : s.alive r.pid ≡ false) where
    suspect :
        {reclaim : Option LockFile}
        → Moment (record { lock = some f; reclaim = reclaim }) retry
        → Moment (record { lock = some f; reclaim = reclaim }) (suspecting (some r))
    suspect {reclaim = reclaim} m =
        go
          (subst (λ c. Moment (record { lock = some f; reclaim = reclaim }) (inspecting c)) named
            (go m (inspect refl)))
          (judge_dead dead)

    -- A reclaim lock of a dead process is taken away.
    take_over :
        (g : LockFile) (k : LockRecord)
        → g.content ≡ some k
        → s.alive k.pid ≡ false
        → Moment (record { lock = some f; reclaim = some g }) retry
        → Moment (record { lock = some f; reclaim = none }) retry
    take_over g k own gone m =
        let weighed =
          subst (λ c. Moment (record { lock = some f; reclaim = some g }) (weighing c)) own
            (go (go (suspect m) (reclaim_taken refl)) (weigh refl)) in
        go (go (go weighed (reclaimer_dead gone)) (rename refl)) (drop own)

    reclaim :
        Moment (record { lock = some f; reclaim = none }) retry
        → Moment (record { lock = none; reclaim = none }) retry
    reclaim m =
        go
          (go (go (go (go (suspect m) (open_reclaim refl)) (stamp 0)) (recheck_same refl named))
            remove)
          close

    obtain :
        Moment (record { lock = none; reclaim = none }) retry
        → Moment
            (record {
              lock = some (record { maker = a; content = some (record_of a) });
              reclaim = none;
            })
            holding
    obtain m =
        let opened_by_a = go m (acquire refl) in
        let written_by_a =
          subst (λ o. Moment (record { lock = o; reclaim = none }) written)
            (write_own_mine a (record_of a) (new_file a) refl) (go opened_by_a write) in
        go written_by_a (secure refl)

  -- By steps of `a` alone the lock became `a`'s, and there is no reclaim lock.
  pub record Obtained (t : System) : Type 0 where
    pub reached : OwnRun record_of a s t
    pub runs : Run record_of s t
    pub place : t.pc a ≡ holding
    pub lock : t.disk.lock ≡ some (record { maker = a; content = some (record_of a) })
    pub no_reclaim : t.disk.reclaim ≡ none

  obtained :
      Moment
        (record {
          lock = some (record { maker = a; content = some (record_of a) });
          reclaim = none;
        })
        holding
      → (t : System) × Obtained t
  obtained m = (
    record s {
      disk = record {
        lock = some (record { maker = a; content = some (record_of a) });
        reclaim = none;
      };
      pc = m.pcs;
    },
    record {
      reached = m.run;
      runs = OwnRun-Run record_of a s _ m.run;
      place = m.at;
      lock = refl;
      no_reclaim = refl;
    },
  )

-- If the lock's file names a dead process and there is no reclaim lock, or one that names a dead
-- process, then a live call that waits can obtain the lock by steps of its own alone, in a run in
-- which no other call takes a step and no process dies.
pub recovery_lem :
    (record_of : ℕ → LockRecord) (s : System) (a : ℕ) (f : LockFile) (r : LockRecord)
    (live : s.alive (record_of a).pid ≡ true)
    → s.pc a ≡ retry
    → s.disk.lock ≡ some f
    → f.content ≡ some r
    → s.alive r.pid ≡ false
    → (s.disk.reclaim ≡ none)
      ⊎ ((g : LockFile) × (k : LockRecord) × (s.disk.reclaim ≡ some g)
          × (g.content ≡ some k)
          × (s.alive k.pid ≡ false))
    → (t : System) × Obtained record_of s a live t
recovery_lem record_of s a f r live at e named dead (inl free) =
    let here =
      subst (λ o. Moment record_of s a live (record { lock = some f; reclaim = o }) retry) free
        (subst
          (λ o. Moment record_of s a live (record { lock = o; reclaim = s.disk.reclaim }) retry) e
          (begin record_of s a live at)) in
    obtained record_of s a live
      (obtain record_of s a live f r named dead (reclaim record_of s a live f r named dead here))
recovery_lem record_of s a f r live at e named dead (inr (g, k, there, own, gone)) =
    let here =
      subst (λ o. Moment record_of s a live (record { lock = some f; reclaim = o }) retry) there
        (subst
          (λ o. Moment record_of s a live (record { lock = o; reclaim = s.disk.reclaim }) retry) e
          (begin record_of s a live at)) in
    obtained record_of s a live (
      obtain record_of s a live f r named dead (
        reclaim record_of s a live f r named dead
          (take_over record_of s a live f r named dead g k own gone here)))
