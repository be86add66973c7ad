-- ===== src/Storage/Lock.antt =====
-- src/storage/lock.ts: the writer lock of a room, as calls of `withWriterLock` from any number of
-- processes that go on in any order. Each system call is one step. A lock file is empty from its
-- making until its record is written. A process that is dead stays dead.
pub mod Invariant
pub mod Exclusion
pub mod Recovery
mod Tests
use agentgather.Common.{
  ℕ, ◌≡◌, ◌≢◌, Bool, true, false, ◌&&◌, Option, none, some, ◌==◌, if◌then◌else◌,
}

pub record LockRecord : Type 0 where
  pub pid : ℕ
  pub created_at : ℕ

-- An inode: the call that made it, and its record once it is written.
pub record LockFile : Type 0 where
  pub maker : ℕ
  pub content : Option LockRecord

-- What stands at the lock's path and at `<path>.reclaim`.
pub record Disk : Type 0 where
  pub lock : Option LockFile
  pub reclaim : Option LockFile

-- Where a call stands. The contents are those that the functions were given as `expectedRaw`.
pub data Pc : Type 0 where
  retry opened written holding released timed_out failed : Pc
  inspecting : Option LockRecord → Pc
  suspecting stamping reclaiming confirmed : Option LockRecord → Pc
  closing clearing : Pc
  weighing taking : Option LockRecord → Pc
  moved : LockFile → Option LockRecord → Pc

abbrev pub new_file : ℕ → LockFile
new_file a = record { maker = a; content = none }

-- A write through the handle of the call's own file, whatever stands at the path by now.
unfoldable pub write_own : ℕ → LockRecord → Option LockFile → Option LockFile
write_own a r none = none
write_own a r (some f) = if f.maker == a then some (record f { content = some r }) else some f

module _ (record_of : ℕ → LockRecord) (alive : ℕ → Bool) where
  -- A step of the call `a`. `stat` may find an empty file old or not.
  pub data Move (a : ℕ) (d : Disk) : Pc → Disk → Pc → Type 0 where
    -- `acquireWriterLock`, and the release that it gives.
    acquire : d.lock ≡ none → Move a d retry (record d { lock = some (new_file a) }) opened
    write : Move a d opened (record d { lock = write_own a (record_of a) d.lock }) written
    secure : {f : LockFile} → d.lock ≡ some f → Move a d written d holding
    secure_missing : d.lock ≡ none → Move a d written d failed
    release : Move a d holding (record d { lock = none }) released
    give_up : {f : LockFile} → d.lock ≡ some f → Move a d retry d timed_out
    -- `removeStaleLock`.
    inspect : {f : LockFile} → d.lock ≡ some f → Move a d retry d (inspecting f.content)
    judge_alive : {r : LockRecord} → alive r.pid ≡ true → Move a d (inspecting (some r)) d retry
    judge_dead :
        {r : LockRecord}
        → alive r.pid ≡ false
        → Move a d (inspecting (some r)) d (suspecting (some r))
    judge_young : Move a d (inspecting none) d retry
    judge_old : Move a d (inspecting none) d (suspecting none)
    -- `reclaimStaleRecord`.
    open_reclaim :
        {c : Option LockRecord}
        → d.reclaim ≡ none
        → Move a d (suspecting c) (record d { reclaim = some (new_file a) }) (stamping c)
    reclaim_taken :
        {c : Option LockRecord} {g : LockFile}
        → d.reclaim ≡ some g
        → Move a d (suspecting c) d clearing
    stamp :
        {c : Option LockRecord} (now : ℕ)
        → Move a d
            (stamping c)
            (record d {
              reclaim =
                  write_own a (record { pid = (record_of a).pid; created_at = now }) d.reclaim;
            })
            (reclaiming c)
    recheck_absent : {c : Option LockRecord} → d.lock ≡ none → Move a d (reclaiming c) d closing
    recheck_other :
        {c : Option LockRecord} {f : LockFile}
        → d.lock ≡ some f
        → f.content ≢ c
        → Move a d (reclaiming c) d closing
    recheck_same :
        {c : Option LockRecord} {f : LockFile}
        → d.lock ≡ some f
        → f.content ≡ c
        → Move a d (reclaiming c) d (confirmed c)
    remove : {c : Option LockRecord} → Move a d (confirmed c) (record d { lock = none }) closing
    close : Move a d closing (record d { reclaim = none }) retry
    -- `clearAbandonedReclaimLock`.
    reclaim_gone : d.reclaim ≡ none → Move a d clearing d retry
    weigh : {g : LockFile} → d.reclaim ≡ some g → Move a d clearing d (weighing g.content)
    reclaimer_alive : {r : LockRecord} → alive r.pid ≡ true → Move a d (weighing (some r)) d retry
    reclaimer_dead :
        {r : LockRecord} → alive r.pid ≡ false → Move a d (weighing (some r)) d (taking (some r))
    reclaim_young : Move a d (weighing none) d retry
    reclaim_old : Move a d (weighing none) d (taking none)
    -- `takeOverAbandonedFile`.
    rename_missing : {c : Option LockRecord} → d.reclaim ≡ none → Move a d (taking c) d retry
    rename :
        {c : Option LockRecord} {g : LockFile}
        → d.reclaim ≡ some g
        → Move a d (taking c) (record d { reclaim = none }) (moved g c)
    drop : {c : Option LockRecord} {g : LockFile} → g.content ≡ c → Move a d (moved g c) d retry
    restore :
        {c : Option LockRecord} {g : LockFile}
        → g.content ≢ c
        → d.reclaim ≡ none
        → Move a d (moved g c) (record d { reclaim = some g }) retry
    restore_taken :
        {c : Option LockRecord} {g h : LockFile}
        → g.content ≢ c
        → d.reclaim ≡ some h
        → Move a d (moved g c) d retry

-- `update f i x` has `x` at `i`.
unfoldable pub update {ℓ} : {A : Type ℓ} → (ℕ → A) → ℕ → A → ℕ → A
update f i x j = if j == i then x else f j

pub record System : Type 0 where
  pub disk : Disk
  pub pc : ℕ → Pc
  pub alive : ℕ → Bool

module _ (record_of : ℕ → LockRecord) where
  -- A live call goes on, or a process dies.
  pub data Step (s : System) : System → Type 0 where
    go_on :
        (a : ℕ) {d : Disk} {p : Pc}
        → s.alive (record_of a).pid ≡ true
        → Move record_of s.alive a s.disk (s.pc a) d p
        → Step s (record s { disk = d; pc = update s.pc a p })
    die : (pid : ℕ) → Step s (record s { alive = update s.alive pid false })

  pub data Run (s : System) : System → Type 0 where
    still : Run s s
    later : {t u : System} → Run s t → Step t u → Run s u

-- No call has started, and neither file is there.
abbrev pub start : (ℕ → Bool) → System
start alive = record {
  disk = record { lock = none; reclaim = none };
  pc = λ a. retry;
  alive = alive;
}
