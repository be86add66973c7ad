-- ===== src/Storage/Lock/Exclusion.antt =====
-- Mutual exclusion of the writer lock of src/storage/lock.ts.
use agentgather.Common.{
  ℕ, ◌≡◌, refl, sym, ap, ◌∙◌, Bool, true, false, ◌&&◌, Option, none, some, arith, inl, inr, ==-refl,
}
use agentgather.Storage.Lock.{
  LockRecord, LockFile, Disk, Pc, retry, opened, written, holding, released, suspecting, stamping,
  reclaiming, confirmed, closing, new_file, write_own, Move, acquire, write, secure, release,
  judge_dead, judge_old, open_reclaim, stamp, recheck_absent, recheck_other, recheck_same, remove,
  close, rename, restore, update, System, Step, go_on, die, Run, still, later, start,
}
use agentgather.Storage.Lock.Invariant.{
  owns, reclaims, expected, Runs, Inv, update_cases, Inv-start, some_inj, sole_owner,
  sole_reclaimer, owner_not_stale, changed, quiet,
}

record_inj : {r t : LockRecord} → ◌≡◌ {A = Option LockRecord} (some r) (some t) → r ≡ t
record_inj e = cc

judged_inj :
    {c k : Option LockRecord} → ◌≡◌ {A = Option (Option LockRecord)} (some c) (some k) → k ≡ c
judged_inj e = cc

pub write_own_mine :
    (a : ℕ) (r : LockRecord) (f : LockFile)
    → f.maker ≡ a
    → write_own a r (some f) ≡ some (record f { content = some r })
unfolding write_own
write_own_mine a r f m = rw (m, ==-refl a) refl

-- Not one of the steps by which a file is judged without knowing who made it, or by which the reclaim
-- lock of another call is taken away.
unfoldable pub is_calm :
    {record_of : ℕ → LockRecord} {alive : ℕ → Bool} {a : ℕ} {d e : Disk} {p q : Pc}
    → Move record_of alive a d p e q
    → Bool
is_calm judge_old = false
is_calm (rename e) = false
is_calm (restore n e) = false
is_calm m = true

module _ (record_of : ℕ → LockRecord) (s : System) (v : Inv record_of s) (a : ℕ)
    (live : Runs record_of s a) where
  after_acquire :
      s.disk.lock ≡ none
      → Inv record_of (record s {
        disk = record s.disk { lock = some (new_file a) };
        pc = update s.pc a opened;
      })
  unfolding owns reclaims expected
  after_acquire free =
      changed record_of s v a _ opened (λ h. (new_file a, refl, refl))
        (λ b ne lb h. absurd (cc (sym free ∙ (v.lock_owner b lb h).1))) (λ h. absurd (cc h))
        (λ b ne lb h. v.reclaim_owner b lb h) (λ c h. absurd (cc h))
        (λ b c ne lb h. absurd (cc (sym free ∙ (v.stale b c lb h).1)))
        (λ f r e h. absurd (cc (ap (λ g. g.content) (some_inj record_of refl e) ∙ h)))
        (λ c h. absurd (cc h))

  after_write :
      s.pc a ≡ opened
      → Inv record_of (record s {
        disk = record s.disk { lock = write_own a (record_of a) s.disk.lock };
        pc = update s.pc a written;
      })
  unfolding owns reclaims expected write_own
  after_write at =
      let mine : owns (s.pc a) ≡ true = ap owns at in
      let file = v.lock_owner a live mine in
      let now : write_own a (record_of a) s.disk.lock
          ≡ some (record file.0 { content = some (record_of a) }) =
        ap (write_own a (record_of a)) file.1 ∙ write_own_mine a (record_of a) file.0 file.2 in
      changed record_of s v a _ written
        (λ h. (record file.0 { content = some (record_of a) }, now, file.2))
        (λ b ne lb h. absurd (ne (sole_owner record_of s v b a lb h live mine)))
        (λ h. absurd (cc h)) (λ b ne lb h. v.reclaim_owner b lb h) (λ c h. absurd (cc h))
        (λ b c ne lb h. absurd (owner_not_stale record_of s v a b c live mine lb h))
        (λ f r e h. own file.0 (some_inj record_of now e) file.2 h) (λ c h. absurd (cc h))
    where
      own :
          (g : LockFile) {f : LockFile} {r : LockRecord}
          → record g { content = some (record_of a) } ≡ f
          → g.maker ≡ a
          → f.content ≡ some r
          → r.pid ≡ (record_of f.maker).pid
      own g e m h =
          ap (λ x. x.pid) (sym (record_inj (ap (λ x. x.content) e ∙ h)))
          ∙ ap (λ i. (record_of i).pid) (sym m ∙ ap (λ x. x.maker) e)

  after_release :
      s.pc a ≡ holding
      → Inv record_of
          (record s { disk = record s.disk { lock = none }; pc = update s.pc a released })
  unfolding owns reclaims expected
  after_release at =
      let mine : owns (s.pc a) ≡ true = ap owns at in
      changed record_of s v a _ released (λ h. absurd (cc h))
        (λ b ne lb h. absurd (ne (sole_owner record_of s v b a lb h live mine)))
        (λ h. absurd (cc h)) (λ b ne lb h. v.reclaim_owner b lb h) (λ c h. absurd (cc h))
        (λ b c ne lb h. absurd (owner_not_stale record_of s v a b c live mine lb h))
        (λ f r e h. absurd (cc e)) (λ c h. absurd (cc h))

  after_open_reclaim :
      {c : Option LockRecord}
      → s.pc a ≡ suspecting c
      → s.disk.reclaim ≡ none
      → Inv record_of (record s {
        disk = record s.disk { reclaim = some (new_file a) };
        pc = update s.pc a (stamping c);
      })
  unfolding owns reclaims expected
  after_open_reclaim at free =
      changed record_of s v a _ _ (λ h. absurd (cc h)) (λ b ne lb h. v.lock_owner b lb h)
        (λ h. (new_file a, refl, refl))
        (λ b ne lb h. absurd (cc (sym free ∙ (v.reclaim_owner b lb h).1))) (λ c h. absurd (cc h))
        (λ b c ne lb h. v.stale b c lb h) v.own_record (λ c h. v.judged a c (ap expected at ∙ h))

  after_stamp :
      {c : Option LockRecord} (r : LockRecord)
      → s.pc a ≡ stamping c
      → Inv record_of (record s {
        disk = record s.disk { reclaim = write_own a r s.disk.reclaim };
        pc = update s.pc a (reclaiming c);
      })
  unfolding owns reclaims expected
  after_stamp r at =
      let mine : reclaims (s.pc a) ≡ true = ap reclaims at in
      let file = v.reclaim_owner a live mine in
      changed record_of s v a _ _ (λ h. absurd (cc h)) (λ b ne lb h. v.lock_owner b lb h)
        (λ h. (
          record file.0 { content = some r },
          ap (write_own a r) file.1 ∙ write_own_mine a r file.0 file.2,
          file.2,
        ))
        (λ b ne lb h. absurd (ne (sole_reclaimer record_of s v b a lb h live mine)))
        (λ c h. absurd (cc h)) (λ b c ne lb h. v.stale b c lb h) v.own_record
        (λ c h. v.judged a c (ap expected at ∙ h))

  after_remove :
      {c : Option LockRecord}
      → s.pc a ≡ confirmed c
      → Inv record_of
          (record s { disk = record s.disk { lock = none }; pc = update s.pc a closing })
  unfolding owns reclaims expected
  after_remove {c = c} at =
      let mine : reclaims (s.pc a) ≡ true = ap reclaims at in
      changed record_of s v a _ closing (λ h. absurd (cc h))
        (λ b ne lb h. absurd (owner_not_stale record_of s v b a c lb h live at))
        (λ h. v.reclaim_owner a live mine) (λ b ne lb h. v.reclaim_owner b lb h)
        (λ c h. absurd (cc h))
        (λ b k ne lb h. absurd (ne (sole_reclaimer record_of s v b a lb (ap reclaims h) live mine)))
        (λ f r e h. absurd (cc e)) (λ c h. absurd (cc h))

  after_close :
      s.pc a ≡ closing
      → Inv record_of
          (record s { disk = record s.disk { reclaim = none }; pc = update s.pc a retry })
  unfolding owns reclaims expected
  after_close at =
      let mine : reclaims (s.pc a) ≡ true = ap reclaims at in
      changed record_of s v a _ retry (λ h. absurd (cc h)) (λ b ne lb h. v.lock_owner b lb h)
        (λ h. absurd (cc h))
        (λ b ne lb h. absurd (ne (sole_reclaimer record_of s v b a lb h live mine)))
        (λ c h. absurd (cc h)) (λ b c ne lb h. v.stale b c lb h) v.own_record (λ c h. absurd (cc h))

  -- To a place where the call has neither lock and judged no file.
  to_rest :
      (p : Pc)
      → owns p ≡ false
      → reclaims p ≡ false
      → expected p ≡ none
      → Inv record_of (record s { pc = update s.pc a p })
  unfolding expected
  to_rest p no_lock no_reclaim nothing =
      quiet record_of s v a p live (λ h. absurd (cc h)) (λ h. absurd (cc h))
        (λ c h. absurd (cc (sym nothing ∙ ap expected h))) (λ c h. absurd (cc h))

  to_closing : reclaims (s.pc a) ≡ true → Inv record_of (record s { pc = update s.pc a closing })
  unfolding owns reclaims expected
  to_closing mine =
      quiet record_of s v a closing live (λ h. absurd (cc h)) (λ h. mine) (λ c h. absurd (cc h))
        (λ c h. absurd (cc h))

  move-Inv :
      (q p : Pc) (d : Disk) (m : Move record_of s.alive a s.disk q d p)
      → s.pc a ≡ q
      → is_calm m ≡ true
      → Inv record_of (record s { disk = d; pc = update s.pc a p })
  unfolding is_calm owns reclaims expected
  move-Inv _ _ _ (acquire e) at calm = after_acquire e
  move-Inv _ _ _ write at calm = after_write at
  move-Inv _ _ _ (secure e) at calm =
      quiet record_of s v a _ live (λ h. ap owns at) (λ h. absurd (cc h)) (λ c h. absurd (cc h))
        (λ c h. absurd (cc h))
  move-Inv _ _ _ release at calm = after_release at
  move-Inv _ _ _ (judge_dead {r} dead) at calm =
      quiet record_of s v a _ live (λ h. absurd (cc h)) (λ h. absurd (cc h)) (λ c h. absurd (cc h))
        (λ c h. (r, judged_inj h, dead))
  move-Inv _ _ _ judge_old at calm = absurd (cc calm)
  move-Inv _ _ _ (open_reclaim e) at calm = after_open_reclaim at e
  move-Inv _ _ _ (stamp now) at calm =
      after_stamp (record { pid = (record_of a).pid; created_at = now }) at
  move-Inv _ _ _ (recheck_absent e) at calm = to_closing (ap reclaims at)
  move-Inv _ _ _ (recheck_other e n) at calm = to_closing (ap reclaims at)
  move-Inv _ _ _ (recheck_same e same) at calm =
      let dead = v.judged a _ (ap expected at) in
      let file_dead = sym (ap s.alive (v.own_record _ dead.0 e (same ∙ dead.1))) ∙ dead.2 in
      quiet record_of s v a _ live (λ h. absurd (cc h)) (λ h. ap reclaims at)
        (λ c h. (_, e, file_dead)) (λ c h. v.judged a c (ap expected at ∙ h))
  move-Inv _ _ _ remove at calm = after_remove at
  move-Inv _ _ _ close at calm = after_close at
  move-Inv _ _ _ (rename e) at calm = absurd (cc calm)
  move-Inv _ _ _ (restore n e) at calm = absurd (cc calm)
  move-Inv _ _ _ m at calm = to_rest _ refl refl refl

module _ (record_of : ℕ → LockRecord) where
  die-Inv :
      (s : System) (pid : ℕ)
      → Inv record_of s
      → Inv record_of (record s { alive = update s.alive pid false })
  die-Inv s pid v = record {
    lock_owner = λ a live h. v.lock_owner a (was_alive (record_of a).pid live) h;
    reclaim_owner = λ a live h. v.reclaim_owner a (was_alive (record_of a).pid live) h;
    stale = λ a c live h.
        let file = v.stale a c (was_alive (record_of a).pid live) h in
        (file.0, file.1, stays_dead (record_of file.0.maker).pid file.2);
    own_record = v.own_record;
    judged = λ a c h. let dead = v.judged a c h in (dead.0, dead.1, stays_dead dead.0.pid dead.2);
  }
    where
      was_alive : (q : ℕ) → update s.alive pid false q ≡ true → s.alive q ≡ true
      was_alive q h = elim (update_cases s.alive pid false q) [
        | inl same ↦ absurd (cc (sym same.1 ∙ h))
        | inr other ↦ sym other.1 ∙ h
      ]

      stays_dead : (q : ℕ) → s.alive q ≡ false → update s.alive pid false q ≡ false
      stays_dead q h = elim (update_cases s.alive pid false q) [
        | inl same ↦ same.1
        | inr other ↦ other.1 ∙ h
      ]

  is_calm_step : {s t : System} → Step record_of s t → Bool
  unfolding is_calm
  is_calm_step (go_on a live m) = is_calm m
  is_calm_step (die pid) = true

  unfoldable pub is_calm_run : {s t : System} → Run record_of s t → Bool
  unfolding is_calm_step
  is_calm_run still = true
  is_calm_run (later run step) = is_calm_run run && is_calm_step step

  run-Inv :
      (s t : System) (run : Run record_of s t)
      → is_calm_run run ≡ true
      → Inv record_of s
      → Inv record_of t
  unfolding is_calm_run is_calm_step
  run-Inv s _ still calm v = v
  run-Inv s _ (later {t = t} run (go_on a live m)) calm v =
      move-Inv record_of t (run-Inv s t run (ground (arith, calm)) v) a live (t.pc a) _ _ m refl
        (ground (arith, calm))
  run-Inv s _ (later {t = t} run (die pid)) calm v =
      die-Inv t pid (run-Inv s t run (ground (arith, calm)) v)

  -- In a run from the start in which no empty file is judged by its age and no reclaim lock is taken
  -- from its maker, whatever processes die in it, two live calls never have the lock together.
  pub exclusion_lem :
      (alive : ℕ → Bool) (s : System) (run : Run record_of (start alive) s)
      → is_calm_run run ≡ true
      → (a b : ℕ) → Runs record_of s a
      → owns (s.pc a) ≡ true
      → Runs record_of s b
      → owns (s.pc b) ≡ true
      → a ≡ b
  exclusion_lem alive s run calm a b =
      sole_owner record_of s (run-Inv (start alive) s run calm (Inv-start record_of alive)) a b
