-- ===== src/Storage/Lock/Invariant.antt =====
-- What holds at every moment of the writer lock of src/storage/lock.ts.
use agentgather.Common.{
  ℕ, ◌≡◌, ◌≢◌, ◌⊎◌, refl, sym, ap, subst, ◌∙◌, Bool, true, false, Option, none, some, arith, ◌==◌,
  Bool-cases, inl, inr, ==_iff,
}
use agentgather.Storage.Lock.{
  LockRecord, LockFile, Disk, Pc, opened, written, holding, suspecting, stamping, reclaiming,
  confirmed, closing, update, System, start,
}

-- The call has made the lock and not yet given it back.
unfoldable pub owns : Pc → Bool
owns opened = true
owns written = true
owns holding = true
owns _ = false

-- The call has made the reclaim lock and not yet removed it.
unfoldable pub reclaims : Pc → Bool
reclaims (stamping c) = true
reclaims (reclaiming c) = true
reclaims (confirmed c) = true
reclaims closing = true
reclaims _ = false

-- The content that the call was given as stale.
unfoldable pub expected : Pc → Option (Option LockRecord)
expected (suspecting c) = some c
expected (stamping c) = some c
expected (reclaiming c) = some c
expected (confirmed c) = some c
expected _ = none

pub update_cases :
    {A : Type 0} (f : ℕ → A) (i : ℕ) (x : A) (j : ℕ)
    → ((j ≡ i) × (update f i x j ≡ x)) ⊎ ((j ≢ i) × (update f i x j ≡ f j))
unfolding update
update_cases f i x j = elim (Bool-cases (j == i)) [
  | inl same ↦ inl ((==_iff j i).0 same, rw (same) refl)
  | inr other ↦ inr (λ e. ground (arith, e, other), rw (other) refl)
]

module _ (record_of : ℕ → LockRecord) where
  abbrev pub Runs : System → ℕ → Type 0
  Runs s a = s.alive (record_of a).pid ≡ true

  abbrev pub MadeBy : ℕ → Option LockFile → Type 0
  MadeBy a o = (f : LockFile) × (o ≡ some f) × (f.maker ≡ a)

  abbrev pub DeadFile : System → Option LockFile → Type 0
  DeadFile s o = (f : LockFile) × (o ≡ some f) × (s.alive (record_of f.maker).pid ≡ false)

  -- A record of a process that is dead.
  abbrev pub IsDead : (ℕ → Bool) → Option LockRecord → Type 0
  IsDead alive c = (r : LockRecord) × (c ≡ some r) × (alive r.pid ≡ false)

  pub record Inv (s : System) : Type 0 where
    pub lock_owner : (a : ℕ) → Runs s a → owns (s.pc a) ≡ true → MadeBy a s.disk.lock
    pub reclaim_owner : (a : ℕ) → Runs s a → reclaims (s.pc a) ≡ true → MadeBy a s.disk.reclaim
    pub stale :
        (a : ℕ) (c : Option LockRecord) → Runs s a → s.pc a ≡ confirmed c → DeadFile s s.disk.lock
    pub own_record :
        (f : LockFile) (r : LockRecord)
        → s.disk.lock ≡ some f
        → f.content ≡ some r
        → r.pid ≡ (record_of f.maker).pid
    pub judged : (a : ℕ) (c : Option LockRecord) → expected (s.pc a) ≡ some c → IsDead s.alive c

  pub Inv-start : (alive : ℕ → Bool) → Inv (start alive)
  unfolding owns reclaims expected
  Inv-start alive = record {
    lock_owner = λ a live h. absurd (cc h);
    reclaim_owner = λ a live h. absurd (cc h);
    stale = λ a c live h. absurd (cc h);
    own_record = λ f r h e. absurd (cc h);
    judged = λ a c h. absurd (cc h);
  }

  pub some_inj : {f g : LockFile} {o : Option LockFile} → o ≡ some f → o ≡ some g → f ≡ g
  some_inj e h = cc

  module _ (s : System) (v : Inv s) where
    pub sole_owner :
        (a b : ℕ) → Runs s a → owns (s.pc a) ≡ true → Runs s b → owns (s.pc b) ≡ true → a ≡ b
    sole_owner a b la oa lb ob =
        let fa = v.lock_owner a la oa in
        let fb = v.lock_owner b lb ob in sym fa.2 ∙ ap (λ f. f.maker) (some_inj fa.1 fb.1) ∙ fb.2

    pub sole_reclaimer :
        (a b : ℕ)
        → Runs s a
        → reclaims (s.pc a) ≡ true
        → Runs s b
        → reclaims (s.pc b) ≡ true
        → a ≡ b
    sole_reclaimer a b la oa lb ob =
        let fa = v.reclaim_owner a la oa in
        let fb = v.reclaim_owner b lb ob in sym fa.2 ∙ ap (λ f. f.maker) (some_inj fa.1 fb.1) ∙ fb.2

    -- A file that is confirmed as stale is no live call's.
    pub owner_not_stale :
        (a b : ℕ) (c : Option LockRecord)
        → Runs s a
        → owns (s.pc a) ≡ true
        → Runs s b
        → s.pc b ≢ confirmed c
    owner_not_stale a b c la oa lb h =
        let fa = v.lock_owner a la oa in
        let fb = v.stale b c lb h in
        let same : fa.0 ≡ fb.0 = some_inj fa.1 fb.1 in
        cc (sym la ∙ ap (λ i. s.alive (record_of i).pid) (sym fa.2 ∙ ap (λ f. f.maker) same) ∙ fb.2)

    pub confirmed_reclaims :
        (b : ℕ) (c : Option LockRecord) → s.pc b ≡ confirmed c → reclaims (s.pc b) ≡ true
    unfolding reclaims
    confirmed_reclaims b c h = ap reclaims h

    -- A step of `a`: what holds of `a` after it, and of the others.
    module _ (a : ℕ) (d : Disk) (p : Pc) where
      pub changed :
          (owns p ≡ true → MadeBy a d.lock)
          → ((b : ℕ) → b ≢ a → Runs s b → owns (s.pc b) ≡ true → MadeBy b d.lock)
          → (reclaims p ≡ true → MadeBy a d.reclaim)
          → ((b : ℕ) → b ≢ a → Runs s b → reclaims (s.pc b) ≡ true → MadeBy b d.reclaim)
          → ((c : Option LockRecord) → p ≡ confirmed c → DeadFile s d.lock)
          → ((b : ℕ) (c : Option LockRecord)
              → b ≢ a
              → Runs s b
              → s.pc b ≡ confirmed c
              → DeadFile s d.lock)
          → ((f : LockFile) (r : LockRecord)
              → d.lock ≡ some f
              → f.content ≡ some r
              → r.pid ≡ (record_of f.maker).pid)
          → ((c : Option LockRecord) → expected p ≡ some c → IsDead s.alive c)
          → Inv (record s { disk = d; pc = update s.pc a p })
      changed oh ot rh rt sh st nm jd = record {
        lock_owner = λ b live h. elim (update_cases s.pc a p b) [
          | inl same ↦ subst (λ i. MadeBy i d.lock) (sym same.0) (oh (ap owns (sym same.1) ∙ h))
          | inr other ↦ ot b other.0 live (ap owns (sym other.1) ∙ h)
        ];
        reclaim_owner = λ b live h. elim (update_cases s.pc a p b) [
          | inl same ↦
              subst (λ i. MadeBy i d.reclaim) (sym same.0) (rh (ap reclaims (sym same.1) ∙ h))
          | inr other ↦ rt b other.0 live (ap reclaims (sym other.1) ∙ h)
        ];
        stale = λ b c live h. elim (update_cases s.pc a p b) [
          | inl same ↦ sh c (sym same.1 ∙ h)
          | inr other ↦ st b c other.0 live (sym other.1 ∙ h)
        ];
        own_record = nm;
        judged = λ b c h. elim (update_cases s.pc a p b) [
          | inl same ↦ jd c (ap expected (sym same.1) ∙ h)
          | inr other ↦ v.judged b c (ap expected (sym other.1) ∙ h)
        ];
      }

    -- A step that leaves the disk.
    pub quiet :
        (a : ℕ) (p : Pc)
        → Runs s a
        → (owns p ≡ true → owns (s.pc a) ≡ true)
        → (reclaims p ≡ true → reclaims (s.pc a) ≡ true)
        → ((c : Option LockRecord) → p ≡ confirmed c → DeadFile s s.disk.lock)
        → ((c : Option LockRecord) → expected p ≡ some c → IsDead s.alive c)
        → Inv (record s { pc = update s.pc a p })
    quiet a p live ho hr hs hj =
        changed a s.disk p (λ h. v.lock_owner a live (ho h)) (λ b ne lb h. v.lock_owner b lb h)
          (λ h. v.reclaim_owner a live (hr h)) (λ b ne lb h. v.reclaim_owner b lb h) hs
          (λ b c ne lb h. v.stale b c lb h) v.own_record hj
