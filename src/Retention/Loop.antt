-- ===== src/Retention/Loop.antt =====
-- The loop of both `_purge_chatbot`, for any two queries that keep what they promise.
use nuvrag_platform.Base.{
  ℕ, zero, suc, ◌+◌, ◌*◌, ◌<◌, ◌≡◌, min, inl, inr, arith, ◌==◌, ltb, length, Bool-cases,
}
use nuvrag_platform.Desk.{Desk}
use nuvrag_platform.Retention.{Sweep, purge_loop}

-- What the loop relies on: a batch is full or is the whole backlog, and deleting it takes it off.
pub record IsLawful (s : Sweep) (Ready : Desk → Type 0) (backlog : Desk → ℕ) : Type 0 where
  pub fills : (n : ℕ) (d : Desk) → Ready d → length (s.expired_ids n d) ≡ min n (backlog d)
  pub deletes :
      (n : ℕ) (d : Desk)
      → Ready d
      → (s.delete_by_ids (s.expired_ids n d) d).0 ≡ length (s.expired_ids n d)
  pub lowers :
      (n : ℕ) (d : Desk)
      → Ready d
      → backlog (s.delete_by_ids (s.expired_ids n d) d).1 + length (s.expired_ids n d) ≡ backlog d
  pub keeps : (n : ℕ) (d : Desk) → Ready d → Ready (s.delete_by_ids (s.expired_ids n d) d).1

-- What every batch keeps, the loop keeps.
pub purge_loop-keeps :
    (P : Desk → Type 0) (s : Sweep) (batch_size : ℕ)
    → ((d : Desk) → P d → P (s.delete_by_ids (s.expired_ids batch_size d) d).1)
    → (batches deleted : ℕ) (d : Desk) → P d
    → P (purge_loop s batch_size batches deleted d).2
unfolding purge_loop
purge_loop-keeps P s batch_size keeps zero deleted d h = h
purge_loop-keeps P s batch_size keeps (suc batches) deleted d h =
    let ids = s.expired_ids batch_size d in
    let n = (s.delete_by_ids ids d).0 in
    let d' = (s.delete_by_ids ids d).1 in
    elim (Bool-cases (length ids == 0)) [
      | inl nothing ↦ rw nothing h
      | inr something ↦ elim (Bool-cases (ltb (length ids) batch_size)) [
        | inl short ↦ rw something (rw short (keeps d h))
        | inr full ↦
            rw something
              (rw full (purge_loop-keeps P s batch_size keeps batches (deleted + n) d' (keeps d h)))
      ]
    ]

module _ (s : Sweep) (Ready : Desk → Type 0) (backlog : Desk → ℕ)
    (laws : IsLawful s Ready backlog) where
  -- The loop deletes the backlog up to its limit, and says so exactly when it stayed under it.
  pub purge_loop_lem :
      (batch_size batches deleted : ℕ) (d : Desk)
      → 0 < batch_size
      → Ready d
      → let (total, complete, d') = purge_loop s batch_size batches deleted d in
        (total ≡ deleted + min (batches * batch_size) (backlog d))
        × (backlog d' + min (batches * batch_size) (backlog d) ≡ backlog d)
        × (complete ≡ ltb (backlog d) (batches * batch_size))
  unfolding purge_loop
  purge_loop_lem batch_size zero deleted d pos h = ground arith
  purge_loop_lem batch_size (suc batches) deleted d pos h =
      let ids = s.expired_ids batch_size d in
      let (n, d') = s.delete_by_ids ids d in
      ground (
        arith,
        purge_loop_lem batch_size batches (deleted + n) d' pos (laws.keeps batch_size d h),
        laws.fills batch_size d h,
        laws.deletes batch_size d h,
        laws.lowers batch_size d h,
      )
