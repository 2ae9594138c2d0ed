-- ===== src/Restore/Stage.antt =====
-- The staging phase of a restore: on success the staging directory holds the snapshot, and in
-- every case what lies apart from it is left alone.
use honeybadger.Base.{Bytes, ◌≡◌, arith, or_else, inl, inr}
use honeybadger.Errors.{ok, Result-cases}
use honeybadger.Badger.{Badger, BadgerOptions, TxnLaws, DiskLaws}
use honeybadger.Restore.{fill_stage, stage_snapshot}

module _ (B : Badger) (L : TxnLaws B) (D : DiskLaws B L) where
  fill_stage_ok :
      (staging : Bytes) (d : B.Db) (snap : Bytes) (w : B.World) (k : Bytes)
      → (fill_stage B staging d snap w).0 ≡ ok tt
      → D.on_disk (fill_stage B staging d snap w).1 (D.home d) k
        ≡ or_else (D.snapshot snap k) (L.stored d k)
  unfolding fill_stage
  fill_stage_ok staging d snap w k h = ground (
    arith,
    D.load_writes d snap w k,
    D.home-load d snap w,
    D.close_flushes (B.load d snap w).1 (B.load d snap w).2 k,
  )

  fill_stage_frame :
      (staging : Bytes) (d : B.Db) (snap : Bytes) (w : B.World) (q k : Bytes)
      → D.home d ≡ staging
      → D.Apart staging q
      → D.on_disk (fill_stage B staging d snap w).1 q k ≡ D.on_disk w q k
  unfolding fill_stage
  fill_stage_frame staging d snap w q k home apart =
      let (d', w₁) : B.Db × B.World = ((B.load d snap w).1, (B.load d snap w).2) in
      let w₂ = (B.close d' w₁).1 in
      ground (
        arith,
        D.load_frame d snap q w k (rw home apart),
        D.close_frame d' q w₁ k (rw (D.home-load, home) apart),
        D.remove_all_frame staging q w₂ k apart,
      )

  -- A snapshot that is staged without an error is what the staging directory holds.
  pub stage_ok :
      (opts : BadgerOptions B.Tuning) (snap : Bytes) (w : B.World) (k : Bytes)
      → (stage_snapshot B opts snap w).0 ≡ ok tt
      → D.on_disk (stage_snapshot B opts snap w).1 opts.dir k ≡ D.snapshot snap k
  unfolding stage_snapshot
  stage_ok opts snap w k h =
      let w₁ = (B.remove_all opts.dir w).1 in
      let w₂ = (B.mkdir_all opts.dir w₁).1 in
      let w₃ = (B.open_db opts w₂).1 in
      elim (Result-cases (B.open_db opts w₂).0) [
        | inr (e, failed) ↦ absurd (ground arith)
        | inl (d, opened) ↦ ground (
          arith,
          D.remove_all_empties opts.dir w k,
          D.mkdir_all_frame opts.dir opts.dir w₁ k,
          D.open_reads opts w₂ d k opened,
          D.home-open opts w₂ d opened,
          fill_stage_ok opts.dir d snap w₃ k,
        )
      ]

  -- The staging changes no directory apart from its own, whether it fails or not.
  pub stage_frame :
      (opts : BadgerOptions B.Tuning) (snap : Bytes) (w : B.World) (q k : Bytes)
      → D.Apart opts.dir q
      → D.on_disk (stage_snapshot B opts snap w).1 q k ≡ D.on_disk w q k
  unfolding stage_snapshot
  stage_frame opts snap w q k apart =
      let w₁ = (B.remove_all opts.dir w).1 in
      let w₂ = (B.mkdir_all opts.dir w₁).1 in
      let w₃ = (B.open_db opts w₂).1 in
      let frame = λ (d : B.Db) (home : D.home d ≡ opts.dir).
        fill_stage_frame opts.dir d snap w₃ q k home apart in
      elim (Result-cases (B.open_db opts w₂).0) [
        | inr (e, failed) ↦ ground (
          arith,
          D.remove_all_frame opts.dir q w k apart,
          D.mkdir_all_frame opts.dir q w₁ k,
          D.open_frame opts w₂ q k,
          D.remove_all_frame opts.dir q w₃ k apart,
        )
        | inl (d, opened) ↦ ground (
          arith,
          D.remove_all_frame opts.dir q w k apart,
          D.mkdir_all_frame opts.dir q w₁ k,
          D.open_frame opts w₂ q k,
          frame d (D.home-open opts w₂ d opened),
        )
      ]
