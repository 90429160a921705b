-- ===== src/Engine/Compact.antt =====
-- src/engine.rs and src/compaction.rs: a compaction pass, and the worker that runs them.
use lsm_storage_engine.Common.{
  ◌%◌, ◌^◌, Bool, true, false, if◌then◌else◌, none, some, List, [], ◌∷◌, ◌++◌,
}
use lsm_storage_engine.Error.{Result, ok, err, to_string}
use lsm_storage_engine.Files.{join, table_file_name}
use lsm_storage_engine.Bloom.Float.{F64}
use lsm_storage_engine.Wal
use lsm_storage_engine.Manifest
use lsm_storage_engine.SsTable.Read.{set_level}
use lsm_storage_engine.Compaction
use lsm_storage_engine.Engine.Version.{
  CompactionJob, pick_compaction, apply_compaction, drop_tombstones, ids,
}
use lsm_storage_engine.Engine.State.{
  Engine, CompactionMessage, compact, shutdown, with_wal, with_manifest, with_disk, ◌and_then◌,
}

module _ (f : F64) where
  open f use {Float}

  -- The pass after `pick_compaction` has found a job.
  unfoldable pub run_job : CompactionJob → Engine Float → Result (Unit {0}) × Engine Float
  run_job job e = with_manifest Manifest.next_table_id e and_then λ output_id e₁.
      with_disk
        (Compaction.compact f job.inputs (join e.path (table_file_name output_id)) output_id
          e.options.bloom_false_positive_rate e.options.block_size
          (drop_tombstones e.options.max_levels job e.version))
        e₁
      and_then λ output e₂.
          with_manifest (Manifest.add_table output_id (job.output_level % 2 ^ 32)) e₂
          and_then λ _ e₃.
              with_manifest (Manifest.remove_tables (ids job.inputs)) e₃ and_then λ _ e₄. (
                ok tt,
                record e₄ {
                  version = apply_compaction job (set_level job.output_level output) e₄.version;
                },
              )

  -- The last loop of the source removes the file of an input only if no other handle on it is left.
  -- The clone of the version that the function holds until it returns is such a handle, so no file
  -- is removed.
  unfoldable pub compact_once : Engine Float → Result (Unit {0}) × Engine Float
  unfolding run_job
  compact_once e = elim (pick_compaction e.options e.version) [
    | none ↦ (ok tt, e)
    | some job ↦ run_job job e
  ]

  abbrev pub note_error : Result (Unit {0}) × Engine Float → Engine Float
  note_error (ok _, e) = e
  note_error (err x, e) = record e { last_error = some (to_string x) }

  -- A pass on the worker's thread. The failpoint cell is the thread's own, in which nothing is ever
  -- armed; that of the caller stays as it is.
  unfoldable pub worker_pass : Engine Float → Result (Unit {0}) × Engine Float
  unfolding compact_once
  worker_pass e =
      let (result, e') = compact_once (record e { failpoint = none }) in
      (result, record e' { failpoint = e.failpoint })

  -- A round of `worker_loop`, and whether the loop goes on: a message is received, and a shutdown
  -- ends the loop and leaves the messages behind it in the channel. On an empty channel the worker
  -- waits.
  unfoldable pub worker_step : Engine Float → Bool × Engine Float
  unfolding worker_pass
  worker_step e = elim e.worker [
    | [] ↦ (false, e)
    | compact ∷ messages ↦ (true, note_error (worker_pass (record e { worker = messages })))
    | shutdown ∷ messages ↦ (false, record e { worker = messages })
  ]

  -- `worker_loop`, with as many rounds as messages are in the channel: no pass sends another.
  unfoldable pub worker_loop : List CompactionMessage → Engine Float → Engine Float
  unfolding worker_step
  worker_loop [] e = e
  worker_loop (message ∷ messages) e =
      let rest = worker_loop messages (worker_step e).1 in
      if (worker_step e).0 then rest else (worker_step e).1

  -- `shutdown` sends its message and waits until the worker has ended; `close` syncs the log then.
  unfoldable pub close : Engine Float → Result (Unit {0}) × Engine Float
  unfolding worker_loop
  close e =
      let asked = record e { worker = e.worker ++ shutdown ∷ [] } in
      with_wal Wal.sync (worker_loop asked.worker asked)
