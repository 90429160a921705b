-- ===== src/Engine/Worker.antt =====
-- The rounds of the worker of src/compaction.rs.
use lsm_storage_engine.Common.{ℕ, zero, suc, ◌≡◌, refl, Option, none, some, List, [], ◌∷◌}
use Prim.Native.String.{String}
use lsm_storage_engine.SsTable.Create.{SsTable}
use lsm_storage_engine.Error.{Result, ok, err, to_string}
use lsm_storage_engine.Bloom.Float.{F64}
use lsm_storage_engine.Engine.Version.{CompactionJob, pick_compaction}
use lsm_storage_engine.Engine.State.{Engine, CompactionMessage, compact, shutdown, ◌and_then◌}
use lsm_storage_engine.Engine.Compact.{
  run_job, compact_once, note_error, worker_pass, worker_step, worker_loop,
}

-- How many passes are asked for before the first shutdown.
abbrev requests : List CompactionMessage → ℕ
requests [] = 0
requests (compact ∷ messages) = suc (requests messages)
requests (shutdown ∷ messages) = 0

-- The messages behind the first shutdown.
abbrev behind_shutdown : List CompactionMessage → List CompactionMessage
behind_shutdown [] = []
behind_shutdown (compact ∷ messages) = behind_shutdown messages
behind_shutdown (shutdown ∷ messages) = messages

-- The last error after a pass.
abbrev noted : Result (Unit {0}) → Option String → Option String
noted (ok u) last = last
noted (err x) last = some (to_string x)

module _ {Float : Type 0} where
  unfoldable sent : {A : Type 0} → List CompactionMessage → A × Engine Float → A × Engine Float
  sent messages r = (r.0, record r.1 { worker = messages })

  -- A chain whose parts pass the channel on as it is does so too.
  and_then-sent :
      {A B : Type 0} (messages : List CompactionMessage) (p p' : Result A × Engine Float)
      (k : A → Engine Float → Result B × Engine Float)
      → p' ≡ sent messages p
      → ((a : A) (e : Engine Float) → k a (record e { worker = messages }) ≡ sent messages (k a e))
      → (p' and_then k) ≡ sent messages (p and_then k)
  unfolding ◌and_then◌ sent
  and_then-sent messages (ok a, e) p' k g h = rw g (h a e)
  and_then-sent messages (err x, e) p' k g h = rw g refl

module _ (f : F64) where
  open f use {Float}

  -- A pass neither reads the channel nor changes it.
  run_job-sent :
      (job : CompactionJob) (messages : List CompactionMessage) (e : Engine Float)
      → run_job f job (record e { worker = messages }) ≡ sent messages (run_job f job e)
  unfolding run_job
  run_job-sent job messages e = and_then-sent {A = ℕ} messages _ _ _ (unfold sent in refl) (λ id e₁.
      and_then-sent {A = SsTable} messages _ _ _ (unfold sent in refl) (λ output e₂.
        and_then-sent {A = Unit {0}} messages _ _ _ (unfold sent in refl) (λ u e₃.
          and_then-sent {A = Unit {0}} messages _ _ _ (unfold sent in refl)
            (λ v e₄. unfold sent in refl))))

  compact_once-sent :
      (messages : List CompactionMessage) (e : Engine Float)
      → compact_once f (record e { worker = messages }) ≡ sent messages (compact_once f e)
  unfolding compact_once
  compact_once-sent messages e = go (pick_compaction e.options e.version)
    where
      go :
          (o : Option CompactionJob)
          → ◌≡◌ {A = Result (Unit {0}) × Engine Float}
              (elim o [
                | none ↦ (ok tt, record e { worker = messages })
                | some job ↦ run_job f job (record e { worker = messages })
              ])
              (sent messages (elim o [ none ↦ (ok tt, e) | some job ↦ run_job f job e ]))
      go none = unfold sent in refl
      go (some job) = run_job-sent job messages e

  -- A compaction with nothing armed, whose error is kept as the last one.
  abbrev pass : Engine Float → Engine Float
  pass e =
      let (result, e') = compact_once f (record e { failpoint = none }) in
      record e' { failpoint = e.failpoint; last_error = noted result e'.last_error }

  -- So many passes, one after another.
  abbrev pub passes : ℕ → Engine Float → Engine Float
  passes zero e = e
  passes (suc n) e = passes n (pass e)

  noted-note_error :
      (r : Result (Unit {0})) (e : Engine Float)
      → note_error f (r, e) ≡ record e { last_error = noted r e.last_error }
  noted-note_error (ok u) e = refl
  noted-note_error (err x) e = refl

  note_error-worker_pass :
      (messages : List CompactionMessage) (e : Engine Float)
      → note_error f (worker_pass f (record e { worker = messages }))
        ≡ record (pass e) { worker = messages }
  unfolding worker_pass sent
  note_error-worker_pass messages e =
      rw (compact_once-sent messages (record e { failpoint = none })) (noted-note_error _ _)

  worker_loop-sent :
      (messages : List CompactionMessage) (e : Engine Float)
      → worker_loop f messages (record e { worker = messages })
        ≡ record (passes (requests messages) e) { worker = behind_shutdown messages }
  unfolding worker_loop worker_step
  worker_loop-sent [] e = refl
  worker_loop-sent (compact ∷ messages) e =
      rw (note_error-worker_pass messages e) (worker_loop-sent messages (pass e))
  worker_loop-sent (shutdown ∷ messages) e = refl

  -- The worker runs one compaction for each request that is in its channel before the first
  -- shutdown, one after another; an error of one is kept as the last error and does not end the
  -- worker. It stops at the shutdown, and what is behind it stays in the channel. No failure is
  -- armed during a compaction, and what the caller has armed stays so.
  pub worker_loop-passes :
      (e : Engine Float)
      → worker_loop f e.worker e
        ≡ record (passes (requests e.worker) e) { worker = behind_shutdown e.worker }
  worker_loop-passes e = worker_loop-sent e.worker e
