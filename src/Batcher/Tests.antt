-- ===== src/Batcher/Tests.antt =====
-- Runs of batcher/batcher.go at concrete inputs.
use fries.Prelude.{ℕ, suc, ◌≡◌, refl, true, false, some, [], ◌∷◌, ◌++◌, All, arith, inl}
use fries.Batcher.{
  Config, handler_error, item, barrier, Handler, flush, accept, new_config, apply_all, check,
  with_batch_size, apply,
}
use fries.Batcher.System.{
  System, Reach, here, further, try_sends, submits, sends, receives, stops, closes, ends,
}
use fries.Batcher.System.Worker.{items, flatten, Fits}
use fries.Batcher.System.Reached.{batches_lem}
use fries.Prelude.Words.{nonpos64, lt64}

-- A handler that counts its calls and fails.
abbrev failing : Handler ℕ ℕ
failing n batch = (suc n, some (handler_error "down"))

abbrev pairs : Config
pairs = record { batch_size = 2; flush_interval = 10; queue_size = 3; on_result = true }

record At : Type 0 where
  system : System ℕ ℕ
  reach : Reach pairs failing 0 system

-- Two items make a batch, a third waits behind a barrier in the queue.
abbrev waiting : At
unfolding accept flush
waiting = record {
  system = _;
  reach =
      further
        (further
          (further
            (further
              (further (further here (try_sends 1 refl (omega arith)))
                (try_sends 2 refl (omega arith)))
              (receives (item 1) (item 2 ∷ []) refl refl))
            (submits (barrier 7) refl))
          (sends [] (barrier 7) [] refl (omega arith)))
        (receives (item 2) (barrier 7 ∷ []) refl refl);
}

abbrev over : At
unfolding accept flush
over = record {
  system = _;
  reach =
      further
        (further
          (further (further (further here (try_sends 1 refl (omega arith))) stops)
            (closes refl refl))
          (receives (item 1) [] refl refl))
        (ends refl refl refl);
}

batches_lem_example :
    (items over.system.accepted
      ≡ (flatten over.system.worker.handled ++ over.system.worker.batch) ++ items over.system.queue)
    × All (Fits pairs) over.system.worker.handled
unfolding accept flush
batches_lem_example = batches_lem pairs failing (omega arith) over.reach

default_sizes :
    new_config (with_batch_size 5 ∷ [])
    ≡ inl (record {
      batch_size = 5;
      flush_interval = 1_000_000_000;
      queue_size = 1000;
      on_result = false;
    })
unfolding new_config apply_all check apply nonpos64 lt64
default_sizes = refl
