-- ===== src/Logger/Unopened.antt =====
-- logger.h where `::open` has failed: the flush thread leaves its buffer full.
use titan_lob.Prelude.{
  ℕ, zero, suc, ◌≤◌, drop, ◌+◌, ◌≡◌, refl, ap, ◌∙◌, arith, List, [], ◌++◌, replicate,
  length-replicate, take, ltb, Bool, true, false, Bool-cases, inl, inr, ℤ, pos, leb_ℤ,
}
use titan_lob.Protocol.Output.{OutputMsg}
use titan_lob.Logger.{
  BinaryLogger, buffer_capacity, is_full, new, log_batch_round, trigger_flush, flush_round,
}
use titan_lob.Logger.Written.{copied}
use titan_lob.Logger.Turns.{Threads, Turn, Reaches}

drop-nil : {A : Type 0} (n : ℕ) (a : A) (k : ℕ) → n ≤ k → drop k (replicate n a) ≡ []
drop-nil zero a zero h = refl
drop-nil zero a (suc k) h = refl
drop-nil (suc n) a zero h = absurd (omega arith)
drop-nil (suc n) a (suc k) h = drop-nil n a k (omega arith)

module _ (default : OutputMsg) (write : List OutputMsg → List OutputMsg → ℤ × List OutputMsg) where
  unopened_round :
      (l : BinaryLogger)
      → leb_ℤ (pos 0) l.fd ≡ false
      → flush_round write l ≡ record l { flush_pending = false }
  unfolding flush_round
  unopened_round l shut =
      rw shut
        (elim (Bool-cases (ltb 0 l.flush_buffer.count)) [ inl e ↦ rw e refl | inr e ↦ rw e refl ])

  -- A state between two turns, with what the two buffers hold.
  record At (fd : ℤ) (t : Threads) (waiting pending : Bool) (filled flushing : ℕ) : Type 0 where
    reached : Reaches default write fd t
    waits : t.waiting ≡ waiting
    done : t.todo ≡ []
    pends : t.logger.flush_pending ≡ pending
    fills : t.logger.write_buffer.count ≡ filled
    holds : t.logger.flush_buffer.count ≡ flushing
    file : t.logger.fd ≡ fd

  abbrev batch : List OutputMsg
  batch = replicate buffer_capacity default

  -- A batch that fills an empty buffer.
  fill :
      (fd : ℤ) (t : Threads) (n : ℕ)
      → At fd t false false 0 n
      → (t' : Threads) × At fd t' true false buffer_capacity n
  unfolding log_batch_round
  fill fd t n a =
      let t1 : Threads = record t { todo = batch } in
      let count = a.fills in
      let size = length-replicate buffer_capacity default in
      let all : copied t.logger batch ≡ buffer_capacity = ground arith in
      let sum : t.logger.write_buffer.count + copied t.logger batch ≡ buffer_capacity =
        omega arith in
      (
        record {
          logger = (log_batch_round default t.logger batch).0;
          waiting = is_full (log_batch_round default t.logger batch).0.write_buffer;
          todo = (log_batch_round default t.logger batch).1;
          logged = t.logged ++ take (copied t.logger batch) batch;
        },
        record {
          reached =
              Reaches.turn t1 _ (Reaches.turn t t1 a.reached (Turn.begins t batch a.waits a.done))
                (Turn.copies t1 a.waits);
          waits = rw sum refl;
          done = drop-nil buffer_capacity default (copied t.logger batch) (omega (arith, all));
          pends = a.pends;
          fills = sum;
          holds = a.holds;
          file = a.file;
        },
      )

  swap :
      (fd : ℤ) (t : Threads) (m n : ℕ)
      → At fd t true false m n
      → (t' : Threads) × At fd t' false true n m
  unfolding trigger_flush
  swap fd t m n a = (
    record t { logger = trigger_flush t.logger; waiting = false },
    record {
      reached = Reaches.turn t _ a.reached (Turn.swaps t a.waits a.pends);
      waits = refl;
      done = a.done;
      pends = refl;
      fills = a.holds;
      holds = a.fills;
      file = a.file;
    },
  )

  flush :
      (fd : ℤ) (t : Threads) (m n : ℕ)
      → leb_ℤ (pos 0) fd ≡ false
      → At fd t false true m n
      → (t' : Threads) × At fd t' false false m n
  flush fd t m n shut a =
      let same = unopened_round t.logger (rw a.file shut) in
      (
        record t { logger = flush_round write t.logger },
        record {
          reached = Reaches.turn t _ a.reached (Turn.flushes t a.pends);
          waits = a.waits;
          done = a.done;
          pends = ap (λ l. l.flush_pending) same;
          fills = ap (λ l. l.write_buffer.count) same ∙ a.fills;
          holds = ap (λ l. l.flush_buffer.count) same ∙ a.holds;
          file = ap (λ l. l.fd) same ∙ a.file;
        },
      )

  begin :
      (fd : ℤ)
      → At fd
          (record { logger = new default fd; waiting = false; todo = []; logged = [] })
          false
          false
          0
          0
  unfolding new
  begin fd = record {
    reached = Reaches.start;
    waits = refl;
    done = refl;
    pends = refl;
    fills = refl;
    holds = refl;
    file = refl;
  }

  -- When no file could be opened, two batches as large as a buffer lead to a state between two calls in
  -- which the buffer that is being filled is full: the next message that `log` writes goes past its end.
  pub unopened_overflow :
      (fd : ℤ)
      → leb_ℤ (pos 0) fd ≡ false
      → (t : Threads) × Reaches default write fd t
        × (t.waiting ≡ false)
        × (t.todo ≡ [])
        × (t.logger.write_buffer.count ≡ buffer_capacity)
  unopened_overflow fd shut =
      let (t1, a1) = fill fd _ 0 (begin fd) in
      let (t2, a2) = swap fd t1 buffer_capacity 0 a1 in
      let (t3, a3) = flush fd t2 0 buffer_capacity shut a2 in
      let (t4, a4) = fill fd t3 buffer_capacity a3 in
      let (t5, a5) = swap fd t4 buffer_capacity buffer_capacity a4 in
      (t5, a5.reached, a5.waits, a5.done, a5.fills)
