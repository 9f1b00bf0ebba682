-- ===== src/Outbox/Drain.antt =====
-- rust-client/src/outbox.rs: no operation is lost by `drain`, whatever fails and whatever is
-- appended while it runs.
use mathlib.Core.List.{foldl}
use obsidian_sync_engine.Base.{
  Text, ◌≡◌, refl, sym, ap, ◌∙◌, subst, ◌⊎◌, inl, inr, Option, some, true, List, [], ◌∷◌, ◌++◌,
  append-nil, append_assoc, arith, All, Ensures, Ensures-continue, Ensures-weaken,
}
use obsidian_sync_engine.Base.Tests.{list_eq, list_beq_iff, nat_eq}
use obsidian_sync_engine.Op.{op_beq_iff}
use obsidian_sync_engine.Error.{Any}
use obsidian_sync_engine.Fs.{SyncFs}
use obsidian_sync_engine.Fs.Contents.{or_empty, HasContents}
use obsidian_sync_engine.Jsonl.{Codec, read_lines, write_lines}
use obsidian_sync_engine.Jsonl.Journal.{
  IsLawful, journal_text, Holds, read_lines-Holds, write_lines-Holds,
}
use obsidian_sync_engine.Outbox.{OutboxOp, same_op, acknowledge, drain_each, drain}

same_op_refl : (op : OutboxOp) → same_op op op ≡ true
unfolding same_op list_eq
same_op_refl op = ground (arith, op_beq_iff op.op op.op, list_beq_iff op.path op.path)

module _ {S : Type 0} {codec : Codec OutboxOp} {P : OutboxOp → Type 0} {render : OutboxOp → Text}
    (L : IsLawful codec P render) (fs : SyncFs S) (path : Text) {G : Type 0}
    {content : S → Text → Option Text} {acked : S → G} (H : HasContents content acked fs)
    (step : G → OutboxOp → G) where
  abbrev Queue : S → List OutboxOp → Type 0
  Queue s ops = All P ops × Holds render content path s ops

  -- What `drain` expects of its handler, in the states that `Inv` admits: it may append to the
  -- outbox, and where it returns, it has handled the operation, which `step` adds to what `acked`
  -- tells of the state.
  pub record IsHandler (Inv : G → Type 0) (handler : OutboxOp → Any S (Unit {0})) : Type 0 where
    pub stable : (g : G) (op : OutboxOp) → Inv g → Inv (step g op)
    pub on_op :
        (op : OutboxOp) (ops : List OutboxOp) (s : S)
        → Inv (acked s)
        → Queue s ops
        → Ensures
            (λ _ s'.
              (added : List OutboxOp) × Queue s' (ops ++ added) × (acked s' ≡ step (acked s) op))
            (λ _ s'. (added : List OutboxOp) × Queue s' (ops ++ added) × (acked s' ≡ acked s))
            (handler op s)

  rewritten :
      (op : OutboxOp) (ops : List OutboxOp) {s t u : S}
      → All P (op ∷ ops)
      → Holds render content path s (op ∷ ops)
      → content t path ≡ content s path
      → (content u path ≡ content t path) ⊎ (content u path ≡ some (journal_text render ops))
      → Queue u (op ∷ ops) ⊎ Queue u ops
  rewritten op ops h holds e (inl f) = inl (h, ap or_empty (f ∙ e) ∙ holds)
  rewritten op ops h holds e (inr f) = inr (h.1, ap or_empty f)

  -- The line that is handled leaves the file, and no other does.
  acknowledge_lem :
      (op : OutboxOp) (ops : List OutboxOp) (s : S)
      → Queue s (op ∷ ops)
      → Ensures
          (λ _ s'. Queue s' ops × (acked s' ≡ acked s))
          (λ _ s'. (Queue s' (op ∷ ops) ⊎ Queue s' ops) × (acked s' ≡ acked s))
          (acknowledge fs codec path op s)
  unfolding acknowledge
  acknowledge_lem op ops s (h, holds) =
      Ensures-continue (read_lines fs codec path s) _
        (Ensures-weaken (read_lines fs codec path s)
          (read_lines-Holds L fs path H (op ∷ ops) s h holds) (λ r s1 q. q)
          (λ _ s1 q. (inl (h, ap or_empty (q.files path) ∙ holds), q.others)))
        λ r s1 q.
          rw (q.0, same_op_refl op)
            (Ensures-weaken (write_lines fs codec path ops s1)
              (write_lines-Holds L fs path H ops s1 h.1)
              (λ _ s2 w. ((h.1, ap or_empty w.0), w.1.others ∙ q.1.others))
              (λ _ s2 w. (rewritten op ops h holds (q.1.files path) w.0, w.1.others ∙ q.1.others)))

  -- Where a drain of `ops` stopped: `done` is handled, and what stands in the file is the rest,
  -- with the last handled line in front of it if its removal did not reach the disk, and then what
  -- was appended.
  pub record Interrupted (ops added : List OutboxOp) (s s' : S) : Type 0 where
    pub done : List OutboxOp
    pub left : List OutboxOp
    pub later : List OutboxOp
    pub split : ops ≡ done ++ left
    pub handled : acked s' ≡ foldl step (acked s) done
    pub queue :
        Queue s' (left ++ (added ++ later))
        ⊎ ((init : List OutboxOp) × (op : OutboxOp) × (done ≡ init ++ (op ∷ []))
            × Queue s' (op ∷ (left ++ (added ++ later))))

  pub record Drained (ops added : List OutboxOp) (s s' : S) : Type 0 where
    pub later : List OutboxOp
    pub handled : acked s' ≡ foldl step (acked s) ops
    pub queue : Queue s' (added ++ later)

  stopped_before :
      (op : OutboxOp) (ops added : List OutboxOp) {s s' : S} (later : List OutboxOp)
      → Queue s' ((op ∷ (ops ++ added)) ++ later)
      → acked s' ≡ acked s
      → Interrupted (op ∷ ops) added s s'
  stopped_before op ops added {s} {s'} later queue same = record {
    done = [];
    left = op ∷ ops;
    later = later;
    split = refl;
    handled = same;
    queue = inl (subst (Queue s') (append_assoc (op ∷ ops) added later) queue);
  }

  stopped_after :
      (op : OutboxOp) (ops added later : List OutboxOp) (s s1 : S) {s' : S}
      → Queue s' (op ∷ (ops ++ (added ++ later))) ⊎ Queue s' (ops ++ (added ++ later))
      → acked s1 ≡ step (acked s) op
      → acked s' ≡ acked s1
      → Interrupted (op ∷ ops) added s s'
  stopped_after op ops added later s s1 queue one same = record {
    done = op ∷ [];
    left = ops;
    later = later;
    split = refl;
    handled = same ∙ one;
    queue = elim queue [ inl x ↦ inr ([], op, refl, x) | inr y ↦ inl y ];
  }

  not_started :
      (ops : List OutboxOp) {s s' : S}
      → All P ops
      → Holds render content path s' ops
      → acked s' ≡ acked s
      → Interrupted ops [] s s'
  not_started ops {s} h holds same = record {
    done = [];
    left = ops;
    later = [];
    split = refl;
    handled = same;
    queue = inl (rw append-nil (h, holds));
  }

  -- The handled operations of a drain, the first one included.
  handled_cons :
      (op : OutboxOp) (done : List OutboxOp) (s s1 s2 s3 : S)
      → acked s1 ≡ step (acked s) op
      → acked s2 ≡ acked s1
      → acked s3 ≡ foldl step (acked s2) done
      → acked s3 ≡ foldl step (acked s) (op ∷ done)
  handled_cons op done s s1 s2 s3 one same more = more ∙ ap (λ g. foldl step g done) (same ∙ one)

  Drained-cons :
      (op : OutboxOp) (ops added more : List OutboxOp) (s s1 : S) {s2 s3 : S}
      → acked s1 ≡ step (acked s) op
      → acked s2 ≡ acked s1
      → Drained ops (added ++ more) s2 s3
      → Drained (op ∷ ops) added s s3
  Drained-cons op ops added more s s1 {s2} {s3} one same d = record {
    later = more ++ d.later;
    handled = handled_cons op ops s s1 s2 s3 one same d.handled;
    queue = subst (Queue s3) (append_assoc added more d.later) d.queue;
  }

  Interrupted-cons :
      (op : OutboxOp) (ops added more : List OutboxOp) (s s1 : S) {s2 s3 : S}
      → acked s1 ≡ step (acked s) op
      → acked s2 ≡ acked s1
      → Interrupted ops (added ++ more) s2 s3
      → Interrupted (op ∷ ops) added s s3
  Interrupted-cons op ops added more s s1 {s2} {s3} one same d = record {
    done = op ∷ d.done;
    left = d.left;
    later = more ++ d.later;
    split = ap (◌∷◌ op) d.split;
    handled = handled_cons op d.done s s1 s2 s3 one same d.handled;
    queue = elim (d.queue) [
      | inl x ↦ inl (subst (λ l. Queue s3 (d.left ++ l)) (append_assoc added more d.later) x)
      | inr (init, o, e, x) ↦ inr (
        op ∷ init,
        o,
        ap (◌∷◌ op) e,
        subst (λ l. Queue s3 (o ∷ (d.left ++ l))) (append_assoc added more d.later) x,
      )
    ];
  }

  module _ (Inv : G → Type 0) (handler : OutboxOp → Any S (Unit {0}))
      (K : IsHandler Inv handler) where
    drain_each_lem :
        (ops added : List OutboxOp) (s : S)
        → Inv (acked s)
        → Queue s (ops ++ added)
        → Ensures
            (λ _ s'. Drained ops added s s')
            (λ _ s'. Interrupted ops added s s')
            (drain_each fs codec path handler ops s)
    unfolding drain_each
    drain_each_lem [] added s inv queue = record {
      post = record { later = []; handled = refl; queue = rw append-nil queue };
    }
    drain_each_lem (op ∷ ops) added s inv queue =
        Ensures-continue (handler op s) _
          (Ensures-weaken (handler op s) (K.on_op op (op ∷ (ops ++ added)) s inv queue)
            (λ _ s1 q. q) (λ _ s1 q. stopped_before op ops added q.0 q.1 q.2))
          λ _ s1 q.
            Ensures-continue (acknowledge fs codec path op s1) _
              (Ensures-weaken (acknowledge fs codec path op s1)
                (acknowledge_lem op (ops ++ (added ++ q.0)) s1
                  (subst (λ l. Queue s1 (op ∷ l)) (append_assoc ops added q.0) q.1))
                (λ _ s2 a. a) (λ _ s2 a. stopped_after op ops added q.0 s s1 a.0 q.2 a.1))
              λ _ s2 a.
                Ensures-weaken (drain_each fs codec path handler ops s2)
                  (drain_each_lem ops (added ++ q.0) s2
                    (subst Inv (sym (a.1 ∙ q.2)) (K.stable (acked s) op inv)) a.0)
                  (λ _ s3 d. Drained-cons op ops added q.0 s s1 q.2 a.1 d)
                  (λ _ s3 d. Interrupted-cons op ops added q.0 s s1 q.2 a.1 d)

    pub drain_lem :
        (ops : List OutboxOp) (s : S)
        → Inv (acked s)
        → Queue s ops
        → Ensures
            (λ _ s'. Drained ops [] s s')
            (λ _ s'. Interrupted ops [] s s')
            (drain fs codec path handler s)
    unfolding drain
    drain_lem ops s inv (h, holds) =
        Ensures-continue (read_lines fs codec path s) _
          (Ensures-weaken (read_lines fs codec path s) (read_lines-Holds L fs path H ops s h holds)
            (λ r s1 q. q)
            (λ _ s1 q. not_started ops h (ap or_empty (q.files path) ∙ holds) q.others))
          λ r s1 q. rw (q.0) (
            Ensures-weaken (drain_each fs codec path handler ops s1)
              (drain_each_lem ops [] s1 (subst Inv (sym q.1.others) inv)
                (rw append-nil (h, ap or_empty (q.1.files path) ∙ holds)))
              (λ _ s2 d. record {
                later = d.later;
                handled = d.handled ∙ ap (λ g. foldl step g ops) q.1.others;
                queue = d.queue;
              })
              (λ _ s2 d. record {
                done = d.done;
                left = d.left;
                later = d.later;
                split = d.split;
                handled = d.handled ∙ ap (λ g. foldl step g d.done) q.1.others;
                queue = d.queue;
              }))

  -- With a handler that leaves the queue alone, a drain that returns leaves it empty.
  module _ (Inv : G → Type 0) (handler : OutboxOp → Any S (Unit {0}))
      (quiet : (op : OutboxOp) (ops : List OutboxOp) (s : S)
        → Inv (acked s)
        → Queue s ops
        → Ensures
            (λ _ s'. Queue s' ops × (acked s' ≡ acked s))
            (λ _ _. Unit {0})
            (handler op s)) where
    drain_each_empties :
        (ops : List OutboxOp) (s : S)
        → Inv (acked s)
        → Queue s ops
        → Ensures
            (λ _ s'. Queue s' [] × (acked s' ≡ acked s))
            (λ _ _. Unit {0})
            (drain_each fs codec path handler ops s)
    unfolding drain_each
    drain_each_empties [] s inv queue = record { post = (queue, refl) }
    drain_each_empties (op ∷ ops) s inv queue =
        Ensures-continue (handler op s) _ (quiet op (op ∷ ops) s inv queue) λ _ s1 q.
          Ensures-continue (acknowledge fs codec path op s1) _
            (Ensures-weaken (acknowledge fs codec path op s1) (acknowledge_lem op ops s1 q.0)
              (λ _ s2 a. a) (λ _ s2 a. tt))
            λ _ s2 a.
              Ensures-weaken (drain_each fs codec path handler ops s2)
                (drain_each_empties ops s2 (subst Inv (sym (a.1 ∙ q.1)) inv) a.0)
                (λ _ s3 d. (d.0, d.1 ∙ (a.1 ∙ q.1))) (λ _ s3 d. tt)

    pub drain_empties :
        (ops : List OutboxOp) (s : S)
        → Inv (acked s)
        → Queue s ops
        → Ensures
            (λ _ s'. Queue s' [] × (acked s' ≡ acked s))
            (λ _ _. Unit {0})
            (drain fs codec path handler s)
    unfolding drain
    drain_empties ops s inv (h, holds) =
        Ensures-continue (read_lines fs codec path s) _
          (Ensures-weaken (read_lines fs codec path s) (read_lines-Holds L fs path H ops s h holds)
            (λ r s1 q. q) (λ _ s1 q. tt))
          λ r s1 q. rw (q.0) (
            Ensures-weaken (drain_each fs codec path handler ops s1)
              (drain_each_empties ops s1 (subst Inv (sym q.1.others) inv)
                (h, ap or_empty (q.1.files path) ∙ holds))
              (λ _ s2 d. (d.0, d.1 ∙ q.1.others)) (λ _ s2 d. tt))
