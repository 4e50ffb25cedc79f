-- ===== src/Chain/Result.antt =====
-- One buffer of a row of threads at its beginning and at its end: shared_fifo.cxx and fifo.cxx.
use storm_byte_buffer.Prelude.{
  ◌-◌, ◌≡◌, ◌≢◌, refl, sym, ap, ◌∙◌, inl, inr, true, false, [], ◌++◌, append-nil, length, arith,
}
use storm_byte_buffer.Typedefs.{Data, Operation}
use storm_byte_buffer.Fifo
use storm_byte_buffer.Shared
use storm_byte_buffer.Monitor.Shutdown.{is_over, ready_over}
use storm_byte_buffer.Session.{over, Session, begin, advance, proceed}
use storm_byte_buffer.Session.Ends.{rank, IsEnding, advance-IsEnding, thrice_over}
use storm_byte_buffer.Session.Rounds.{proceed_lem}
use storm_byte_buffer.Chain.{fresh}
use storm_byte_buffer.Chain.Links.{Fed, advance-Fed}

pub got_all :
    (w : Data) (m : Session)
    → Fed w m
    → m.phase ≡ over
    → m.shared.error ≡ false
    → (m.out ≡ w) × (m.shared.closed ≡ true)
got_all w m f o calm = elim (f.keeps.ended o) [
  | inl bad ↦ absurd cc
  | inr (closed, none_left) ↦
      (sym (append-nil m.out) ∙ ap (λ (ys : Data). m.out ++ ys) (sym none_left) ∙ f.all, closed)
]

pub fresh-Fed : (flag : Operation) → flag ≢ Operation.peek → Fed [] (fresh flag)
unfolding fresh begin Shared.empty_shared Fifo.empty_fifo
fresh-Fed Operation.read ne = record {
  keeps = record {
    valid = omega arith;
    growth = omega arith;
    phased = tt;
    ended = λ e. absurd (cc e);
    told = λ e. absurd (cc e);
  };
  all = refl;
}
fresh-Fed Operation.extract ne = record {
  keeps = record {
    valid = omega arith;
    growth = omega arith;
    phased = tt;
    ended = λ e. absurd (cc e);
    told = λ e. absurd (cc e);
  };
  all = refl;
}
fresh-Fed Operation.peek ne = absurd (ne refl)

pub fresh_lem :
    (flag : Operation)
    → ((fresh flag).shared.closed ≡ false) × (length (fresh flag).shared.fifo.buffer ≡ 0)
unfolding fresh begin Shared.empty_shared Fifo.empty_fifo
fresh_lem Operation.read = (refl, refl)
fresh_lem Operation.extract = (refl, refl)
fresh_lem Operation.peek = (refl, refl)

pub ending :
    (w : Data) (m : Session)
    → Fed w m
    → is_over m.shared ≡ true
    → IsEnding m (rank m.phase m.shared)
ending w m f o = record {
  valid = f.keeps.valid;
  phased = f.keeps.phased;
  shut = o;
  bound = omega arith;
}

-- A thread whose buffer is over needs no spurious wakeup.
proceed_over :
    (flag : Operation) (w : Data) (m : Session)
    → Fed w m
    → is_over m.shared ≡ true
    → proceed flag m ≡ advance flag m
proceed_over flag w m f o = proceed_lem flag m f.keeps.phased f.keeps.told (ready_over 1 m.shared o)

pub thrice_proceeds :
    (flag : Operation) (w : Data) (m : Session)
    → flag ≢ Operation.peek
    → Fed w m
    → is_over m.shared ≡ true
    → (proceed flag (proceed flag (proceed flag m))).phase ≡ over
thrice_proceeds flag w m ne f o =
    let n = rank m.phase m.shared in
    let m1 = advance flag m in
    let m2 = advance flag m1 in
    let f1 = (advance-Fed flag w m ne f).0 in
    let f2 = (advance-Fed flag w m1 ne f1).0 in
    let e1 = advance-IsEnding flag m n ne (ending w m f o) in
    let e2 = advance-IsEnding flag m1 (n - 1) ne e1 in
    ap (λ (x : Session). (proceed flag (proceed flag x)).phase) (proceed_over flag w m f o)
    ∙ ap (λ (x : Session). (proceed flag x).phase) (proceed_over flag w m1 f1 e1.shut)
    ∙ ap (λ (x : Session). x.phase) (proceed_over flag w m2 f2 e2.shut)
    ∙ thrice_over flag m ne (ending w m f o)
