-- ===== src/Relay/Result.antt =====
-- What the reader behind a relay has got: shared_fifo.cxx and fifo.cxx.
use storm_byte_buffer.Prelude.{
  ◌≤◌, ◌≡◌, ◌≢◌, refl, ap, ◌∙◌, inl, inr, Bool-cases, true, false, List, [], map, max_size, arith,
}
use storm_byte_buffer.Typedefs.{Byte, Data, Operation, Helpers}
use storm_byte_buffer.Fifo
use storm_byte_buffer.Shared
use storm_byte_buffer.Session.{before, over, looks, begin}
use storm_byte_buffer.Chain.{fresh}
use storm_byte_buffer.Chain.Links.{Fed}
use storm_byte_buffer.Chain.Result.{got_all, fresh-Fed, fresh_lem}
use storm_byte_buffer.Relay.{Relay, Move, laid, run}
use storm_byte_buffer.Relay.Keeps.{IsRelay, passed_all}
use storm_byte_buffer.Relay.Steps.{AreFed, total, run-IsRelay}

-- Before the first test of the loop.
pub looking-Fed : Fed [] (record (fresh Operation.extract) { phase = before looks })
unfolding fresh begin Shared.empty_shared Fifo.empty_fifo
looking-Fed = record {
  keeps = record {
    valid = omega arith;
    growth = omega arith;
    phased = tt;
    ended = λ e. absurd (cc e);
    told = λ e. absurd (cc e);
  };
  all = refl;
}

pub laid-IsRelay :
    (g : Byte → Byte) (flag : Operation) → flag ≢ Operation.peek → IsRelay g [] (laid flag)
unfolding laid fresh begin
laid-IsRelay g flag ne = record {
  fed = looking-Fed;
  sent = [];
  told = fresh-Fed flag ne;
  passed = inl refl;
  room = omega (arith, (fresh_lem flag).1);
  unshut = λ _. (fresh_lem flag).0;
  ended = λ e. absurd (cc e);
  awake = tt;
}

ended_all :
    (g : Byte → Byte) (w : Data) (r : Relay)
    → IsRelay g w r
    → r.output.phase ≡ over
    → r.input.shared.error ≡ false
    → r.output.shared.error ≡ false
    → r.output.out ≡ map g w
ended_all g w r k o calm calm' =
    let (got, closed) = got_all k.sent r.output k.told o calm' in
    let shut : r.shut ≡ true = elim (Bool-cases r.shut) [
      | inl is ↦ is
      | inr not_yet ↦ let unshut = k.unshut not_yet in absurd cc
    ] in
    let (read, none_held, _) = k.ended shut in
    let (all, _) = got_all w r.input k.fed read calm in
    elim k.passed [
      | inl a ↦ got ∙ passed_all g k.sent r.held r.input.out none_held a ∙ ap (map g) all
      | inr bad ↦ absurd cc
    ]

module _ ⦃h : Helpers⦄ where
  -- A stage extracts what is there, changes each byte, writes that to its output, and goes on so until
  -- its input is at the end of file, when it closes its output; another thread writes to the input
  -- and closes it, and one reads the output until its end, with errors set at any time, in any
  -- interleaving. All that is written to the input fits into a vector. If the reader has ended and
  -- neither buffer is in error, then the reader has got all the bytes that were written, each changed
  -- once, in their order.
  pub relay_passes_all :
      (g : Byte → Byte) (flag : Operation) (vs : List Move)
      → flag ≢ Operation.peek
      → AreFed vs
      → total vs ≤ max_size
      → (run g flag vs (laid flag)).1.output.phase ≡ over
      → (run g flag vs (laid flag)).1.input.shared.error ≡ false
      → (run g flag vs (laid flag)).1.output.shared.error ≡ false
      → let (given, r) = run g flag vs (laid flag) in r.output.out ≡ map g given
  unfolding laid
  relay_passes_all g flag vs ne i fits o calm calm' =
      let (given, r) = run g flag vs (laid flag) in
      ended_all g given r
        (run-IsRelay g flag vs 0 [] (laid flag) ne i
          (omega arith, omega (arith, (fresh_lem Operation.extract).1)) (omega arith)
          (laid-IsRelay g flag ne)).0
        o calm calm'
