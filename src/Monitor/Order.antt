-- ===== src/Monitor/Order.antt =====
-- The order of the bytes that threads write to a `SharedFIFO` and read off it, over a schedule:
-- shared_fifo.cxx.
use mathlib.Core.Path.{subst, ◌≡⟨◌⟩◌, ◌∎}
use storm_byte_buffer.Prelude.{
  ℕ, zero, suc, ◌+◌, ◌≤◌, ◌≡◌, sym, ap, inl, inr, Bool, true, false, List, [], ◌∷◌, ◌++◌,
  append-nil, append_assoc, map, Option, none, some, Option-cases, Bool-cases, length, max_size,
  arith,
}
use storm_byte_buffer.Typedefs.{Data, Operation, Helpers}
use storm_byte_buffer.Fifo.Bounds.{IsValid}
use storm_byte_buffer.Fifo.Refine.{view}
use storm_byte_buffer.Shared.{Shared, Pending, reading, ready, resume}
use storm_byte_buffer.Monitor.{
  Call, writes, Waiter, Monitor, Event, Move, invokes, wakes, start, notify, rouse, settle, pick,
  lull, wake, invoke, step, run, as_call,
}
use storm_byte_buffer.Monitor.Outcomes.{IsBounded, IsNotSeek, added}
use storm_byte_buffer.Monitor.Wakeups.{Inv, wake-Inv, invoke-Inv, total, Outcome-cases}
use storm_byte_buffer.Monitor.Stream.{IsStream, given, taken, AllFlow, resume-Flows, start-AllFlow}

abbrev pub event_given : Option Event → Data
event_given none = []
event_given (some e) = given e.call e.done e.out

abbrev pub event_taken : Option Event → Data
event_taken none = []
event_taken (some e) = taken e.call e.done e.out

abbrev pub all_given : List (Option Event) → Data
all_given [] = []
all_given (e ∷ es) = event_given e ++ all_given es

abbrev pub all_taken : List (Option Event) → Data
all_taken [] = []
all_taken (e ∷ es) = event_taken e ++ all_taken es

abbrev pub ahead : Monitor → Data
ahead m = (view m.shared.fifo).ahead

-- Only readers wait.
abbrev AreReaders : List Waiter → Type 0
AreReaders [] = Unit {0}
AreReaders (w ∷ ws) =
    ((count : ℕ) × (flag : Operation) × (w.pending ≡ reading count flag)) × AreReaders ws

rouse-AreReaders : (ws : List Waiter) → AreReaders ws → AreReaders (map rouse ws)
rouse-AreReaders [] a = tt
rouse-AreReaders (w ∷ ws) a = (a.0, rouse-AreReaders ws a.1)

notify-AreReaders : (b : Bool) (ws : List Waiter) → AreReaders ws → AreReaders (notify b ws)
notify-AreReaders true ws a = rouse-AreReaders ws a
notify-AreReaders false ws a = a

append-AreReaders :
    (ws : List Waiter) (w : Waiter) (count : ℕ) (flag : Operation)
    → w.pending ≡ reading count flag
    → AreReaders ws
    → AreReaders (ws ++ w ∷ [])
append-AreReaders [] w count flag e a = ((count, flag, e), tt)
append-AreReaders (v ∷ ws) w count flag e a = (a.0, append-AreReaders ws w count flag e a.1)

lull-AreReaders : (i : ℕ) (ws : List Waiter) → AreReaders ws → AreReaders (lull i ws)
unfolding lull
lull-AreReaders i [] a = tt
lull-AreReaders zero (w ∷ ws) a = a
lull-AreReaders (suc i) (w ∷ ws) a = (a.0, lull-AreReaders i ws a.1)

abbrev Picked : Option (Waiter × List Waiter) → Type 0
Picked none = Unit {0}
Picked (some (w, rest)) =
    ((count : ℕ) × (flag : Operation) × (w.pending ≡ reading count flag)) × AreReaders rest

pick-AreReaders : (i : ℕ) (ws : List Waiter) → AreReaders ws → Picked (pick i ws)
unfolding pick
pick-AreReaders i [] a = tt
pick-AreReaders zero (v ∷ ws) a = a
pick-AreReaders (suc i) (v ∷ ws) a = elim (Option-cases (pick i ws)) [
  | inl e ↦ rw (e, pick) tt
  | inr ((w, rest), e) ↦
      let (b, bs) = subst Picked e (pick-AreReaders i ws a.1) in rw (e, pick) (b, (a.0, bs))
]

-- One move, and who waits behind it.
abbrev Moved : Monitor → Option Event × Monitor → Type 0
Moved m (e, m') = (ahead m ++ event_given e ≡ event_taken e ++ ahead m') × AreReaders m'.waiters

module _ ⦃h : Helpers⦄ where
  wake-Moved :
      (i : ℕ) (m : Monitor) → IsValid m.shared.fifo → AreReaders m.waiters → Moved m (wake i m)
  unfolding wake
  wake-Moved i m v a = elim (Option-cases (pick i m.waiters)) [
    | inl e ↦ rw (e, wake) (append-nil _, a)
    | inr ((w, rest), e) ↦
        let ((count, flag, p), bs) = subst Picked e (pick-AreReaders i m.waiters a) in
        elim (Bool-cases (ready w.need m.shared)) [
          | inl r ↦ subst (Moved m) (sym (wake_ready e r)) (
              subst
                (λ (q : Pending). Moved m (settle w.thread (as_call q) (resume q m.shared) rest))
                (sym p) (resume-Flows m.shared count flag v, notify-AreReaders _ rest bs))
          | inr r ↦ rw (e, r, wake) (append-nil _, lull-AreReaders i m.waiters a)
        ]
  ]
    where
      wake_ready :
          {w : Waiter} {rest : List Waiter}
          → pick i m.waiters ≡ some (w, rest)
          → ready w.need m.shared ≡ true
          → wake i m ≡ settle w.thread (as_call w.pending) (resume w.pending m.shared) rest
      wake_ready e r = rw (e, r, wake)

  invoke-Moved :
      (t : ℕ) (c : Call) (m : Monitor)
      → IsStream c
      → IsValid m.shared.fifo
      → AreReaders m.waiters
      → Moved m (invoke t c m)
  unfolding invoke
  invoke-Moved t c m k v a =
      let flow = start-AllFlow m.shared c k v in
      elim (Outcome-cases (start c m.shared)) [
        | inl (x, e) ↦
            rw (e, invoke)
              (subst (AllFlow m.shared c) e flow, notify-AreReaders x.notify m.waiters a)
        | inr (n, p, e) ↦
            let (count, flag, q) = subst (AllFlow m.shared c) e flow in
            rw (e, invoke) (append-nil _, append-AreReaders m.waiters _ count flag q a)
      ]

-- The moves of a schedule of writers and readers, which may close the buffer or set its error.
abbrev pub IsStreamMove : Move → Type 0
IsStreamMove (invokes t c) = IsStream c × IsBounded c
IsStreamMove (wakes i) = Unit {0}

abbrev pub AreStreamMoves : List Move → Type 0
AreStreamMoves [] = Unit {0}
AreStreamMoves (v ∷ vs) = IsStreamMove v × AreStreamMoves vs

stream-IsNotSeek : (c : Call) → IsStream c → IsNotSeek c
stream-IsNotSeek (Call.seeks offset mode) k = k
stream-IsNotSeek (writes count bytes) k = tt
stream-IsNotSeek _ k = tt

-- Two moves after one another.
join :
    (m m' end : Monitor) (e : Option Event) (es : List (Option Event))
    → ahead m ++ event_given e ≡ event_taken e ++ ahead m'
    → ahead m' ++ all_given es ≡ all_taken es ++ ahead end
    → ahead m ++ all_given (e ∷ es) ≡ all_taken (e ∷ es) ++ ahead end
join m m' end e es p q =
    ahead m ++ (event_given e ++ all_given es)
    ≡⟨ sym (append_assoc (ahead m) (event_given e) (all_given es)) ⟩
      (ahead m ++ event_given e) ++ all_given es
    ≡⟨ ap (λ (d : Data). d ++ all_given es) p ⟩ (event_taken e ++ ahead m') ++ all_given es
    ≡⟨ append_assoc (event_taken e) (ahead m') (all_given es) ⟩
      event_taken e ++ (ahead m' ++ all_given es)
    ≡⟨ ap (λ (d : Data). event_taken e ++ d) q ⟩ event_taken e ++ (all_taken es ++ ahead end)
    ≡⟨ sym (append_assoc (event_taken e) (all_taken es) (ahead end)) ⟩
      (event_taken e ++ all_taken es) ++ ahead end ∎

module _ ⦃h : Helpers⦄ where
  run-Moved :
      (room : ℕ) (vs : List Move) (m : Monitor)
      → AreStreamMoves vs
      → room + total vs ≤ max_size
      → Inv room m
      → AreReaders m.waiters
      → let (es, m') = run vs m in ahead m ++ all_given es ≡ all_taken es ++ ahead m'
  unfolding run step
  run-Moved room [] m k small v a = append-nil _
  run-Moved room (invokes t c ∷ vs) m k small v a =
      let (flow, a') = invoke-Moved t c m k.0.0 v.valid a in
      let inv = invoke-Inv room t c m k.0.1 (stream-IsNotSeek c k.0.0) (omega arith) v in
      let (e, m') = invoke t c m in
      let (es, end) = run vs m' in
      join m m' end e es flow
        (run-Moved (room + added c) vs (invoke t c m).1 k.1 (omega arith) inv a')
  run-Moved room (wakes i ∷ vs) m k small v a =
      let (flow, a') = wake-Moved i m v.valid a in
      let (e, m') = wake i m in
      let (es, end) = run vs m' in
      join m m' end e es flow (run-Moved room vs (wake i m).1 k.1 small (wake-Inv room i m v) a')

  -- Under any schedule of writers and readers of one `SharedFIFO`, waits, wakeups, closing and errors
  -- included, that starts with a valid buffer and no thread waiting, where the counts that the reads
  -- ask for are those that a vector can hold and all the bytes fit into one: the bytes that the reads and extracts have returned, in the order in which they came through, followed by those
  -- still unread, are the bytes unread at the start, followed by those of the writes that succeeded.
  pub threads_first_in_first_out :
      (s : Shared) (vs : List Move)
      → IsValid s.fifo
      → AreStreamMoves vs
      → length s.fifo.buffer + total vs ≤ max_size
      → let (es, m) = run vs (record { shared = s; waiters = [] }) in
        (view s.fifo).ahead ++ all_given es ≡ all_taken es ++ ahead m
  threads_first_in_first_out s vs v k small =
      run-Moved (length s.fifo.buffer) vs (record { shared = s; waiters = [] }) k small
        (record { valid = v; fits = omega arith; watched = tt }) tt
