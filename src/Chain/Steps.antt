-- ===== src/Chain/Steps.antt =====
-- The moves of threads in a row of which the caller's only feed the first buffer: shared_fifo.cxx.
use storm_byte_buffer.Prelude.{ℕ, ◌+◌, List, [], ◌∷◌}
use storm_byte_buffer.Monitor.Outcomes.{added}
use storm_byte_buffer.Session.Feeds.{IsFeed}
use storm_byte_buffer.Chain.{Move, feeds}

-- The caller only writes to the first buffer, closes it, or sets its error.
abbrev pub IsFed : Move → Type 0
IsFed (feeds c) = IsFeed c
IsFed _ = Unit {0}

abbrev pub AreFed : List Move → Type 0
AreFed [] = Unit {0}
AreFed (v ∷ vs) = IsFed v × AreFed vs

-- The bytes that the caller may write.
abbrev pub growth : Move → ℕ
growth (feeds c) = added c
growth _ = 0

abbrev pub total : List Move → ℕ
total [] = 0
total (v ∷ vs) = growth v + total vs
