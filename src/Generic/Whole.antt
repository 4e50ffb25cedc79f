-- ===== src/Generic/Whole.antt =====
-- `Read` and `Extract` of `ReadOnly` without a count: generic.hxx.
use storm_byte_buffer.Prelude.{ℕ, Bool}
use storm_byte_buffer.Typedefs.{Data, Transfer}
use storm_byte_buffer.Generic.{ReadOnly}

module _ {S : Type 0} (r : ReadOnly S) where
  unfoldable pub read_whole : Data → S → Transfer S
  read_whole out s = r.read 0 out s

  unfoldable pub extract_whole : Data → S → Transfer S
  extract_whole out s = r.extract 0 out s

-- Into another buffer, by the method that takes a count.
module _ {S T : Type 0} (into : ℕ → T → S → Bool × T × S) where
  unfoldable pub read_whole_into : T → S → Bool × T × S
  read_whole_into t s = into 0 t s

  unfoldable pub extract_whole_into : T → S → Bool × T × S
  extract_whole_into t s = into 0 t s
