-- ===== src/Tape.antt =====
-- What a `FIFO` promises: the bytes already passed and the bytes still ahead, with no offset.
use storm_byte_buffer.Prelude.{
  ℕ, suc, ◌-◌, Bool, ltb, ◌&&◌, true, false, [], ◌∷◌, ◌++◌, Option, none, some, leb, ◌==◌,
  if◌then◌else◌, length, take, drop, ℤ, pos, negsuc,
}
use storm_byte_buffer.Typedefs.{Data, Position, Operation, Transfer}

pub record Tape : Type 0 where
  pub passed : Data
  pub ahead : Data

-- How many bytes a read of `count` takes: all of them for 0, and never some of them.
unfoldable pub amount : ℕ → Data → Option ℕ
amount count [] = none
amount count (x ∷ xs) =
    if count == 0
    then some (length (x ∷ xs))
    else if leb count (length (x ∷ xs))
    then some count
    else none

-- What the operation does to the tape when it takes `n` bytes.
unfoldable pub take_from : ℕ → Operation → Tape → Tape
take_from n Operation.read t = record {
  passed = t.passed ++ take n t.ahead;
  ahead = drop n t.ahead;
}
take_from n Operation.peek t = t
take_from n Operation.extract t = record t { ahead = drop n t.ahead }

unfoldable pub transfer : ℕ → Data → Operation → Tape → Transfer Tape
transfer count out flag t = elim (amount count t.ahead) [
  | none ↦ record { done = false; out = out; source = t }
  | some n ↦ record { done = true; out = out ++ take n t.ahead; source = take_from n flag t }
]

unfoldable pub append : Data → Tape → Tape
append bytes t = record t { ahead = t.ahead ++ bytes }

unfoldable pub seek : ℤ → Position → Tape → Tape
seek (negsuc n) Position.absolute t = record { passed = []; ahead = t.passed ++ t.ahead }
seek (pos n) Position.absolute t = record {
  passed = take n (t.passed ++ t.ahead);
  ahead = drop n (t.passed ++ t.ahead);
}
seek (negsuc n) Position.relative t =
    let back = length t.passed - suc n in
    record { passed = take back t.passed; ahead = drop back t.passed ++ t.ahead }
seek (pos n) Position.relative t = record {
  passed = t.passed ++ take n t.ahead;
  ahead = drop n t.ahead;
}

-- With nothing passed the unread bytes go too.
unfoldable pub clean : Tape → Tape
clean t = record { passed = []; ahead = if length t.passed == 0 then [] else t.ahead }

unfoldable pub write : ℕ → Data → Tape → Bool × Tape
unfolding append
write count bytes t =
    if ltb (length bytes) count
    then (false, t)
    else (true, append (if count == 0 then bytes else take count bytes) t)

-- As `clean` does, dropping no byte where none has been passed loses all of them.
unfoldable pub drop_bytes : ℕ → Tape → Bool × Tape
drop_bytes count t = elim t.ahead [
  | [] ↦ (false, t)
  | x ∷ xs ↦ if ltb (length (x ∷ xs)) count then (false, t) else (
    true,
    record {
      passed = [];
      ahead = if (length t.passed == 0) && (count == 0) then [] else drop count (x ∷ xs);
    },
  )
]
