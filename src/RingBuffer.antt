-- ===== src/RingBuffer.antt =====
-- pkg/ringbuffer/ringbuffer.go: a circular buffer that overwrites its oldest element.
-- `cap(r.data)` is the length of `data`, since `New` makes the slice at its full length.
pub mod Valid
pub mod Window
mod Tests
use system_agent.Prelude.{
  ℕ, zero, suc, ◌+◌, ◌%◌, List, [], ◌++◌, Option, none, some, length, set, take, drop, replicate,
  ltb, ◌==◌, if◌then◌else◌, min, ◌-◌,
}
use system_agent.Prelude.Int.{ℤ, pos, negsuc}

pub record RingBuffer (A : Type 0) : Type 0 where
  pub items : List A
  pub head : ℕ
  pub size : ℕ

module _ {A : Type 0} where
  -- The copy of Go: the destination after it.
  abbrev pub copy : List A → List A → List A
  copy dst src = take (length dst) src ++ drop (length src) dst

  module _ (zero_value : A) where
    -- `none` is the error of a capacity that is not positive.
    unfoldable pub new : ℤ → Option (RingBuffer A)
    new (negsuc n) = none
    new (pos zero) = none
    new (pos (suc n)) = some (record { items = replicate (suc n) zero_value; head = 0; size = 0 })

    unfoldable pub get_all : RingBuffer A → List A
    get_all r =
        let result = replicate r.size zero_value in
        let n = min (length result) (length (drop r.head r.items)) in
        let first = copy result (drop r.head r.items) in
        if r.size == 0
        then []
        else if ltb r.size (length r.items)
        then copy result (take r.size r.items)
        else take n first ++ copy (drop n first) (take r.head r.items)

    unfoldable pub clear : RingBuffer A → RingBuffer A
    clear r = record { items = replicate (length r.items) zero_value; head = 0; size = 0 }

  -- A write out of range would panic in Go; `set` ignores it, and `IsValid` excludes it.
  unfoldable pub push : RingBuffer A → A → RingBuffer A
  push r item = record {
    items = set r.items r.head item;
    head = (r.head + 1) % length r.items;
    size = if ltb r.size (length r.items) then r.size + 1 else r.size;
  }

  unfoldable pub len : RingBuffer A → ℕ
  len r = r.size

  unfoldable pub cap : RingBuffer A → ℕ
  cap r = length r.items
